-- ===== src/Fdlib/Silent.antt =====
-- A node that is silent, and one that is not.
use blockafile.Base.{
  ℕ, zero, suc, ◌+◌, ◌-◌, ◌/◌, ◌%◌, ◌*◌, ◌≤◌, ◌<◌, ◌≡◌, refl, sym, ◌∙◌, subst, Bool, true, false,
  not, ◌&&◌, ◌||◌, Option, none, some, List, [], ◌∷◌, ◌++◌, Bytes, arith, leb, ltb, Bool-cases, inl,
  inr, ◌==◌, bytes_eq_refl,
}
use blockafile.Base.Dict.{lookup, insert, lookup-erase, lookup-insert}
use blockafile.Fdlib.{HbeatMessage, AckMessage, Monitor, Fd, new_monitor, uint8_size, uint64_size}
use blockafile.Fdlib.Turn.{
  Poll, nothing, acked, poll, after_read, send_heartbeat, timed_out, counted, round_trip_time,
  failed,
}
use blockafile.Fdlib.Unacked.{is_acked, unacked_after, turns, turns-on, turns-end}

-- A turn that reads nothing, with no error but that.
abbrev pub Silent : Poll → Type 0
Silent p =
    (p.deadline_set ≡ true) × (p.received ≡ nothing) × (p.encoded ≡ true) × (p.written ≡ true)

abbrev waiting : Monitor → ℕ → Poll → Monitor
waiting m count p = record m {
  count_lost_msgs = count;
  one_heartbeat_sent = true;
  last_heartbeat_sent_at = p.sent_at;
}

module _ (remote : Bytes) where
  abbrev wrote : Fd → Fd
  wrote fd =
      let message : HbeatMessage = record {
        epoch_nonce = fd.epoch_nonce;
        seq_num = fd.curr_seq_num;
      } in
      record fd {
        curr_seq_num = (fd.curr_seq_num + 1) % uint64_size;
        heartbeats = fd.heartbeats ++ (remote, message) ∷ [];
      }

  -- A silent turn is the rest of a turn, on the count of the time-out.
  poll-eq-after_read :
      (fd : Fd) (m : Monitor) (p : Poll)
      → Silent p
      → let timeout = timed_out fd remote m p in
        poll fd remote m p ≡ after_read fd remote timeout false (counted timeout m) p
  unfolding poll
  poll-eq-after_read fd m p (set, quiet, e, w) = rw (set, quiet) refl

  after_read_sends :
      (fd : Fd) (m : Monitor) (p : Poll) (timeout : Bool)
      → Silent p
      → m.count_lost_msgs < m.lost_msg_thresh
      → (timeout || not m.one_heartbeat_sent) ≡ true
      → after_read fd remote timeout false m p ≡ (wrote fd, some (waiting m m.count_lost_msgs p))
  unfolding after_read send_heartbeat
  after_read_sends fd m p timeout (set, quiet, e, w) low due =
      let below : leb m.lost_msg_thresh m.count_lost_msgs ≡ false = ground arith in
      rw (below, due, e, w) refl

  first_round :
      (fd : Fd) (m : Monitor) (p : Poll)
      → Silent p
      → m.one_heartbeat_sent ≡ false
      → m.count_lost_msgs < m.lost_msg_thresh
      → poll fd remote m p ≡ (wrote fd, some (waiting m m.count_lost_msgs p))
  first_round fd m p silent fresh low =
      let early : timed_out fd remote m p ≡ false = ground arith in
      let rest = after_read_sends fd m p false silent low (ground arith) in
      poll-eq-after_read fd m p silent ∙ rw early rest

  module _ (fd : Fd) (m : Monitor) (p : Poll) (silent : Silent p)
      (sent : m.one_heartbeat_sent ≡ true)
      (late : round_trip_time fd remote < p.started - m.last_heartbeat_sent_at)
      (byte : m.lost_msg_thresh < 256) where
    is_late : timed_out fd remote m p ≡ true
    is_late = ground arith

    silent_round :
        m.count_lost_msgs + 1 < m.lost_msg_thresh
        → poll fd remote m p ≡ (wrote fd, some (waiting m (m.count_lost_msgs + 1) p))
    silent_round low =
        let one : (m.count_lost_msgs + 1) % uint8_size ≡ m.count_lost_msgs + 1 = omega arith in
        let rest =
          after_read_sends fd (record m { count_lost_msgs = m.count_lost_msgs + 1 }) p true silent
            low refl in
        poll-eq-after_read fd m p silent ∙ rw (is_late, one) rest

    last_round :
        m.count_lost_msgs + 1 ≡ m.lost_msg_thresh → poll fd remote m p ≡ (failed remote fd, none)
    unfolding after_read
    last_round full =
        let one : (m.count_lost_msgs + 1) % uint8_size ≡ m.count_lost_msgs + 1 = omega arith in
        let past : leb m.lost_msg_thresh (m.count_lost_msgs + 1) ≡ true = ground arith in
        poll-eq-after_read fd m p silent ∙ rw (is_late, one, past) refl

  -- `k` turns from turn `i` on, or until the monitor returns.
  abbrev pub rounds : (ℕ → Poll) → ℕ → ℕ → Fd → Monitor → Fd × Option Monitor
  rounds polls zero i fd m = (fd, some m)
  rounds polls (suc k) i fd m =
      let (fd', left) = poll fd remote m (polls i) in
      elim left [ none ↦ (fd', none) | some m' ↦ rounds polls k (i + 1) fd' m' ]

  abbrev after : (ℕ → Poll) → ℕ → ℕ → Fd × Option Monitor → Fd × Option Monitor
  after polls k i r = elim r.1 [ none ↦ (r.0, none) | some m' ↦ rounds polls k (i + 1) r.0 m' ]

  -- The node is notified, once more than `before`, and its monitor is gone.
  abbrev pub Detected : List Bytes → Fd × Option Monitor → Type 0
  Detected before r =
      (r.1 ≡ none)
      × (r.0.notified ≡ before ++ remote ∷ [])
      × (lookup remote r.0.monitoring_nodes ≡ none)
      × (lookup remote r.0.running ≡ none)

  failed-Detected : (fd : Fd) → Detected fd.notified (failed remote fd, none)
  failed-Detected fd = (
    refl,
    refl,
    ground (arith, lookup-erase remote remote fd.monitoring_nodes, bytes_eq_refl remote),
    ground (arith, lookup-erase remote remote fd.running, bytes_eq_refl remote),
  )

  -- A silent turn before the time-out does nothing.
  idle_round :
      (fd : Fd) (m : Monitor) (p : Poll)
      → Silent p
      → m.one_heartbeat_sent ≡ true
      → timed_out fd remote m p ≡ false
      → m.count_lost_msgs < m.lost_msg_thresh
      → poll fd remote m p ≡ (fd, some m)
  unfolding after_read
  idle_round fd m p silent sent early low =
      let below : leb m.lost_msg_thresh m.count_lost_msgs ≡ false = ground arith in
      poll-eq-after_read fd m p silent ∙ rw (early, below, sent) refl

  module _ (polls : ℕ → Poll) (silent : (i : ℕ) → Silent (polls i)) (rtt w : ℕ)
      (slow : (i : ℕ) → rtt < (polls (i + suc w)).started - (polls i).sent_at) where
    -- Turn `i`, the last heartbeat being of turn `s`, `j` idle turns ago, with `r` more time-outs to
    -- come after the next one, and `k` turns.
    rounds-Detected :
        (k s j r i : ℕ) (fd : Fd) (m : Monitor)
        → m.one_heartbeat_sent ≡ true
        → round_trip_time fd remote ≡ rtt
        → m.last_heartbeat_sent_at ≡ (polls s).sent_at
        → i ≡ s + suc j
        → j ≤ w
        → m.lost_msg_thresh < 256
        → m.count_lost_msgs + 1 + r ≡ m.lost_msg_thresh
        → r * suc w + suc (w - j) ≤ k
        → Detected fd.notified (rounds polls k i fd m)
    rounds-Detected zero s j r i fd m sent time last at near byte left enough =
        absurd (omega (arith, enough))
    rounds-Detected (suc k) s j r i fd m sent time last at near byte left enough =
        let again =
          λ (r' : ℕ) (more : m.count_lost_msgs + 1 + suc r' ≡ m.lost_msg_thresh)
              (room : r' * suc w + suc w ≤ k).
            rounds-Detected k i 0 r' (i + 1) (wrote fd)
              (waiting m (m.count_lost_msgs + 1) (polls i)) refl time refl (omega arith)
              (omega arith) byte (omega (arith, more)) (omega (arith, room)) in
        elim (Bool-cases (timed_out fd remote m (polls i))) [
          | inl late ↦ due again r late left enough
          | inr early ↦
              let now = idle_round fd m (polls i) (silent i) sent early (omega (arith, left)) in
              let before : suc j ≤ w = in_time early in
              subst (λ q. Detected fd.notified (after polls k i q)) (sym now)
                (rounds-Detected k s (suc j) r (i + 1) fd m sent time last (omega (arith, at))
                  before byte left (omega (arith, enough, before)))
        ]
      where
        in_time : timed_out fd remote m (polls i) ≡ false → suc j ≤ w
        in_time early = elim (Bool-cases (ltb j w)) [
          | inl low ↦ ground arith
          | inr high ↦
              let full : j ≡ w = ground arith in
              let here : i ≡ s + suc w = omega (arith, at, full) in
              let past = slow s in
              let past' : rtt < (polls i).started - m.last_heartbeat_sent_at =
                subst (λ n. rtt < (polls n).started - m.last_heartbeat_sent_at) (sym here)
                  (omega (arith, past, last)) in
              absurd (ground (arith, past', time, sent, early))
        ]

        due :
            ((r' : ℕ)
              → m.count_lost_msgs + 1 + suc r' ≡ m.lost_msg_thresh
              → r' * suc w + suc w ≤ k
              → Detected fd.notified
                  (rounds polls k (i + 1) (wrote fd) (waiting m (m.count_lost_msgs + 1) (polls i))))
            → (r' : ℕ) → timed_out fd remote m (polls i) ≡ true
            → m.count_lost_msgs + 1 + r' ≡ m.lost_msg_thresh
            → r' * suc w + suc (w - j) ≤ suc k
            → Detected fd.notified (rounds polls (suc k) i fd m)
        due again zero late full room =
            let past : round_trip_time fd remote < (polls i).started - m.last_heartbeat_sent_at =
              ground arith in
            let now = last_round fd m (polls i) (silent i) sent past byte (omega (arith, full)) in
            subst (λ q. Detected fd.notified (after polls k i q)) (sym now) (failed-Detected fd)
        due again (suc r') late more room =
            let past : round_trip_time fd remote < (polls i).started - m.last_heartbeat_sent_at =
              ground arith in
            let now = silent_round fd m (polls i) (silent i) sent past byte (omega (arith, more)) in
            let times : suc r' * suc w ≡ suc w + r' * suc w = omega arith in
            subst (λ q. Detected fd.notified (after polls k i q)) (sym now)
              (again r' more (omega (arith, room, times)))

    -- If every turn of the monitor reads nothing and has no other error, and if the (w + 1)-th turn
    -- after any turn starts more than the round trip time after the moment at which that turn writes
    -- its heartbeat, or would write one, then a monitor with a positive threshold t below 256 ends
    -- within t * (w + 1) + 1 turns: it notifies the failure of the node once, and the node is not
    -- monitored any more.
    pub silent-Detected :
        (fd : Fd) (t : ℕ)
        → round_trip_time fd remote ≡ rtt
        → 0 < t
        → t < 256
        → Detected fd.notified (rounds polls (suc (t * suc w)) 0 fd (new_monitor t))
    silent-Detected fd zero time positive byte = absurd (omega (arith, positive))
    silent-Detected fd (suc r) time positive byte =
        let start = new_monitor (suc r) in
        let now = first_round fd start (polls 0) (silent 0) refl positive in
        let times : suc r * suc w ≡ suc w + r * suc w = omega arith in
        subst (λ q. Detected fd.notified (after polls (suc r * suc w) 0 q)) (sym now)
          (rounds-Detected (suc r * suc w) 0 0 r 1 (wrote fd) (waiting start 0 (polls 0)) refl time
            refl refl (omega arith) byte (omega arith) (omega (arith, times)))

module _ (remote : Bytes) (fd : Fd) (m : Monitor) (p : Poll) (ack : AckMessage) (at : ℕ)
    (set : p.deadline_set ≡ true) (heard : p.received ≡ acked ack at)
    (ours : ack.hbeat_epoch_nonce ≡ fd.epoch_nonce) where
  abbrev mean : ℕ
  mean = (round_trip_time fd remote + (at - m.last_heartbeat_sent_at)) / 2

  abbrev averaged : Fd
  averaged = record fd { round_trip_times = insert remote mean fd.round_trip_times }

  averaged-round_trip_time : round_trip_time averaged remote ≡ mean
  averaged-round_trip_time =
      ground (arith, lookup-insert remote remote mean fd.round_trip_times, bytes_eq_refl remote)

  acked_unwritten :
      timed_out fd remote m p ≡ false
      → p.written ≡ false
      → m.lost_msg_thresh ≡ 1
      → poll fd remote m p ≡ (
        record averaged { curr_seq_num = (fd.curr_seq_num + 1) % uint64_size },
        some (record m { count_lost_msgs = 0 }),
      )
  unfolding poll after_read send_heartbeat
  acked_unwritten early unwritten thresh =
      let same : (ack.hbeat_epoch_nonce == fd.epoch_nonce) ≡ true = ground arith in
      let failing : (p.encoded && p.written) ≡ false = ground arith in
      rw (set, heard, same, early, thresh, failing) refl

  -- A node that acks the heartbeat before the time-out is notified as failed all the same, with no
  -- heartbeat written to it since that ack, if the threshold is 1, the heartbeat after the ack is
  -- not written, and a turn of silence follows that starts later after the last heartbeat than the
  -- new round trip time.
  pub unwritten-Detected :
      (q : Poll) (n : ℕ)
      → timed_out fd remote m p ≡ false
      → p.written ≡ false
      → m.lost_msg_thresh ≡ 1
      → m.one_heartbeat_sent ≡ true
      → Silent q
      → mean < q.started - m.last_heartbeat_sent_at
      → let r = turns remote fd m n (p ∷ q ∷ []) in
        Detected remote fd.notified (r.0, r.1) × (r.2 ≡ 0)
  unwritten-Detected q n early unwritten thresh sent silent late =
      let first = acked_unwritten early unwritten thresh in
      let fd' = record averaged { curr_seq_num = (fd.curr_seq_num + 1) % uint64_size } in
      let m' = record m { count_lost_msgs = 0 } in
      let second =
        last_round remote fd' m' q silent sent (omega (arith, averaged-round_trip_time, late))
          (omega (arith, thresh)) (omega (arith, thresh)) in
      let n' = unacked_after fd n p fd' in
      let both =
        turns-on remote fd m n p (q ∷ []) fd' m' first
        ∙ turns-end remote fd' m' n' q [] (failed remote fd') second in
      let mine : is_acked fd.epoch_nonce p ≡ true = ground arith in
      let quiet : is_acked fd.epoch_nonce q ≡ false = ground arith in
      let none_left : unacked_after fd' n' q (failed remote fd') ≡ 0 = ground arith in
      subst (λ r. Detected remote fd.notified (r.0, r.1) × (r.2 ≡ 0)) (sym both)
        (failed-Detected remote fd', none_left)
