-- ===== src/Fdlib/Unacked.antt =====
-- When a failure is notified: the heartbeats that were not acked.
use blockafile.Base.{
  ℕ, ◌+◌, ◌-◌, ◌/◌, ◌%◌, ◌≤◌, ◌<◌, ◌≡◌, refl, ap, ◌∙◌, inl, inr, Bool, true, false, not, ◌&&◌, ◌||◌,
  Option, none, some, List, [], ◌∷◌, Bytes, arith, leb, ◌==◌, if◌then◌else◌, length, length-append,
  Bool-cases, Option-cases, All,
}
use blockafile.Base.Dict.{insert}
use blockafile.Fdlib.{HbeatMessage, Monitor, Fd, new_monitor, uint8_size}
use blockafile.Fdlib.Turn.{
  Poll, Received, nothing, garbled, acked, poll, after_read, send_heartbeat, timed_out, counted,
  uncounted, round_trip_time,
}

abbrev round_trip_mean : Fd → Bytes → Monitor → ℕ → ℕ
round_trip_mean fd remote m at = (round_trip_time fd remote + (at - m.last_heartbeat_sent_at)) / 2

-- Whether a turn reads an ack of a heartbeat of this epoch.
abbrev pub is_acked : ℕ → Poll → Bool
is_acked epoch_nonce p = p.deadline_set && elim p.received [
  | nothing ↦ false
  | garbled ↦ false
  | acked ack at ↦ ack.hbeat_epoch_nonce == epoch_nonce
]

abbrev pub Clean : Poll → Type 0
Clean p = (p.encoded ≡ true) × (p.written ≡ true)

-- The heartbeats written since the last ack after a turn, of which `n` were before it.
abbrev pub unacked_after : Fd → ℕ → Poll → Fd → ℕ
unacked_after fd n p fd' =
    (if is_acked fd.epoch_nonce p then 0 else n) + (length fd'.heartbeats - length fd.heartbeats)

module _ (remote : Bytes) where
  -- The turns of a monitor until it returns: its state, and the heartbeats since the last ack.
  abbrev pub turns : Fd → Monitor → ℕ → List Poll → Fd × Option Monitor × ℕ
  turns fd m n [] = (fd, some m, n)
  turns fd m n (p ∷ ps) =
      let (fd', left) = poll fd remote m p in
      let n' = unacked_after fd n p fd' in
      elim left [ none ↦ (fd', none, n') | some m' ↦ turns fd' m' n' ps ]

  abbrev following : Fd → ℕ → Poll → List Poll → Fd × Option Monitor → Fd × Option Monitor × ℕ
  following fd n p ps r = elim r.1 [
    | none ↦ (r.0, none, unacked_after fd n p r.0)
    | some m' ↦ turns r.0 m' (unacked_after fd n p r.0) ps
  ]

  module _ (fd : Fd) (m : Monitor) (n : ℕ) (p : Poll) (ps : List Poll) (fd' : Fd) where
    pub turns-on :
        (m' : Monitor)
        → poll fd remote m p ≡ (fd', some m')
        → turns fd m n (p ∷ ps) ≡ turns fd' m' (unacked_after fd n p fd') ps
    turns-on m' e = ap (following fd n p ps) e

    pub turns-end :
        poll fd remote m p ≡ (fd', none)
        → turns fd m n (p ∷ ps) ≡ (fd', none, unacked_after fd n p fd')
    turns-end e = ap (following fd n p ps) e

  -- What holds between the count and the heartbeats since the last ack.
  abbrev Counts : Monitor → ℕ → Type 0
  Counts m n =
      (m.count_lost_msgs < m.lost_msg_thresh)
      × (m.lost_msg_thresh < 256)
      × ((m.one_heartbeat_sent ≡ true) → m.count_lost_msgs + 1 ≤ n)
      × ((m.one_heartbeat_sent ≡ false) → m.count_lost_msgs ≡ 0)

  abbrev Counted : ℕ → Option Monitor → ℕ → Type 0
  Counted t none n = t ≤ n
  Counted t (some m) n = Counts m n × (m.lost_msg_thresh ≡ t)

  sent-Counts :
      (fd : Fd) (timeout : Bool) (m : Monitor) (n : ℕ) (p : Poll)
      → Clean p
      → m.count_lost_msgs < m.lost_msg_thresh
      → m.lost_msg_thresh < 256
      → m.count_lost_msgs ≤ n
      → let r = send_heartbeat fd remote timeout m p in
        Counted m.lost_msg_thresh r.1 (n + (length r.0.heartbeats - length fd.heartbeats))
  unfolding send_heartbeat
  sent-Counts fd timeout m n p (e, w) low byte sent =
      let message : HbeatMessage = record {
        epoch_nonce = fd.epoch_nonce;
        seq_num = fd.curr_seq_num;
      } in
      let one = length-append fd.heartbeats ((remote, message) ∷ []) in ground arith

  -- The rest of a turn, after the count: `waiting` if no heartbeat is due.
  after_read-Counted :
      (fd : Fd) (timeout ok : Bool) (m : Monitor) (n : ℕ) (p : Poll)
      → Clean p
      → m.lost_msg_thresh < 256
      → m.count_lost_msgs ≤ n
      → ((ok || timeout || not m.one_heartbeat_sent) ≡ false → m.count_lost_msgs + 1 ≤ n)
      → let r = after_read fd remote timeout ok m p in
        Counted m.lost_msg_thresh r.1 (n + (length r.0.heartbeats - length fd.heartbeats))
  unfolding after_read
  after_read-Counted fd timeout ok m n p clean byte sent waits =
      let low = sent-Counts fd timeout m n p clean in
      elim (Bool-cases (leb m.lost_msg_thresh m.count_lost_msgs)) [
        | inl past ↦ ground arith
        | inr below ↦ elim (Bool-cases (ok || timeout || not m.one_heartbeat_sent)) [
          | inl due ↦ ground arith
          | inr idle ↦ ground arith
        ]
      ]

  -- The count of a turn that fails on the way is taken back.
  same-Counts :
      (fd : Fd) (timeout : Bool) (m : Monitor) (n : ℕ)
      → Counts m n
      → Counted m.lost_msg_thresh
          (some (uncounted timeout (counted timeout m)))
          (n + (length fd.heartbeats - length fd.heartbeats))
  same-Counts fd true m n (low, byte, sent, fresh) =
      let back : ((m.count_lost_msgs + 1) % uint8_size + 255) % uint8_size ≡ m.count_lost_msgs =
        omega arith in
      ground arith
  same-Counts fd false m n (low, byte, sent, fresh) = ground arith

  unheard-Counted :
      (fd : Fd) (m : Monitor) (n : ℕ) (p : Poll)
      → Clean p
      → Counts m n
      → let timeout = timed_out fd remote m p in
        let r = after_read fd remote timeout false (counted timeout m) p in
        Counted m.lost_msg_thresh r.1 (n + (length r.0.heartbeats - length fd.heartbeats))
  unheard-Counted fd m n p clean (low, byte, sent, fresh) =
      elim (Bool-cases (timed_out fd remote m p)) [
        | inl late ↦
            let one : (m.count_lost_msgs + 1) % uint8_size ≡ m.count_lost_msgs + 1 = omega arith in
            let rest =
              after_read-Counted fd true false (counted true m) n p clean byte (ground arith)
                (λ h. absurd (ground arith)) in
            rw late rest
        | inr early ↦
            let rest =
              after_read-Counted fd false false m n p clean byte (ground arith) (ground arith) in
            rw early rest
      ]

  acked-Counted :
      (fd : Fd) (timeout : Bool) (mean : ℕ) (m : Monitor) (n : ℕ) (p : Poll)
      → Clean p
      → Counts m n
      → let heard = record fd { round_trip_times = insert remote mean fd.round_trip_times } in
        let r =
          after_read heard remote timeout true
            (record (counted timeout m) { count_lost_msgs = 0 })
            p in
        Counted m.lost_msg_thresh r.1 (0 + (length r.0.heartbeats - length fd.heartbeats))
  acked-Counted fd timeout mean m n p clean (low, byte, sent, fresh) =
      let heard = record fd { round_trip_times = insert remote mean fd.round_trip_times } in
      let reset = record m { count_lost_msgs = 0 } in
      let rest =
        after_read-Counted heard timeout true reset 0 p clean byte (omega arith)
          (λ h. absurd (ground arith)) in
      elim (Bool-cases timeout) [
        | inl late ↦ rw late (rw late at rest)
        | inr early ↦ rw early (rw early at rest)
      ]

  typed_poll-Counted :
      (fd : Fd) (m : Monitor) (n : ℕ) (p : Poll) (received : Received)
      → Clean p
      → Counts m n
      → let p' = record p { received = received } in
        let r = poll fd remote m p' in Counted m.lost_msg_thresh r.1 (unacked_after fd n p' r.0)
  unfolding poll
  typed_poll-Counted fd m n p nothing clean counts =
      let silent = record p { received = nothing } in
      let kept = same-Counts fd (timed_out fd remote m silent) m n counts in
      let read = unheard-Counted fd m n silent clean counts in ground arith
  typed_poll-Counted fd m n p garbled clean counts =
      let kept = same-Counts fd (timed_out fd remote m p) m n counts in ground arith
  typed_poll-Counted fd m n p (acked ack at) clean counts =
      let p' = record p { received = acked ack at } in
      let kept = same-Counts fd (timed_out fd remote m p) m n counts in
      let foreign = unheard-Counted fd m n p' clean counts in
      let own =
        acked-Counted fd (timed_out fd remote m p) (round_trip_mean fd remote m at) m n p' clean
          counts in
      elim (Bool-cases p.deadline_set) [
        | inl set ↦ elim (Bool-cases (ack.hbeat_epoch_nonce == fd.epoch_nonce)) [
          | inl ours ↦ ground arith
          | inr theirs ↦ ground arith
        ]
        | inr unset ↦ ground arith
      ]

  poll-Counted :
      (fd : Fd) (m : Monitor) (n : ℕ) (p : Poll)
      → Clean p
      → Counts m n
      → let r = poll fd remote m p in Counted m.lost_msg_thresh r.1 (unacked_after fd n p r.0)
  poll-Counted fd m n p clean counts = typed_poll-Counted fd m n p p.received clean counts

  turns-Counted :
      (ps : List Poll) (fd : Fd) (m : Monitor) (n t : ℕ)
      → All Clean ps
      → Counts m n
      → m.lost_msg_thresh ≡ t
      → let r = turns fd m n ps in r.1 ≡ none → t ≤ r.2
  turns-Counted [] fd m n t clean counts same h = absurd (ground arith)
  turns-Counted (p ∷ ps) fd m n t (c, clean) counts same h =
      let now = poll-Counted fd m n p c counts in
      let (fd', left) = poll fd remote m p in
      elim (Option-cases left) [
        | inl gone ↦ ground arith
        | inr (m', on) ↦
            let n' = unacked_after fd n p fd' in
            let now' : Counted m.lost_msg_thresh (some m') n' = ground arith in
            let later = turns-Counted ps fd' m' n' t clean now'.0 (now'.1 ∙ same) in ground arith
      ]

-- A monitor with one positive threshold below 256, whose turns all can encode and write a heartbeat,
-- notifies a failure only if, since the last ack of its epoch, it wrote as many heartbeats as its
-- threshold says.
pub turns-unacked :
    (remote : Bytes) (fd : Fd) (t : ℕ) (ps : List Poll)
    → 0 < t
    → t < 256
    → All Clean ps
    → (turns remote fd (new_monitor t) 0 ps).1 ≡ none
    → t ≤ (turns remote fd (new_monitor t) 0 ps).2
turns-unacked remote fd t ps positive byte clean =
    turns-Counted remote ps fd (new_monitor t) 0 t clean
      (positive, byte, (λ h. absurd (ground arith)), λ h. refl) refl
