-- ===== src/Fdlib/Numbers.antt =====
-- The sequence numbers over a turn of a monitor.
use blockafile.Base.{
  ℕ, ◌+◌, ◌-◌, ◌/◌, ◌%◌, ◌≤◌, ◌<◌, ◌≡◌, refl, ap, inl, inr, Bool, true, false, not, ◌&&◌, ◌||◌,
  Option, none, some, List, [], ◌∷◌, ◌++◌, map, Bytes, arith, leb, ◌==◌, Bool-cases,
}
use blockafile.Base.Dict.{insert, erase}
use blockafile.Fdlib.{HbeatMessage, Monitor, Fd, uint64_size}
use blockafile.Fdlib.Turn.{
  Poll, Received, nothing, garbled, acked, poll, after_read, send_heartbeat, timed_out, counted,
  round_trip_time,
}

-- Strictly ascending numbers from `low` up to below `high`.
abbrev pub Ascends : ℕ → List ℕ → ℕ → Type 0
Ascends low [] high = low ≤ high
Ascends low (x ∷ xs) high = (low ≤ x) × Ascends (x + 1) xs high

Ascends-append :
    (low : ℕ) (xs : List ℕ) (high : ℕ)
    → Ascends low xs high
    → Ascends low (xs ++ high ∷ []) (high + 1)
Ascends-append low [] high h = (h, omega arith)
Ascends-append low (x ∷ xs) high (p, h) = (p, Ascends-append (x + 1) xs high h)

Ascends-later :
    (low : ℕ) (xs : List ℕ) (high high' : ℕ)
    → high ≤ high'
    → Ascends low xs high
    → Ascends low xs high'
Ascends-later low [] high high' more h = omega arith
Ascends-later low (x ∷ xs) high high' more (p, h) = (p, Ascends-later (x + 1) xs high high' more h)

abbrev pub seq_nums : Fd → List ℕ
seq_nums fd = map (λ h. h.1.seq_num) fd.heartbeats

abbrev pub IsNumbered : Fd → Type 0
IsNumbered fd = Ascends 0 (seq_nums fd) fd.curr_seq_num

-- What a turn does to the sequence numbers and to the nodes.
abbrev pub Turned : Fd → Bytes → Fd × Option Monitor → Type 0
Turned fd remote (fd', left) =
    IsNumbered fd' × (fd'.curr_seq_num ≤ fd.curr_seq_num + 1) × elim left [
      | none ↦
          (fd'.monitoring_nodes ≡ erase remote fd.monitoring_nodes)
          × (fd'.running ≡ erase remote fd.running)
      | some m ↦ (fd'.monitoring_nodes ≡ fd.monitoring_nodes) × (fd'.running ≡ fd.running)
    ]

map-append : {A B : Type 0} (f : A → B) (xs ys : List A) → map f (xs ++ ys) ≡ map f xs ++ map f ys
map-append f [] ys = refl
map-append f (x ∷ xs) ys = ap (λ zs. f x ∷ zs) (map-append f xs ys)

module _ (fd : Fd) (remote : Bytes) (numbered : IsNumbered fd)
    (room : fd.curr_seq_num + 1 < uint64_size) where
  send_heartbeat-Turned :
      (timeout : Bool) (m : Monitor) (p : Poll)
      → Turned fd remote (send_heartbeat fd remote timeout m p)
  unfolding send_heartbeat
  send_heartbeat-Turned timeout m p =
      let message : HbeatMessage = record {
        epoch_nonce = fd.epoch_nonce;
        seq_num = fd.curr_seq_num;
      } in
      let next : (fd.curr_seq_num + 1) % uint64_size ≡ fd.curr_seq_num + 1 = omega arith in
      let later =
        Ascends-later 0 (seq_nums fd) fd.curr_seq_num (fd.curr_seq_num + 1) (omega arith)
          numbered in
      let more : Ascends 0 (map (λ h. h.1.seq_num) (fd.heartbeats ++ (remote, message) ∷ []))
          (fd.curr_seq_num + 1) =
        rw
          (map-append (λ (h : Bytes × HbeatMessage). h.1.seq_num) fd.heartbeats
            ((remote, message) ∷ []))
          (Ascends-append 0 (seq_nums fd) fd.curr_seq_num numbered) in
      elim (Bool-cases (p.encoded && p.written)) [
        | inl done ↦ ground arith
        | inr lost ↦ ground arith
      ]

  after_read-Turned :
      (timeout heard : Bool) (m : Monitor) (p : Poll)
      → Turned fd remote (after_read fd remote timeout heard m p)
  unfolding after_read
  after_read-Turned timeout heard m p =
      let sent = send_heartbeat-Turned timeout m p in
      elim (Bool-cases (leb m.lost_msg_thresh m.count_lost_msgs)) [
        | inl past ↦ ground arith
        | inr low ↦ elim (Bool-cases (heard || timeout || not m.one_heartbeat_sent)) [
          | inl due ↦ ground arith
          | inr idle ↦ ground arith
        ]
      ]

typed_poll-Turned :
    (fd : Fd) (remote : Bytes) (m : Monitor) (p : Poll) (received : Received)
    → IsNumbered fd
    → fd.curr_seq_num + 1 < uint64_size
    → Turned fd remote (poll fd remote m (record p { received = received }))
unfolding poll
typed_poll-Turned fd remote m p nothing numbered room =
    let p' = record p { received = nothing } in
    let timeout = timed_out fd remote m p in
    let read = after_read-Turned fd remote numbered room timeout false (counted timeout m) p' in
    ground arith
typed_poll-Turned fd remote m p garbled numbered room = ground arith
typed_poll-Turned fd remote m p (acked ack at) numbered room =
    let p' = record p { received = acked ack at } in
    let timeout = timed_out fd remote m p in
    let foreign = after_read-Turned fd remote numbered room timeout false (counted timeout m) p' in
    let mean = (round_trip_time fd remote + (at - m.last_heartbeat_sent_at)) / 2 in
    let heard = record fd { round_trip_times = insert remote mean fd.round_trip_times } in
    let own =
      after_read-Turned heard remote numbered room timeout true
        (record (counted timeout m) { count_lost_msgs = 0 }) p' in
    elim (Bool-cases p.deadline_set) [
      | inl set ↦ elim (Bool-cases (ack.hbeat_epoch_nonce == fd.epoch_nonce)) [
        | inl ours ↦ ground arith
        | inr theirs ↦ ground arith
      ]
      | inr unset ↦ ground arith
    ]

pub poll-Turned :
    (fd : Fd) (remote : Bytes) (m : Monitor) (p : Poll)
    → IsNumbered fd
    → fd.curr_seq_num + 1 < uint64_size
    → Turned fd remote (poll fd remote m p)
poll-Turned fd remote m p = typed_poll-Turned fd remote m p p.received
