-- ===== src/Fdlib/Turn.antt =====
-- A turn of the goroutine `monitorNode`. Of what monitors share it uses the counter of sequence
-- numbers, once, in `GetAndInc`, which holds a lock; the socket, the round trip time and the entry
-- are its own. So a turn is one step here, at the moment of its `GetAndInc`, though another
-- monitor may take a number, and write, before the turn writes its heartbeat.
use blockafile.Base.{
  ℕ, ◌+◌, ◌-◌, ◌/◌, ◌%◌, Bool, true, false, not, ◌&&◌, ◌||◌, Option, none, some, [], ◌∷◌, ◌++◌,
  Bytes, leb, ltb, ◌==◌, if◌then◌else◌,
}
use blockafile.Base.Dict.{lookup, insert}
use blockafile.Fdlib.{AckMessage, Fd, HbeatMessage, Monitor, dropped, uint64_size, uint8_size}

-- What `Read` gives `monitorNode`: nothing (an error), bytes that are no ack, or an ack and the time
-- it came.
pub data Received : Type 0 where
  nothing garbled : Received
  acked : AckMessage → ℕ → Received

-- What the clock and the socket answer in a turn of `monitorNode`.
pub record Poll : Type 0 where
  pub started : ℕ
  pub deadline_set : Bool
  pub received : Received
  pub encoded : Bool
  pub written : Bool
  pub sent_at : ℕ

-- `roundTripTimes.Get`
abbrev pub round_trip_time : Fd → Bytes → ℕ
round_trip_time fd remote = elim (lookup remote fd.round_trip_times) [ none ↦ 0 | some d ↦ d ]

abbrev pub timed_out : Fd → Bytes → Monitor → Poll → Bool
timed_out fd remote m p =
    m.one_heartbeat_sent && ltb (round_trip_time fd remote) (p.started - m.last_heartbeat_sent_at)

-- `countLostMsgs++` and `countLostMsgs--`, in uint8.
abbrev pub counted : Bool → Monitor → Monitor
counted timeout m =
    if timeout then record m { count_lost_msgs = (m.count_lost_msgs + 1) % uint8_size } else m

abbrev pub uncounted : Bool → Monitor → Monitor
uncounted timeout m =
    if timeout then record m { count_lost_msgs = (m.count_lost_msgs + 255) % uint8_size } else m

-- `GetAndInc` and the write of the heartbeat.
unfoldable pub send_heartbeat : Fd → Bytes → Bool → Monitor → Poll → Fd × Option Monitor
send_heartbeat fd remote timeout m p =
    let seq_num = fd.curr_seq_num in
    let taken = record fd { curr_seq_num = (seq_num + 1) % uint64_size } in
    let message : HbeatMessage = record { epoch_nonce = fd.epoch_nonce; seq_num = seq_num } in
    if p.encoded && p.written
    then (
      record taken { heartbeats = fd.heartbeats ++ (remote, message) ∷ [] },
      some (record m { one_heartbeat_sent = true; last_heartbeat_sent_at = p.sent_at }),
    )
    else (taken, some (uncounted timeout m))

-- The notification of a failure, which ends the goroutine.
abbrev pub failed : Bytes → Fd → Fd
failed remote fd = dropped remote (record fd { notified = fd.notified ++ remote ∷ [] })

-- A turn after the read.
unfoldable pub after_read : Fd → Bytes → Bool → Bool → Monitor → Poll → Fd × Option Monitor
unfolding send_heartbeat
after_read fd remote timeout read_was_successful m p =
    if leb m.lost_msg_thresh m.count_lost_msgs
    then (failed remote fd, none)
    else if read_was_successful || timeout || not m.one_heartbeat_sent
    then send_heartbeat fd remote timeout m p
    else (fd, some m)

-- The default case of the loop of `monitorNode`; none is its return.
unfoldable pub poll : Fd → Bytes → Monitor → Poll → Fd × Option Monitor
unfolding after_read
poll fd remote m p =
    let timeout = timed_out fd remote m p in
    let counting = counted timeout m in
    if not p.deadline_set then (fd, some (uncounted timeout counting)) else elim p.received [
      | garbled ↦ (fd, some (uncounted timeout counting))
      | nothing ↦ after_read fd remote timeout false counting p
      | acked ack at ↦
          let mean = (round_trip_time fd remote + (at - m.last_heartbeat_sent_at)) / 2 in
          if ack.hbeat_epoch_nonce == fd.epoch_nonce
          then after_read (record fd { round_trip_times = insert remote mean fd.round_trip_times })
              remote timeout true (record counting { count_lost_msgs = 0 }) p
          else after_read fd remote timeout false counting p
    ]
