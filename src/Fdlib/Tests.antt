-- ===== src/Fdlib/Tests.antt =====
-- A monitor of a node that does not answer, and of one that does.
use blockafile.Base.{
  ℕ, ◌+◌, ◌*◌, ◌≤◌, ◌≡◌, refl, true, false, none, [], ◌∷◌, Bytes, bytes_eq, codes, arith,
}
use blockafile.Base.Dict.{lookup}
use blockafile.Fdlib.{AckMessage, Monitor, Fd, new_monitor}
use blockafile.Fdlib.Turn.{Poll, nothing, acked, poll, after_read, send_heartbeat, timed_out}
use blockafile.Fdlib.Unacked.{turns, turns-unacked}
use blockafile.Fdlib.Silent.{rounds, Detected, silent-Detected, unwritten-Detected}

abbrev node : Bytes
node = codes "n"

abbrev fd : Fd
fd = record {
  epoch_nonce = 7;
  monitoring_nodes = (node, 2) ∷ [];
  running = (node, new_monitor 2) ∷ [];
  responding_on = [];
  curr_seq_num = 0;
  round_trip_times = (node, 5) ∷ [];
  heartbeats = [];
  notified = [];
}

-- Turn `i` starts at 10 i, and a heartbeat that it writes is written at 10 i + 1.
abbrev quiet : ℕ → Poll
quiet i = record {
  started = 10 * i;
  deadline_set = true;
  received = nothing;
  encoded = true;
  written = true;
  sent_at = 10 * i + 1;
}

-- Its round trip time is more than two turns.
abbrev patient : Fd
patient = record fd { round_trip_times = (node, 25) ∷ [] }

silent-Detected_example : Detected node [] (rounds node quiet 7 0 patient (new_monitor 2))
unfolding lookup bytes_eq
silent-Detected_example =
    silent-Detected node quiet (λ i. (refl, refl, refl, refl)) 25 2 (λ i. omega arith) patient 2
      refl (omega arith) (omega arith)

notified : (turns node fd (new_monitor 2) 0 (quiet 0 ∷ quiet 1 ∷ quiet 2 ∷ [])).1 ≡ none
unfolding poll after_read send_heartbeat lookup bytes_eq
notified = refl

turns-unacked_example : 2 ≤ (turns node fd (new_monitor 2) 0 (quiet 0 ∷ quiet 1 ∷ quiet 2 ∷ [])).2
turns-unacked_example =
    turns-unacked node fd 2 (quiet 0 ∷ quiet 1 ∷ quiet 2 ∷ []) (omega arith) (omega arith)
      ((refl, refl), ((refl, refl), ((refl, refl), tt))) notified

abbrev strict : Monitor
strict = record (new_monitor 1) { one_heartbeat_sent = true; last_heartbeat_sent_at = 1 }

abbrev ack : AckMessage
ack = record { hbeat_epoch_nonce = 7; hbeat_seq_num = 0 }

abbrev answered : Poll
answered = record (quiet 0) { started = 2; received = acked ack 4; written = false }

early : timed_out fd node strict answered ≡ false
unfolding lookup bytes_eq
early = refl

unwritten-Detected_example :
    let r = turns node fd strict 1 (answered ∷ quiet 1 ∷ []) in
    Detected node [] (r.0, r.1) × (r.2 ≡ 0)
unfolding lookup bytes_eq
unwritten-Detected_example =
    unwritten-Detected node fd strict answered ack 4 refl refl refl (quiet 1) 1 early refl refl refl
      (refl, refl, refl, refl) (omega arith)
