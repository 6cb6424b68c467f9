-- ===== src/Fdlib/Sound.antt =====
-- The sequence numbers and the nodes that are monitored, over any run of the library.
use blockafile.Base.{
  ℕ, ◌+◌, ◌≤◌, ◌<◌, ◌≡◌, refl, ◌↔◌, inl, inr, Bool, Option, none, some, List, [], ◌∷◌, Bytes,
  bytes_eq_iff, arith, length, Option-cases,
}
use blockafile.Base.Dict.{Dict, lookup, insert, erase, lookup-erase, lookup-insert}
use blockafile.Base.Result.{ok}
use blockafile.Fdlib.{
  Monitor, Fd, new_monitor, uint64_size, dropped, drop_all, updated, add_monitor, remove_monitor,
  stop_monitoring, start_responding, stop_responding, initialize_fd_lib,
}
use blockafile.Fdlib.Turn.{Poll, poll}
use blockafile.Fdlib.Run.{
  FdEvent, started_responding, stopped_responding, stopped_monitoring, added_monitor,
  removed_monitor, polled, monitor_node, kept, step, run, or_same,
}
use blockafile.Fdlib.Numbers.{IsNumbered, Turned, poll-Turned}

-- A node has an entry exactly if a goroutine monitors it.
abbrev pub IsMatched : Dict ℕ → Dict Monitor → Type 0
IsMatched nodes running = (k : Bytes) → (lookup k nodes ≡ none) ↔ (lookup k running ≡ none)

-- Entries made, and deleted, on both sides at once.
insert-IsMatched :
    (k : Bytes) (t : ℕ) (m : Monitor) (nodes : Dict ℕ) (running : Dict Monitor)
    → IsMatched nodes running
    → IsMatched (insert k t nodes) (insert k m running)
insert-IsMatched k t m nodes running h j =
    ground (arith, lookup-insert k j t nodes, lookup-insert k j m running, h j)

erase-IsMatched :
    (k : Bytes) (nodes : Dict ℕ) (running : Dict Monitor)
    → IsMatched nodes running
    → IsMatched (erase k nodes) (erase k running)
erase-IsMatched k nodes running h j =
    ground (arith, lookup-erase k j nodes, lookup-erase k j running, h j)

-- A monitor that is there is stored again.
insert-found-IsMatched :
    (k : Bytes) (m m' : Monitor) (nodes : Dict ℕ) (running : Dict Monitor)
    → lookup k running ≡ some m
    → IsMatched nodes running
    → IsMatched nodes (insert k m' running)
insert-found-IsMatched k m m' nodes running there h j =
    ground (arith, lookup-insert k j m' running, bytes_eq_iff k j, h j)

abbrev pub IsSound : Fd → Type 0
IsSound fd = IsNumbered fd × IsMatched fd.monitoring_nodes fd.running

-- A step keeps the library sound and takes at most one sequence number.
abbrev Stepped : Fd → Fd → Type 0
Stepped fd fd' = IsSound fd' × (fd'.curr_seq_num ≤ fd.curr_seq_num + 1)

drop_all-Stepped :
    (nodes : Dict ℕ) (fd : Fd)
    → IsSound fd
    → IsSound (drop_all nodes fd) × ((drop_all nodes fd).curr_seq_num ≡ fd.curr_seq_num)
drop_all-Stepped [] fd sound = (sound, refl)
drop_all-Stepped ((remote, t) ∷ nodes) fd (numbered, matched) =
    drop_all-Stepped nodes (dropped remote fd)
      (numbered, erase-IsMatched remote fd.monitoring_nodes fd.running matched)

kept-Stepped :
    (fd : Fd) (remote : Bytes) (m : Monitor) (r : Fd × Option Monitor)
    → lookup remote fd.running ≡ some m
    → IsSound fd
    → Turned fd remote r
    → Stepped fd (kept remote r)
kept-Stepped fd remote m (fd', none) there (numbered, matched) (n, one, (nodes, running)) =
    let erased = erase-IsMatched remote fd.monitoring_nodes fd.running matched in
    ((n, rw (nodes, running) erased), one)
kept-Stepped fd remote m (fd', some m') there (numbered, matched) (n, one, (nodes, running)) =
    let stored = insert-found-IsMatched remote m m' fd.monitoring_nodes fd.running there matched in
    ((n, rw (nodes, running) stored), one)

monitor_node-Stepped :
    (fd : Fd) (remote : Bytes) (p : Poll)
    → fd.curr_seq_num + 1 < uint64_size
    → IsSound fd
    → Stepped fd (monitor_node fd remote p)
unfolding monitor_node
monitor_node-Stepped fd remote p room sound = elim (Option-cases (lookup remote fd.running)) [
  | inl nothing_there ↦ rw (monitor_node, nothing_there) (sound, omega arith)
  | inr (m, there) ↦
      rw (monitor_node, there)
        (kept-Stepped fd remote m (poll fd remote m p) there sound
          (poll-Turned fd remote m p sound.0 room))
]

updated-IsMatched :
    (k : Bytes) (t : ℕ) (nodes : Dict ℕ) (running : Dict Monitor)
    → IsMatched nodes running
    → IsMatched nodes (updated k t running)
updated-IsMatched k t nodes running h = elim (Option-cases (lookup k running)) [
  | inl nothing_there ↦ rw (updated, nothing_there) h
  | inr (m, there) ↦
      rw (updated, there)
        (insert-found-IsMatched k m (record m { lost_msg_thresh = t }) nodes running there h)
]

add_monitor-Stepped :
    (fd : Fd) (remote : Bytes) (t : ℕ) (dials : Bool)
    → IsSound fd
    → Stepped fd (or_same fd (add_monitor fd remote t dials))
unfolding add_monitor
add_monitor-Stepped fd remote t dials sound =
    let same : Stepped fd fd = (sound, omega arith) in
    elim (Option-cases (lookup remote fd.monitoring_nodes)) [
      | inl fresh ↦
          let made =
            insert-IsMatched remote t (new_monitor t) fd.monitoring_nodes fd.running sound.1 in
          ground arith
      | inr (old, there) ↦
          let sent = updated-IsMatched remote t fd.monitoring_nodes fd.running sound.1 in
          ground arith
    ]

step-Stepped :
    (fd : Fd) (e : FdEvent)
    → fd.curr_seq_num + 1 < uint64_size
    → IsSound fd
    → Stepped fd (step fd e)
unfolding step start_responding stop_responding stop_monitoring remove_monitor
step-Stepped fd (started_responding addr listens) room sound = ground arith
step-Stepped fd stopped_responding room sound = (sound, omega arith)
step-Stepped fd stopped_monitoring room sound =
    let (kept_sound, same) = drop_all-Stepped fd.monitoring_nodes fd sound in
    (kept_sound, omega (arith, same))
step-Stepped fd (added_monitor remote t dials) room sound =
    add_monitor-Stepped fd remote t dials sound
step-Stepped fd (removed_monitor remote) room sound =
    let erased = erase-IsMatched remote fd.monitoring_nodes fd.running sound.1 in ground arith
step-Stepped fd (polled remote p) room sound = monitor_node-Stepped fd remote p room sound

run-IsSound :
    (es : List FdEvent) (fd : Fd)
    → fd.curr_seq_num + length es < uint64_size
    → IsSound fd
    → IsSound (run fd es)
unfolding run
run-IsSound [] fd room sound = sound
run-IsSound (e ∷ es) fd room sound =
    let (next, one) = step-Stepped fd e (omega (arith, room)) sound in
    run-IsSound es (step fd e) (omega (arith, room, one)) next

initialize_fd_lib-empty :
    (before : Option Fd) (ignore : Bool) (epoch_nonce : ℕ) (fd : Fd)
    → initialize_fd_lib before ignore epoch_nonce ≡ ok fd
    → (fd.curr_seq_num ≡ 0) × (fd.heartbeats ≡ []) × (fd.monitoring_nodes ≡ []) × (fd.running ≡ [])
unfolding initialize_fd_lib
initialize_fd_lib-empty before ignore epoch_nonce fd made = ground arith

-- From InitializeFDLib on, in any sequence of fewer than 2^64 calls and turns: the heartbeats that
-- were written, in the order in which their numbers were taken, have strictly ascending numbers,
-- and a node has an entry among the monitored nodes exactly if a goroutine monitors it.
pub initialize_fd_lib-IsSound :
    (before : Option Fd) (ignore : Bool) (epoch_nonce : ℕ) (fd : Fd)
    → initialize_fd_lib before ignore epoch_nonce ≡ ok fd
    → (es : List FdEvent) → length es < uint64_size
    → IsSound (run fd es)
unfolding lookup
initialize_fd_lib-IsSound before ignore epoch_nonce fd made es few =
    let (numbers, written, nodes, running) =
      initialize_fd_lib-empty before ignore epoch_nonce fd made in
    let numbered : IsNumbered fd = rw (written, numbers) (omega arith) in
    let matched : IsMatched fd.monitoring_nodes fd.running =
      rw (nodes, running) (λ k. ((λ h. refl), λ h. refl)) in
    run-IsSound es fd (omega (arith, few, numbers)) (numbered, matched)
