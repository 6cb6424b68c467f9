-- ===== src/Fdlib/Run.antt =====
-- The failure detector as a sequence of calls and turns.
use blockafile.Base.{ℕ, Bool, Option, none, some, List, [], ◌∷◌, Bytes}
use blockafile.Base.Dict.{lookup, insert}
use blockafile.Base.Result.{Result, ok, err}
use blockafile.Fdlib.{
  Fd, FdError, Monitor, add_monitor, remove_monitor, start_responding, stop_monitoring,
  stop_responding,
}
use blockafile.Fdlib.Turn.{Poll, poll}

abbrev pub kept : Bytes → Fd × Option Monitor → Fd
kept remote (fd, none) = fd
kept remote (fd, some m) = record fd { running = insert remote m fd.running }

-- A turn of the goroutine that monitors `remote`, if there is one.
unfoldable pub monitor_node : Fd → Bytes → Poll → Fd
unfolding poll
monitor_node fd remote p = elim (lookup remote fd.running) [
  | none ↦ fd
  | some m ↦ kept remote (poll fd remote m p)
]

-- The calls of the library's user and the turns of its goroutines.
pub data FdEvent : Type 0 where
  started_responding : Bytes → Bool → FdEvent
  stopped_responding stopped_monitoring : FdEvent
  added_monitor : Bytes → ℕ → Bool → FdEvent
  removed_monitor : Bytes → FdEvent
  polled : Bytes → Poll → FdEvent

abbrev pub or_same : Fd → Result FdError Fd → Fd
or_same fd (ok fd') = fd'
or_same fd (err e) = fd

unfoldable pub step : Fd → FdEvent → Fd
unfolding start_responding stop_responding stop_monitoring add_monitor remove_monitor monitor_node
step fd (started_responding local_ip_port listens) =
    or_same fd (start_responding fd local_ip_port listens)
step fd stopped_responding = stop_responding fd
step fd stopped_monitoring = stop_monitoring fd
step fd (added_monitor remote thresh dials) = or_same fd (add_monitor fd remote thresh dials)
step fd (removed_monitor remote) = remove_monitor fd remote
step fd (polled remote p) = monitor_node fd remote p

unfoldable pub run : Fd → List FdEvent → Fd
unfolding step
run fd [] = fd
run fd (e ∷ es) = run (step fd e) es
