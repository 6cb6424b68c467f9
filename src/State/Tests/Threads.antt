-- ===== src/State/Tests/Threads.antt =====
-- Goroutines of a new tree manager: a block without a parent, and the signal for FindNodeThread.
use native.Mathlib.Decide.{ℕ_discrete}
use blockafile.Base.{ℕ, ◌≡◌, ◌≤◌, refl, true, Option, none, some, [], ◌∷◌, arith}
use blockafile.Base.Dict.{lookup}
use blockafile.Crypto.Block.{Block}
use blockafile.DataStruct.Queue.{any_in, dequeue, enqueue, is_in_queue, len, pop, push, transfer}
use blockafile.State.TreeManager.Threads.{
  Task, ended, World, System, Runs, act, turn, call, here, later, init, perform, find_node_thread,
  notified, waiting, add_block_task,
}
use blockafile.DataStruct.MRootTree.WellFormed.{IsWellFormed, new_tree-IsWellFormed}
use blockafile.DataStruct.MRootTree.Named.{IsNamed}
use blockafile.State.TreeManager.Threads.Safe.{tree_of}
use blockafile.State.TreeManager.Threads.Unharmed.{Stays, Runs-Safe}
use blockafile.State.TreeManager.Threads.Wakeup.{waiting_blocks}
use blockafile.State.Tests.{checksum, config, id_of}
use blockafile.State.Tests.Manager.{orphan}

abbrev started : System
started = init config

-- The block comes before FindNodeThread is in its `select`: the signal is lost, the thread sleeps,
-- and no goroutine is left to wake it.
asleep :
    (s : System) × Runs checksum started 8 s
    × (s.world.finder ≡ waiting)
    × (s.world.lost ≡ true)
    × (waiting_blocks s.world ≡ orphan ∷ [])
    × (s.tasks 0 ≡ ended)
unfolding perform find_node_thread dequeue pop transfer add_block_task lookup is_in_queue any_in len
    enqueue push notified ℕ_discrete
asleep = (
  _,
  later
      (later
        (later
          (later
            (later (later (later (later here (turn refl)) (turn refl)) (call 0 orphan refl))
              (act 0 none refl))
            (act 0 none refl))
          (act 0 none refl))
        (act 0 none refl))
      (turn refl),
  refl,
  refl,
  refl,
  refl,
)

Runs-Safe_example :
    IsWellFormed (tree_of asleep.0.world)
    × Stays (tree_of started.world) (tree_of asleep.0.world)
    × ((tree_of asleep.0.world).height ≤ 8)
    × (IsNamed id_of (tree_of started.world) → IsNamed id_of (tree_of asleep.0.world))
    × ((i : ℕ) (answer : Option Block)
        → (r : World × Task) × (perform checksum asleep.0.world answer (asleep.0.tasks i) ≡ some r))
Runs-Safe_example = Runs-Safe checksum new_tree-IsWellFormed (omega arith) asleep.1
