-- ===== src/State/TreeManager/Threads/Wakeup.antt =====
-- FindNodeThread and the signals: when a block waits in the queue, and who will wake the thread.
use blockafile.Base.{ℕ, ◌≡◌, ◌⊎◌, Bool, true, false, Option, List, []}
use blockafile.Base.Result.{Result}
use blockafile.Crypto.Block.{Block}
use blockafile.DataStruct.Queue.{Queue, contents}
use blockafile.State.TreeManager.Threads.{Task, notify, Finder, leaving, waiting, World}

-- FindNodeThread is done with the queue until it is woken.
abbrev pub has_left : Finder → Bool
has_left leaving = true
has_left waiting = true
has_left _ = false

abbrev pub waiting_blocks : World → List Block
waiting_blocks w = contents w.manager.find_block_queue

abbrev pub is_notify : Task → Bool
is_notify (notify _) = true
is_notify _ = false

-- Some goroutine is about to send a signal.
abbrev pub Signals : (ℕ → Task) → Type 0
Signals tasks = (i : ℕ) × (is_notify (tasks i) ≡ true)

-- Unless a signal was lost, FindNodeThread leaves no block behind that nobody will signal.
abbrev pub Covered : World → (ℕ → Task) → Type 0
Covered w tasks =
    w.lost ≡ false → has_left w.finder ≡ true → (waiting_blocks w ≡ []) ⊎ Signals tasks

-- From `w` to `w'` FindNodeThread has not moved, no signal was lost and no block came.
abbrev Quiet : World → World → Type 0
Quiet w w' =
    (w'.lost ≡ w.lost) × (w'.finder ≡ w.finder) × (waiting_blocks w ≡ [] → waiting_blocks w' ≡ [])
