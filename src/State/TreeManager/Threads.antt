-- ===== src/State/TreeManager/Threads.antt =====
-- miner/state/tree_manager.go, the goroutines: AddBlock and blockAdderHelper cut at each access of
-- the shared tree or queue, FindNodeThread, UpdateRootsThread, and the steps that any of them may
-- take next. One access is what the code does between taking a lock and giving it back.
pub mod Safe
pub mod Unharmed
pub mod Wakeup
pub mod Alone
pub mod Whole
use native.Mathlib.Decide.{ℕ_discrete}
use mathlib.Core.Logic.{ite}
use blockafile.Base.{
  ℕ, zero, suc, ◌+◌, ◌≡◌, Bool, true, false, Option, none, some, List, [], ◌∷◌, Bytes, bytes_eq,
  present, if◌then◌else◌,
}
use blockafile.Base.Result.{Result, ok, err}
use blockafile.Crypto.Block.{Block, BlockOp, parent_id}
use blockafile.Crypto.Block as Crypto
use blockafile.DataStruct.Queue.{Queue, enqueue, dequeue, is_in_queue}
use blockafile.State.Validator.{Config, JobSet}
use blockafile.State.BlockTree.{BlockChainTree, AddError, add, validate_block, block_tree_job_set}
use blockafile.State.TreeManager.{
  TreeManager, new_tree_manager, find_block, is_genesis_block, shutdown, trimmed, added,
  parent_in_queue, remove_nodes_starting_from,
}

-- What a goroutine has left to do. Each constructor but `ended` and `help` is an access of the
-- shared state, a signal or a call of the remote miners, and what follows takes its answer; `help`
-- is a call of `blockAdderHelper`. The signal of AddBlock follows `enqueue_block`.
pub data Task : Type 0 where
  ended : Task
  find_node : Bytes → (Bool → Task) → Task
  insert_block : Block → (Result AddError (Unit {0}) → Task) → Task
  look_for : Block → (Bool → Task) → Task
  look_for_parent : Block → (Bool → Task) → Task
  enqueue_block : Block → Task → Task
  notify : Task → Task
  clean : Block → Task → Task
  ask : Bytes → (Option Block → Task) → Task
  help : Block → (Bool → Task) → Task

-- Where FindNodeThread stands: at the head of its loop, taking blocks from the queue, between the
-- end of the queue and the `select`, in the `select`, or at its end.
pub data Finder : Type 0 where
  looping draining leaving waiting stopped : Finder

-- What the goroutines share. `lost` says that a signal was given up, for nobody received it, while
-- FindNodeThread was on its way from the empty queue to the `select`.
pub record World : Type 0 where
  pub manager : TreeManager
  pub finder : Finder
  pub lost : Bool

abbrev pub with_queue : World → Queue Block → World
with_queue w q = record w { manager = record w.manager { find_block_queue = q } }

abbrev pub with_tree : World → BlockChainTree → World
with_tree w tree = record w { manager = record w.manager { m_tree = tree } }

-- The `select` of AddBlock: the channel has no buffer, so that only a FindNodeThread that is in its
-- own `select` receives the signal; the `default` gives it up.
abbrev pub received : Finder → Finder
received waiting = looping
received f = f

abbrev pub is_leaving : Finder → Bool
is_leaving leaving = true
is_leaving _ = false

unfoldable pub notified : World → World
notified w = record w {
  manager = record w.manager { find_block_notify = w.manager.find_block_notify + 1 };
  finder = received w.finder;
  lost = (if is_leaving w.finder then true else w.lost);
}

-- The end of one access and what the goroutine does next, or a panic.
abbrev pub inserted :
    World
    → (Result AddError (Unit {0}) → Task)
    → Option (TreeManager × Result AddError (Unit {0}))
    → Option (World × Task)
inserted w k none = none
inserted w k (some (m, r)) = some (record w { manager = m }, k r)

abbrev pub swept : World → Task → Option (Queue Block) → Option (World × Task)
swept w t none = none
swept w t (some q) = some (with_queue w q, t)

-- The body of FindNodeThread, a step at a time: the block for which it starts a goroutine, if any.
abbrev pub taken : World → Option Block × Queue Block → World × Option Block
taken w (none, q) = (record (with_queue w q) { finder = leaving }, none)
taken w (some b, q) = (with_queue w q, some b)

unfoldable pub find_node_thread : World → World × Option Block
find_node_thread w = elim w.finder [
  | looping ↦
      (record w { finder = (if w.manager.shutdown_threads then stopped else draining) }, none)
  | draining ↦ taken w (dequeue w.manager.find_block_queue)
  | leaving ↦ (record w { finder = waiting }, none)
  | waiting ↦ (w, none)
  | stopped ↦ (w, none)
]

-- A round of `UpdateRootsThread` over the remote roots.
unfoldable pub roots_task : List Block → Task
roots_task [] = ended
roots_task (b ∷ roots) = help b (λ _. roots_task roots)

module _ (md5 : Bytes → Bytes) where
  -- `TreeManager.AddBlock`, then `k` with its error.
  unfoldable pub add_block_task : Block → (Result AddError (Unit {0}) → Task) → Task
  add_block_task b k = find_node (parent_id b) (λ has_parent.
      if has_parent
      then find_node (Crypto.id md5 b) (λ there. if there then k (ok tt) else insert_block b k)
      else if is_genesis_block b.block_type
      then insert_block b k
      else look_for b (λ in_queue. if in_queue then k (ok tt) else enqueue_block b (k (ok tt))))

  abbrev pub or_clean : Block → (Bool → Task) → Result AddError (Unit {0}) → Task
  or_clean b k (ok _) = k true
  or_clean b k (err _) = clean b (k false)

  -- `AddBlock`, and `removeNodesStartingFrom` on the block if it fails.
  abbrev pub add_or_clean_task : Block → (Bool → Task) → Task
  add_or_clean_task b k = add_block_task b (or_clean b k)

  -- The block that `GetRemoteBlock` found, added before `b`.
  abbrev pub then_add : Block → (Bool → Task) → Result AddError (Unit {0}) → Task
  then_add b k (ok _) = add_or_clean_task b k
  then_add b k (err _) = clean b (k false)

  abbrev pub add_missing : Block → (Bool → Task) → Bool → Task
  add_missing b k false = k false
  add_missing b k true = add_block_task b (λ _. k true)

  abbrev pub with_remote : Block → (Bool → Task) → Option Block → Task
  with_remote b k none = clean b (k false)
  with_remote b k (some block) = find_node (parent_id b) (λ has_parent.
      if has_parent then add_block_task block (then_add b k) else help block (add_missing b k))

  -- `blockAdderHelper`, then `k` with its answer.
  unfoldable pub block_adder_task : Block → (Bool → Task) → Task
  block_adder_task b k =
      if is_genesis_block b.block_type
      then add_or_clean_task b k
      else find_node (parent_id b) (λ has_parent.
        if has_parent
        then find_node (Crypto.id md5 b) (λ there. if there then k true else add_or_clean_task b k)
        else look_for_parent b (λ in_queue.
          if in_queue then add_or_clean_task b k else ask (parent_id b) (with_remote b k)))

  -- One step of a goroutine: `answer` is what the remote miners say if they are asked, and `none` a
  -- panic.
  unfoldable pub perform : World → Option Block → Task → Option (World × Task)
  perform w answer ended = some (w, ended)
  perform w answer (find_node i k) = some (w, k (present (find_block w.manager i)))
  perform w answer (insert_block b k) = inserted w k (added w.manager (add md5 w.manager.m_tree b))
  perform w answer (look_for b k) =
      let q = trimmed w.manager.find_block_queue in
      some (with_queue w q, k (is_in_queue (λ bl. bytes_eq (Crypto.id md5 bl) (Crypto.id md5 b)) q))
  perform w answer (look_for_parent b k) = some (w, k (parent_in_queue md5 w.manager b))
  perform w answer (enqueue_block b t) =
      some (with_queue w (enqueue b w.manager.find_block_queue), notify t)
  perform w answer (notify t) = some (notified w, t)
  perform w answer (clean b t) =
      swept w t (remove_nodes_starting_from md5 b w.manager.find_block_queue)
  perform w answer (ask i k) = some (w, k answer)
  perform w answer (help b k) = some (w, block_adder_task b k)

-- The goroutines have indices; one that is not running is `ended`.
pub record System : Type 0 where
  pub world : World
  pub tasks : ℕ → Task

abbrev pub update : (ℕ → Task) → ℕ → Task → ℕ → Task
update f i t j = ite (ℕ_discrete i j) t (f j)

-- `NewTreeManager` and `StartThreads`
abbrev pub init : Config → System
init cnf = record {
  world = record { manager = new_tree_manager cnf; finder = looping; lost = false };
  tasks = λ _. ended;
}

module _ (md5 : Bytes → Bytes) where
  -- A step of any goroutine, of FindNodeThread with or without a new goroutine, a call of AddBlock,
  -- a round of UpdateRootsThread, a call of ValidateBlock or ValidateJobSet, or ShutdownThreads.
  pub data Step (s : System) : System → Type 0 where
    act :
        (i : ℕ) (answer : Option Block) {w : World} {t : Task}
        → perform md5 s.world answer (s.tasks i) ≡ some (w, t)
        → Step s (record { world = w; tasks = update s.tasks i t })
    turn : {w : World} → find_node_thread s.world ≡ (w, none) → Step s (record s { world = w })
    spawn :
        (i : ℕ) {w : World} {b : Block}
        → s.tasks i ≡ ended
        → find_node_thread s.world ≡ (w, some b)
        → Step s (record { world = w; tasks = update s.tasks i (help b (λ _. ended)) })
    call :
        (i : ℕ) (b : Block)
        → s.tasks i ≡ ended
        → Step s (record s { tasks = update s.tasks i (add_block_task md5 b (λ _. ended)) })
    round :
        (i : ℕ) (roots : List Block)
        → s.tasks i ≡ ended
        → s.world.manager.shutdown_threads ≡ false
        → Step s (record s { tasks = update s.tasks i (roots_task roots) })
    check :
        (b : Block) {tree : BlockChainTree} {refused : Bool}
        → validate_block md5 s.world.manager.m_tree b ≡ some (tree, refused)
        → Step s (record s { world = with_tree s.world tree })
    check_jobs :
        (ops : List BlockOp) {tree : BlockChainTree} {job : JobSet}
        → block_tree_job_set s.world.manager.m_tree ops ≡ some (tree, job)
        → Step s (record s { world = with_tree s.world tree })
    close : Step s (record s { world = record s.world { manager = shutdown s.world.manager } })

  -- The systems that `n` steps lead to.
  pub data Runs (s : System) : ℕ → System → Type 0 where
    here : Runs s zero s
    later : {n : ℕ} {t u : System} → Runs s n t → Step t u → Runs s (suc n) u
