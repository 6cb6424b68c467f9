-- ===== src/State/TreeManager.antt =====
-- miner/state/tree_manager.go, `TreeManager`: the block tree, the queue of blocks without a parent
-- and the remote miners, `br`, as a parameter. The calls of one goroutine are one sequence of
-- steps. `none` is a panic of the tree, or fuel that ran out.
pub mod Invariant
pub mod Cleanup
pub mod Threads
use blockafile.Base.{
  ℕ, zero, suc, ◌+◌, ◌≡◌, Bool, true, false, Option, none, some, List, [], ◌∷◌, map, Bytes, ltb,
  bytes_eq, present, if◌then◌else◌,
}
use blockafile.Base.Int.{ℤ}
use blockafile.Base.Result.{Result, ok, err}
use blockafile.Crypto.Block.{
  Block, BlockOp, BlockType, genesis_block, regular_block, no_op_block, parent_id,
}
use blockafile.Crypto.Block as Crypto
use blockafile.DataStruct.Queue.{Queue, empty, enqueue, clear, is_in_queue, len, del, matched}
use blockafile.DataStruct.MRootTree.{Node, MRootTree, find, deref, get_roots, get_longest_chain}
use blockafile.State.Validator.{Config, JobSet}
use blockafile.State.BlockTree.{
  BlockChainTree, AddError, new_block_tree, add, in_longest_chain, validate_block,
  block_tree_job_set,
}

-- `find_block_notify` counts the signals offered to the channel, `shutdown_threads` is the flag.
pub record TreeManager : Type 0 where
  pub m_tree : BlockChainTree
  pub find_block_queue : Queue Block
  pub find_block_notify : ℕ
  pub shutdown_threads : Bool

-- `NewTreeManager`
abbrev pub new_tree_manager : Config → TreeManager
new_tree_manager cnf = record {
  m_tree = new_block_tree cnf;
  find_block_queue = empty;
  find_block_notify = 0;
  shutdown_threads = false;
}

-- `MAX_ELEM_INQUEUE`
abbrev pub max_elem_inqueue : ℕ
max_elem_inqueue = 100

-- `BlockChainTree.Find`
abbrev pub find_block : TreeManager → Bytes → Option (Node Block)
find_block t i = find t.m_tree.m_tree i

-- `TreeManager.GetBlock`
abbrev pub get_block : TreeManager → Bytes → Option Block
get_block t i = elim (find_block t i) [ none ↦ none | some v ↦ some v.value ]

abbrev pub is_genesis_block : BlockType → Bool
is_genesis_block genesis_block = true
is_genesis_block regular_block = false
is_genesis_block no_op_block = false

-- `ShutdownThreads` and the first line of `StartThreads`
abbrev pub shutdown : TreeManager → TreeManager
shutdown t = record t { shutdown_threads = true }

abbrev pub start : TreeManager → TreeManager
start t = record t { shutdown_threads = false }

-- `TreeManager.GetHighestRoot`: `none` is the nil pointer of an empty tree.
abbrev pub get_highest_root : TreeManager → Option Block
get_highest_root t = elim (get_longest_chain t.m_tree.m_tree) [
  | none ↦ none
  | some n ↦ some n.value
]

-- The queue after `AddBlock`'s test of its length.
abbrev pub trimmed : Queue Block → Queue Block
trimmed q = if ltb max_elem_inqueue (len q) then clear q else q

abbrev pub added :
    TreeManager
    → Option (BlockChainTree × Result AddError (Node Block))
    → Option (TreeManager × Result AddError (Unit {0}))
added t none = none
added t (some (tree, err e)) = some (record t { m_tree = tree }, err e)
added t (some (tree, ok _)) = some (record t { m_tree = tree }, ok tt)

abbrev pub cleaned : TreeManager → Option (Queue Block) → Option (TreeManager × Bool)
cleaned t none = none
cleaned t (some q) = some (record t { find_block_queue = q }, false)

module _ (md5 : Bytes → Bytes) where
  -- `TreeManager.Exists`
  abbrev pub exists : TreeManager → Block → Bool
  exists t b = present (find_block t (Crypto.id md5 b))

  -- The last part of `AddBlock`: the block waits in the queue for its parent.
  unfoldable pub queue_block : TreeManager → Block → TreeManager
  queue_block t b =
      let q = trimmed t.find_block_queue in
      if is_in_queue (λ bl. bytes_eq (Crypto.id md5 bl) (Crypto.id md5 b)) q
      then record t { find_block_queue = q }
      else record t { find_block_queue = enqueue b q; find_block_notify = t.find_block_notify + 1 }

  -- `TreeManager.AddBlock`
  unfoldable pub add_block : TreeManager → Block → Option (TreeManager × Result AddError (Unit {0}))
  add_block t b =
      let inserted = added t (add md5 t.m_tree b) in
      if present (find_block t (Crypto.parent_id b))
      then (if present (find_block t (Crypto.id md5 b)) then some (t, ok tt) else inserted)
      else if is_genesis_block b.block_type
      then inserted
      else some (queue_block t b, ok tt)

  -- The `for` of `removeNodesStartingFrom`, on fuel. The closure moves `parentId` to the block that
  -- it deletes, so that the next search is for that block's children. The deletion itself stops at
  -- the first match, before the closure is called again.
  unfoldable pub remove_chain : ℕ → Bytes → Queue Block → Option (Queue Block)
  remove_chain zero parent q = none
  remove_chain (suc fuel) parent q =
      let eq = λ (bl : Block). bytes_eq (Crypto.parent_id bl) parent in
      let (found, q') = del eq q in
      let next = elim (matched eq q) as (λ _. Bytes) [
        | none ↦ parent
        | some bl ↦ Crypto.id md5 bl
      ] in
      let rest = remove_chain fuel next q' in if found then rest else some q

  -- `removeNodesStartingFrom`: each round but the last takes a block out of the queue.
  unfoldable pub remove_nodes_starting_from : Block → Queue Block → Option (Queue Block)
  remove_nodes_starting_from block q = remove_chain (len q + 1) (Crypto.id md5 block) q

  abbrev pub tidied : Block → TreeManager × Result AddError (Unit {0}) → Option (TreeManager × Bool)
  tidied b (t, ok _) = some (t, true)
  tidied b (t, err _) = cleaned t (remove_nodes_starting_from b t.find_block_queue)

  -- `AddBlock`, and `removeNodesStartingFrom` on the block if it fails: true if it does not.
  abbrev pub add_or_clean : TreeManager → Block → Option (TreeManager × Bool)
  add_or_clean t b = elim (add_block t b) [ none ↦ none | some a ↦ tidied b a ]

  abbrev pub parent_in_queue : TreeManager → Block → Bool
  parent_in_queue t b =
      is_in_queue (λ bl. bytes_eq (Crypto.id md5 bl) (Crypto.parent_id b)) t.find_block_queue

  -- What follows when the block that `GetRemoteBlock` found is added before `b`.
  abbrev pub both_added :
      Block → TreeManager × Result AddError (Unit {0}) → Option (TreeManager × Bool)
  both_added b (t, ok _) = add_or_clean t b
  both_added b (t, err _) = cleaned t (remove_nodes_starting_from b t.find_block_queue)

  -- The block that `GetRemoteBlock` found, then `b` itself, if the parent is in the tree by now.
  abbrev pub add_both : TreeManager → Block → Block → Option (TreeManager × Bool)
  add_both t block b = elim (add_block t block) [ none ↦ none | some a ↦ both_added b a ]

  -- `t.AddBlock(b)`, its error ignored, after the parent was added.
  abbrev pub add_after : Block → Option (TreeManager × Bool) → Option (TreeManager × Bool)
  add_after b none = none
  add_after b (some (t, false)) = some (t, false)
  add_after b (some (t, true)) = elim (add_block t b) [
    | none ↦ none
    | some (t', _) ↦ some (t', true)
  ]

  module _ (get_remote_block : Bytes → Option Block) where
    -- `blockAdderHelper`, on fuel: one unit for each ancestor that is asked of the remote miners,
    -- who may know an endless chain of them.
    unfoldable pub block_adder_helper : ℕ → TreeManager → Block → Option (TreeManager × Bool)
    block_adder_helper zero t b = none
    block_adder_helper (suc fuel) t b =
        let remote =
          elim (get_remote_block (Crypto.parent_id b)) as (λ _. Option (TreeManager × Bool)) [
            | none ↦ cleaned t (remove_nodes_starting_from b t.find_block_queue)
            | some block ↦
                let deeper = add_after b (block_adder_helper fuel t block) in
                if present (find_block t (Crypto.parent_id b)) then add_both t block b else deeper
          ] in
        let direct = add_or_clean t b in
        if is_genesis_block b.block_type
        then direct
        else if present (find_block t (Crypto.parent_id b))
        then (if present (find_block t (Crypto.id md5 b)) then some (t, true) else direct)
        else if parent_in_queue t b
        then direct
        else remote

    -- One round of `UpdateRootsThread`: the helper on each remote root, its answer ignored.
    unfoldable pub update_roots : ℕ → TreeManager → List Block → Option TreeManager
    unfolding block_adder_helper
    update_roots fuel t [] = some t
    update_roots fuel t (block ∷ roots) = elim (block_adder_helper fuel t block) [
      | none ↦ none
      | some (t', _) ↦ update_roots fuel t' roots
    ]
