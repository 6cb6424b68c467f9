-- ===== src/State/BlockTree.antt =====
-- miner/state/tree_manager.go, `BlockChainTree`: the tree of blocks behind its validator. Each
-- operation holds the lock from its first line to its last, so that it is one step here. The calls
-- of the listener run on goroutines of their own; they are logged in order. `none` is a panic.
pub mod Add
pub mod Depth
pub mod Grows
use blockafile.Base.{
  ℕ, zero, suc, ◌+◌, ◌≡◌, Bool, true, false, not, Option, none, some, List, [], ◌∷◌, ◌++◌, Bytes,
  bytes_eq, present, if◌then◌else◌,
}
use blockafile.Base.Int.{ℤ, pos, negsuc}
use blockafile.Base.Result.{Result, ok, err}
use blockafile.Crypto.Block.{Block, BlockOp}
use blockafile.Crypto.Block as Crypto
use blockafile.DataStruct.MRootTree.{
  Node, MRootTree, find, next, get_roots, get_longest_chain, prepend_element, new_tree,
}
use blockafile.State.Validator.{
  Config, Validator, ValidateError, JobSet, new_validator, validate, validate_job_set, head_id,
}

-- The calls of a `TreeChangeListener`.
pub data TreeEvent : Type 0 where
  on_new_block_in_tree on_new_block_in_longest_chain : Block → TreeEvent

pub record BlockChainTree : Type 0 where
  pub m_tree : MRootTree Block
  pub validator : Validator
  pub calls : List TreeEvent

-- The errors of `Add`: the validator's, or `PrependElement`'s.
pub data AddError : Type 0 where
  rejected : ValidateError → AddError
  id_clash : AddError

-- The tree of `NewTreeManager`
abbrev pub new_block_tree : Config → BlockChainTree
new_block_tree cnf = record { m_tree = new_tree; validator = new_validator cnf; calls = [] }

module _ (md5 : Bytes → Bytes) where
  -- The listener's calls of `Add` for a block that is now in the tree `t`.
  abbrev pub announced : MRootTree Block → Block → List TreeEvent
  announced t b =
      if bytes_eq (head_id t) (Crypto.id md5 b)
      then on_new_block_in_tree b ∷ on_new_block_in_longest_chain b ∷ []
      else on_new_block_in_tree b ∷ []

  abbrev pub prepended :
      BlockChainTree
      → Block
      → Option (Node Block) × MRootTree Block
      → BlockChainTree × Result AddError (Node Block)
  prepended b block (none, t) = (record b { m_tree = t }, err id_clash)
  prepended b block (some nd, t) =
      (record b { m_tree = t; calls = b.calls ++ announced t block }, ok nd)

  abbrev pub validated :
      BlockChainTree
      → Block
      → Option (Validator × Result ValidateError (Option (Node Block)))
      → Option (BlockChainTree × Result AddError (Node Block))
  validated b block none = none
  validated b block (some (bcv, err e)) = some (record b { validator = bcv }, err (rejected e))
  validated b block (some (bcv, ok root)) = some (
      prepended (record b { validator = bcv }) block
        (prepend_element (Crypto.id md5) block root b.m_tree))

  -- `BlockChainTree.Add`
  unfoldable pub add :
      BlockChainTree → Block → Option (BlockChainTree × Result AddError (Node Block))
  add b block = validated b block (validate b.m_tree md5 b.validator block)

  abbrev refused :
      BlockChainTree
      → Option (Validator × Result ValidateError (Option (Node Block)))
      → Option (BlockChainTree × Bool)
  refused b none = none
  refused b (some (bcv, err e)) = some (record b { validator = bcv }, true)
  refused b (some (bcv, ok root)) = some (record b { validator = bcv }, false)

  -- `BlockChainTree.ValidateBlock`: `err != nil`, so true says that the block is refused. The cached
  -- states move as they do in `Add`.
  unfoldable pub validate_block : BlockChainTree → Block → Option (BlockChainTree × Bool)
  validate_block b blk = refused b (validate b.m_tree md5 b.validator blk)

-- The `for` of `InLongestChain`, on fuel: `none` is fuel that ran out.
unfoldable pub depth_from : MRootTree Block → ℕ → Bytes → ℕ → Option (Node Block) → Option ℤ
depth_from t fuel i depth none = some (negsuc 0)
depth_from t zero i depth (some r) = none
depth_from t (suc fuel) i depth (some r) =
    let deeper = depth_from t fuel i (depth + 1) (next t r) in
    if bytes_eq r.id i then some (pos depth) else deeper

-- `BlockChainTree.InLongestChain`: the chain has one node more than the tree's height.
unfoldable pub in_longest_chain : BlockChainTree → Bytes → Option ℤ
unfolding depth_from
in_longest_chain b i = depth_from b.m_tree (b.m_tree.height + 1) i 0 (get_longest_chain b.m_tree)

-- `BlockChainTree.ValidateJobSet`; an empty tree has no longest chain, and its nil root is only
-- safe for an empty job.
unfoldable pub block_tree_job_set : BlockChainTree → List BlockOp → Option (BlockChainTree × JobSet)
block_tree_job_set b ops = elim (get_longest_chain b.m_tree) [
  | none ↦ elim ops [ [] ↦ some (b, ([], none, none)) | _ ∷ _ ↦ none ]
  | some root ↦ elim (validate_job_set b.m_tree b.validator ops root) [
    | none ↦ none
    | some (bcv, job) ↦ some (record b { validator = bcv }, job)
  ]
]
