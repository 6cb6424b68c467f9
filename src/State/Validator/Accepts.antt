-- ===== src/State/Validator/Accepts.antt =====
-- What `Validate` has found when it accepts a block.
use blockafile.Base.{
  ◌≡◌, refl, ◌⊎◌, inl, inr, true, Option, none, some, [], Bytes, arith, Option-cases,
}
use blockafile.Base.Result.{Result, ok, err}
use blockafile.Crypto.Block.{Block, BlockType, genesis_block, regular_block, no_op_block, parent_id}
use blockafile.Crypto.Block as Crypto
use blockafile.DataStruct.MRootTree.{Node, MRootTree, find, get_roots}
use blockafile.State.Validator.{
  Validator, HistoryError, refresh, validate, validate_on, after_refresh, validate_new_fs_state,
}

module _ (t : MRootTree Block) (md5 : Bytes → Bytes) where
  -- A first block of the tree, or a block whose hash has its zeros, on a parent in the tree, once
  -- the file scan over the parent's files has no error; the cached states are the block's then.
  abbrev pub Accepts : Validator → Block → Validator → Option (Node Block) → Type 0
  Accepts bcv b bcv' none = (b.block_type ≡ genesis_block) × (get_roots t ≡ []) × (bcv' ≡ bcv)
  Accepts bcv b bcv' (some root) =
      (find t (parent_id b) ≡ some root)
      × (Crypto.valid md5 b bcv.cnf.op_number_of_zeros bcv.cnf.no_op_number_of_zeros ≡ true)
      × (bcv'.generating_node_id ≡ Crypto.id md5 b)
      × (mid : Validator) × (refresh t bcv root ≡ some (mid, ok tt))
      × ((validate_new_fs_state t mid b).errors ≡ [])

  pub validate_on-ok :
      (bcv bcv' : Validator) (root : Node Block) (b : Block) (r : Option (Node Block))
      → validate_on t md5 bcv root b ≡ some (bcv', ok r)
      → (r ≡ some root)
        × (bcv'.generating_node_id ≡ Crypto.id md5 b)
        × ((validate_new_fs_state t bcv b).errors ≡ [])
  unfolding validate_on
  validate_on-ok bcv bcv' root b r h = ground arith

  pub validate-beside :
      (bcv bcv' : Validator) (b : Block) (r : Option (Node Block))
      → (b.block_type ≡ regular_block) ⊎ (b.block_type ≡ no_op_block)
      → validate t md5 bcv b ≡ some (bcv', ok r)
      → (find t (Crypto.id md5 b) ≡ none)
        × (Crypto.valid md5 b bcv.cnf.op_number_of_zeros bcv.cnf.no_op_number_of_zeros ≡ true)
        × (root : Node Block) × (find t (parent_id b) ≡ some root)
        × (after_refresh t md5 root b (refresh t bcv root) ≡ some (bcv', ok r))
  unfolding validate
  validate-beside bcv bcv' b r ty h = elim (Option-cases (find t (parent_id b))) [
    | inl e ↦ absurd (ground arith)
    | inr (root, e) ↦ (ground arith, ground arith, root, e, ground arith)
  ]

  pub after_refresh-ok :
      (bcv bcv' : Validator) (root : Node Block) (b : Block) (r : Option (Node Block))
      (o : Option (Validator × Result HistoryError (Unit {0})))
      → after_refresh t md5 root b o ≡ some (bcv', ok r)
      → (mid : Validator) × (o ≡ some (mid, ok tt))
        × (validate_on t md5 mid root b ≡ some (bcv', ok r))
  after_refresh-ok bcv bcv' root b r none h = cc
  after_refresh-ok bcv bcv' root b r (some (mid, err e)) h = absurd (ground arith)
  after_refresh-ok bcv bcv' root b r (some (mid, ok tt)) h = (mid, refl, h)

  other-Accepts :
      (bcv bcv' : Validator) (b : Block) (r : Option (Node Block))
      → (b.block_type ≡ regular_block) ⊎ (b.block_type ≡ no_op_block)
      → validate t md5 bcv b ≡ some (bcv', ok r)
      → (find t (Crypto.id md5 b) ≡ none) × Accepts bcv b bcv' r
  other-Accepts bcv bcv' b r ty h =
      let (fresh, hash_ok, root, found, h') = validate-beside bcv bcv' b r ty h in
      let (mid, ready, h'') = after_refresh-ok bcv bcv' root b r _ h' in
      let (same, gen, clean) = validate_on-ok mid bcv' root b r h'' in
      (fresh, rw same (found, hash_ok, gen, mid, ready, clean))

  genesis-Accepts :
      (bcv bcv' : Validator) (b : Block) (r : Option (Node Block))
      → b.block_type ≡ genesis_block
      → validate t md5 bcv b ≡ some (bcv', ok r)
      → (find t (Crypto.id md5 b) ≡ none) × Accepts bcv b bcv' r
  unfolding validate
  genesis-Accepts bcv bcv' b r ty h =
      let same : (r ≡ none) × (bcv' ≡ bcv) = ground arith in
      (ground arith, rw (same.0) (ty, ground arith, same.1))

  -- If Validate accepts a block, no node of the tree has the block's id. If it returns no parent,
  -- the block is a genesis block, the tree has no root and the cached states stay; if it returns a
  -- parent, that is the node with the block's parent id, the block's hash is valid for its type,
  -- the file scan over the files before the block has no error, and the cached states are labelled
  -- with the block's id.
  pub validate-Accepts :
      (bcv bcv' : Validator) (b : Block) (r : Option (Node Block))
      → validate t md5 bcv b ≡ some (bcv', ok r)
      → (find t (Crypto.id md5 b) ≡ none) × Accepts bcv b bcv' r
  validate-Accepts bcv bcv' b r h = by_kind b.block_type refl
    where
      by_kind :
          (ty : BlockType)
          → b.block_type ≡ ty
          → (find t (Crypto.id md5 b) ≡ none) × Accepts bcv b bcv' r
      by_kind genesis_block e = genesis-Accepts bcv bcv' b r e h
      by_kind regular_block e = other-Accepts bcv bcv' b r (inl e) h
      by_kind no_op_block e = other-Accepts bcv bcv' b r (inr e) h
