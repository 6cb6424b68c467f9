-- ===== src/State/BlockTree/Add.antt =====
-- `Add` keeps the tree well-formed; it adds the block, or refuses it and leaves the tree.
use blockafile.Base.{suc, ◌<◌, ◌≡◌, refl, ap, subst, ◌∙◌, Option, none, some, Bytes, arith, ◌++◌}
use blockafile.Base.Result.{Result, ok, err}
use blockafile.Crypto.Block.{Block, parent_id}
use blockafile.Crypto.Block as Crypto
use blockafile.DataStruct.MRootTree.{Node, MRootTree, find, uint64_size, prepend_element}
use blockafile.DataStruct.MRootTree.WellFormed.{IsWellFormed, PointsInto}
use blockafile.DataStruct.MRootTree.Prepend.{
  prepend_element-IsWellFormed, prepend_element-Prepends, Prepends,
}
use blockafile.State.Validator.{Validator, ValidateError, validate}
use blockafile.State.Validator.Accepts.{Accepts, validate-Accepts}
use blockafile.State.Validator.Returns.{validate_returns}
use blockafile.State.BlockTree.{
  BlockChainTree, AddError, rejected, prepended, validated, announced, add,
}

module _ (md5 : Bytes → Bytes) where
  -- What `Add` has done: a block that it refuses leaves the tree and the listener as they were; one
  -- that it adds had an id that was not in the tree, and is found under it now.
  abbrev pub Added : BlockChainTree → Block → BlockChainTree × Result AddError (Node Block) → Type 0
  Added b block (b', err e) =
      (v : ValidateError) × (e ≡ rejected v) × (b'.m_tree ≡ b.m_tree) × (b'.calls ≡ b.calls)
  Added b block (b', ok nd) =
      (find b.m_tree (Crypto.id md5 block) ≡ none)
      × (find b'.m_tree (Crypto.id md5 block) ≡ some nd)
      × (nd.value ≡ block)
      × (b'.calls ≡ b.calls ++ announced md5 b'.m_tree block)

  pub Accepts-PointsInto :
      (t : MRootTree Block) (bcv bcv' : Validator) (b : Block) (r : Option (Node Block))
      → IsWellFormed t
      → suc t.height < uint64_size
      → Accepts t md5 bcv b bcv' r
      → PointsInto t r
  Accepts-PointsInto t bcv bcv' b none w room a = tt
  Accepts-PointsInto t bcv bcv' b (some root) w room (found, _, _, _, _, _) =
      let key = w.keyed (parent_id b) root found in
      let low = w.highest (parent_id b) root found in
      (root, ap (find t) key ∙ found, refl, omega arith)

  pub prepended-tree :
      (b : BlockChainTree) (block : Block) (bcv : Validator)
      (r : Option (Node Block) × MRootTree Block)
      → (prepended md5 (record b { validator = bcv }) block r).0.m_tree ≡ r.1
  prepended-tree b block bcv (none, t) = refl
  prepended-tree b block bcv (some nd, t) = refl

  module _ (b : BlockChainTree) (block : Block) (w : IsWellFormed b.m_tree)
      (room : suc b.m_tree.height < uint64_size) where
    prepended-Added :
        (bcv : Validator) (root : Option (Node Block)) (r : Option (Node Block) × MRootTree Block)
        → find b.m_tree (Crypto.id md5 block) ≡ none
        → Prepends (Crypto.id md5) block root b.m_tree r
        → Added b block (prepended md5 (record b { validator = bcv }) block r)
    prepended-Added bcv root (none, t) fresh p = let there = p.clashed refl in absurd (ground arith)
    prepended-Added bcv root (some nd, t) fresh p =
        let (same, new, found) = p.added nd refl in (fresh, ground arith, ground arith, refl)

    by_verdict :
        (o : Option (Validator × Result ValidateError (Option (Node Block))))
        → validate b.m_tree md5 b.validator block ≡ o
        → (r : BlockChainTree × Result AddError (Node Block)) → validated md5 b block o ≡ some r
        → IsWellFormed r.0.m_tree × Added b block r
    by_verdict none e r h = cc
    by_verdict (some (bcv, err v)) e r h =
        let same : (record b { validator = bcv }, err (rejected v)) ≡ r = cc in
        subst (λ x. IsWellFormed x.0.m_tree × Added b block x) same (w, (v, refl, refl, refl))
    by_verdict (some (bcv, ok root)) e r h =
        let (fresh, a) = validate-Accepts b.m_tree md5 b.validator bcv block root e in
        let p = prepend_element (Crypto.id md5) block root b.m_tree in
        let same : prepended md5 (record b { validator = bcv }) block p ≡ r = cc in
        let points = Accepts-PointsInto b.m_tree b.validator bcv block root w room a in
        subst (λ x. IsWellFormed x.0.m_tree × Added b block x) same
          (
            rw (prepended-tree b block bcv p)
                (prepend_element-IsWellFormed (Crypto.id md5) block root b.m_tree w points),
            prepended-Added bcv root p fresh
                (prepend_element-Prepends (Crypto.id md5) block root b.m_tree),
          )

    -- What `Add` does when it returns.
    pub add-Added_of :
        (r : BlockChainTree × Result AddError (Node Block))
        → add md5 b block ≡ some r
        → IsWellFormed r.0.m_tree × Added b block r
    unfolding add
    add-Added_of r h = by_verdict _ refl r h

    validated_returns :
        (v : Validator × Result ValidateError (Option (Node Block)))
        → (r : BlockChainTree × Result AddError (Node Block)) × (validated md5 b block (some v)
            ≡ some r)
    validated_returns (bcv, err e) = (_, refl)
    validated_returns (bcv, ok root) = (_, refl)

    -- In a well-formed tree whose height has room for one more block, Add returns and keeps the
    -- tree well-formed. If it returns an error, that is the validator's, and the tree and the
    -- listener's calls are as they were; otherwise no node had the block's id, the block is found
    -- under its id now, and the listener has been called for it.
    pub add-Added :
        (r : BlockChainTree × Result AddError (Node Block)) × (add md5 b block ≡ some r)
        × IsWellFormed r.0.m_tree
        × Added b block r
    unfolding add
    add-Added =
        let (v, e) = validate_returns b.m_tree w room md5 b.validator block in
        let (r, back) = validated_returns v in
        let done = ap (validated md5 b block) e ∙ back in
        let (kept, what) = add-Added_of r done in (r, done, kept, what)
