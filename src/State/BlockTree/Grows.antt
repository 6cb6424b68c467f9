-- ===== src/State/BlockTree/Grows.antt =====
-- `Add` loses no node of the tree and makes it higher by at most one.
use blockafile.Base.{suc, ◌+◌, ◌≤◌, ◌<◌, ◌≡◌, refl, subst, Option, none, some, Bytes, arith}
use blockafile.Base.Result.{Result, ok, err}
use blockafile.Crypto.Block.{Block}
use blockafile.Crypto.Block as Crypto
use blockafile.DataStruct.MRootTree.{Node, MRootTree, find, uint64_size, prepend_element}
use blockafile.DataStruct.MRootTree.WellFormed.{IsWellFormed, Alike}
use blockafile.DataStruct.MRootTree.Prepend.{prepend_element-Prepends, prepend_element-height}
use blockafile.DataStruct.MRootTree.Named.{IsNamed, prepend_element-IsNamed}
use blockafile.State.Validator.{Validator, ValidateError, validate}
use blockafile.State.Validator.Accepts.{validate-Accepts}
use blockafile.State.BlockTree.{BlockChainTree, AddError, rejected, prepended, validated, add}
use blockafile.State.BlockTree.Add.{Accepts-PointsInto, prepended-tree}

module _ (md5 : Bytes → Bytes) where
  -- Every node of `t` is in `t'`, with its id, height, child and block, `t'` is higher by at most
  -- one, and if the nodes of `t` stand under the ids of their blocks, so do those of `t'`.
  abbrev pub Grown : MRootTree Block → MRootTree Block → Type 0
  Grown t t' =
      ((i : Bytes) (n : Node Block)
        → find t i ≡ some n
        → (n' : Node Block) × (find t' i ≡ some n') × Alike n' n)
      × (t'.height ≤ t.height + 1)
      × (IsNamed (Crypto.id md5) t → IsNamed (Crypto.id md5) t')

  pub Grown-refl : (t : MRootTree Block) → Grown t t
  Grown-refl t = (λ i n h. (n, h, (refl, refl, refl, refl)), omega arith, λ named. named)

  module _ (b : BlockChainTree) (block : Block) (w : IsWellFormed b.m_tree)
      (room : suc b.m_tree.height < uint64_size) where
    by_verdict :
        (o : Option (Validator × Result ValidateError (Option (Node Block))))
        → validate b.m_tree md5 b.validator block ≡ o
        → (r : BlockChainTree × Result AddError (Node Block)) → validated md5 b block o ≡ some r
        → Grown b.m_tree r.0.m_tree
    by_verdict none e r h = cc
    by_verdict (some (bcv, err v)) e r h =
        let same : (record b { validator = bcv }, err (rejected v)) ≡ r = cc in
        subst (λ x. Grown b.m_tree x.0.m_tree) same (Grown-refl b.m_tree)
    by_verdict (some (bcv, ok root)) e r h =
        let (_, a) = validate-Accepts b.m_tree md5 b.validator bcv block root e in
        let p = prepend_element (Crypto.id md5) block root b.m_tree in
        let same : prepended md5 (record b { validator = bcv }) block p ≡ r = cc in
        let points = Accepts-PointsInto md5 b.m_tree b.validator bcv block root w room a in
        let kept = prepend_element-Prepends (Crypto.id md5) block root b.m_tree in
        subst (λ x. Grown b.m_tree x.0.m_tree) same
          (rw (prepended-tree md5 b block bcv p) (
            kept.old_kept,
            prepend_element-height (Crypto.id md5) block root b.m_tree w points,
            prepend_element-IsNamed (Crypto.id md5) block root b.m_tree,
          ))

    -- What `Add` keeps of the tree when it returns.
    pub add-Grown :
        (r : BlockChainTree × Result AddError (Node Block))
        → add md5 b block ≡ some r
        → Grown b.m_tree r.0.m_tree
    unfolding add
    add-Grown r h = by_verdict _ refl r h
