-- ===== src/State/TreeManager/Invariant.antt =====
-- `AddBlock` keeps the tree well-formed, and a block it takes is in the tree or in the queue.
use blockafile.Base.{
  suc, ◌<◌, ◌≡◌, refl, subst, ap, ◌∙◌, Option-cases, ◌⊎◌, inl, inr, Bool, true, Option, none, some,
  List, [], ◌∷◌, ◌++◌, Bytes, arith, present, Bool-cases, bytes_eq, bytes_eq_refl,
}
use blockafile.Base.Result.{Result, ok, err}
use blockafile.Crypto.Block.{Block, BlockType, parent_id}
use blockafile.Crypto.Block as Crypto
use blockafile.DataStruct.Queue.{Queue, any_in, is_in_queue, enqueue}
use blockafile.DataStruct.MRootTree.{Node, uint64_size}
use blockafile.DataStruct.MRootTree.WellFormed.{IsWellFormed}
use blockafile.State.BlockTree.{BlockChainTree, AddError, add}
use blockafile.State.BlockTree.Add.{add-Added, add-Added_of}
use blockafile.State.TreeManager.{
  TreeManager, find_block, exists, is_genesis_block, trimmed, queue_block, added, add_block,
}

any_in-push :
    {A : Type 0} (eq : A → Bool) (x : A) (arr : List A)
    → eq x ≡ true
    → any_in eq (arr ++ x ∷ []) ≡ true
unfolding any_in
any_in-push eq x [] h = rw h refl
any_in-push eq x (y ∷ arr) h = elim (Bool-cases (eq y)) [
  | inl e ↦ rw e refl
  | inr e ↦ rw e (any_in-push eq x arr h)
]

is_in_queue-enqueue :
    {A : Type 0} (eq : A → Bool) (x : A) (q : Queue A)
    → eq x ≡ true
    → is_in_queue eq (enqueue x q) ≡ true
unfolding is_in_queue enqueue
is_in_queue-enqueue eq x q h = elim (Bool-cases (any_in eq q.dequeued)) [
  | inl e ↦ rw e refl
  | inr e ↦ rw e (any_in-push eq x q.enqueued h)
]

module _ (md5 : Bytes → Bytes) where
  abbrev pub waits : TreeManager → Block → Bool
  waits t b = is_in_queue (λ bl. bytes_eq (Crypto.id md5 bl) (Crypto.id md5 b)) t.find_block_queue

  -- What `AddBlock` has done with a block: an error leaves the tree and the queue; without one the
  -- block is in the tree, or its parent is not and the block is in the queue.
  abbrev pub Settled : TreeManager → Block → TreeManager × Result AddError (Unit {0}) → Type 0
  Settled t b (t', err e) =
      (t'.m_tree.m_tree ≡ t.m_tree.m_tree) × (t'.find_block_queue ≡ t.find_block_queue)
  Settled t b (t', ok _) =
      (exists md5 t' b ≡ true) ⊎ ((find_block t' (parent_id b) ≡ none) × (waits t' b ≡ true))

  queue_block-waits : (t : TreeManager) (b : Block) → waits (queue_block md5 t b) b ≡ true
  unfolding queue_block
  queue_block-waits t b =
      let eq = λ (bl : Block). bytes_eq (Crypto.id md5 bl) (Crypto.id md5 b) in
      elim (Bool-cases (is_in_queue eq (trimmed t.find_block_queue))) [
        | inl e ↦ ground arith
        | inr e ↦
            let q =
              is_in_queue-enqueue eq b (trimmed t.find_block_queue)
                (bytes_eq_refl (Crypto.id md5 b)) in
            ground arith
      ]

  queue_block-tree : (t : TreeManager) (b : Block) → (queue_block md5 t b).m_tree ≡ t.m_tree
  unfolding queue_block
  queue_block-tree t b = ground arith

  module _ (t : TreeManager) (b : Block) (w : IsWellFormed t.m_tree.m_tree)
      (room : suc t.m_tree.m_tree.height < uint64_size) where
    added-Settled :
        (o : Option (BlockChainTree × Result AddError (Node Block)))
        → add md5 t.m_tree b ≡ o
        → (r : TreeManager × Result AddError (Unit {0})) → added t o ≡ some r
        → IsWellFormed r.0.m_tree.m_tree × Settled t b r
    added-Settled none e r h = cc
    added-Settled (some (tree, err v)) e r h =
        let (w', (_, _, same, _)) = add-Added_of md5 t.m_tree b w room (tree, err v) e in
        let is_r : (record t { m_tree = tree }, err v) ≡ r = cc in
        subst (λ x. IsWellFormed x.0.m_tree.m_tree × Settled t b x) is_r (w', (same, refl))
    added-Settled (some (tree, ok nd)) e r h =
        let (w', (_, found, _, _)) = add-Added_of md5 t.m_tree b w room (tree, ok nd) e in
        let is_r : (record t { m_tree = tree }, ok tt) ≡ r = cc in
        subst (λ x. IsWellFormed x.0.m_tree.m_tree × Settled t b x) is_r (w', inl (rw found refl))

    pub added_returns :
        (a : BlockChainTree × Result AddError (Node Block))
        → (r : TreeManager × Result AddError (Unit {0})) × (added t (some a) ≡ some r)
    added_returns (tree, err e) = (_, refl)
    added_returns (tree, ok nd) = (_, refl)

    add_block_returns :
        (r : TreeManager × Result AddError (Unit {0})) × (add_block md5 t b ≡ some r)
    unfolding add_block
    add_block_returns =
        let (a, e, _, _) = add-Added md5 t.m_tree b w room in
        let (r, back) = added_returns a in
        let inserted : added t (add md5 t.m_tree b) ≡ some r = ap (added t) e ∙ back in
        elim (Option-cases (add_block md5 t b)) [
          | inl nothing ↦ absurd (ground arith)
          | inr there ↦ there
        ]

    -- What `AddBlock` does when it returns.
    pub add_block-Settled_of :
        (r : TreeManager × Result AddError (Unit {0}))
        → add_block md5 t b ≡ some r
        → IsWellFormed r.0.m_tree.m_tree × Settled t b r
    unfolding add_block
    add_block-Settled_of r h = elim (Bool-cases (present (find_block t (parent_id b)))) [
      | inl has ↦ elim (Bool-cases (present (find_block t (Crypto.id md5 b)))) [
        | inl there ↦
            let is_r : (t, ok tt) ≡ r = ground arith in
            subst (λ x. IsWellFormed x.0.m_tree.m_tree × Settled t b x) is_r (w, inl there)
        | inr fresh ↦ added-Settled _ refl r (ground arith)
      ]
      | inr orphan ↦ elim (Bool-cases (is_genesis_block b.block_type)) [
        | inl first ↦ added-Settled _ refl r (ground arith)
        | inr other ↦
            let is_r : (queue_block md5 t b, ok tt) ≡ r = ground arith in
            let same = queue_block-tree t b in
            let no_parent : find_block t (parent_id b) ≡ none = ground arith in
            subst (λ x. IsWellFormed x.0.m_tree.m_tree × Settled t b x) is_r
              (rw same w, inr (rw same no_parent, queue_block-waits t b))
      ]
    ]

    -- In a well-formed tree whose height has room for one more block, AddBlock returns and keeps the
    -- tree well-formed. If it returns an error, the tree and the queue are as they were;
    -- otherwise the block is in the tree, or its parent is not in the tree and the block is in the
    -- queue.
    pub add_block-Settled :
        (r : TreeManager × Result AddError (Unit {0})) × (add_block md5 t b ≡ some r)
        × IsWellFormed r.0.m_tree.m_tree
        × Settled t b r
    add_block-Settled =
        let (r, back) = add_block_returns in
        let (kept, what) = add_block-Settled_of r back in (r, back, kept, what)
