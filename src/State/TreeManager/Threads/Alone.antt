-- ===== src/State/TreeManager/Threads/Alone.antt =====
-- A goroutine that no other interrupts does what the operation does in one piece.
use blockafile.Base.{
  ◌≡◌, refl, ap, subst, inl, inr, Bool, true, false, Bool-cases, Option, none, some, Bytes, arith,
  present, bytes_eq, Option-cases, if◌then◌else◌,
}
use blockafile.Base.Result.{Result, ok, err}
use blockafile.Crypto.Block.{Block, parent_id}
use blockafile.Crypto.Block as Crypto
use blockafile.DataStruct.Queue.{is_in_queue}
use blockafile.State.BlockTree.{AddError, add}
use blockafile.State.TreeManager.{
  TreeManager, find_block, is_genesis_block, trimmed, queue_block, added, add_block, cleaned,
  remove_nodes_starting_from, add_or_clean, tidied, both_added, add_both,
}
use blockafile.State.TreeManager.Cleanup.{remove_nodes_starting_from-Cleaned}
use blockafile.State.TreeManager.Threads.{
  Task, insert_block, look_for, enqueue_block, clean, ask, World, perform, notified, inserted,
  swept, with_queue, add_block_task, or_clean, add_or_clean_task, then_add,
}

module _ (md5 : Bytes → Bytes) (get_remote_block : Bytes → Option Block) where
  -- What the remote miners say to a goroutine that asks them.
  abbrev pub answer : Task → Option Block
  answer (ask i k) = get_remote_block i
  answer _ = none

  -- The steps of one goroutine with none of another's between them.
  pub data Alone : World → Task → World → Task → Type 0 where
    here : {w : World} {t : Task} → Alone w t w t
    step :
        {w w' w'' : World} {t t' t'' : Task}
        → perform md5 w (answer t) t ≡ some (w', t')
        → Alone w' t' w'' t''
        → Alone w t w'' t''

  -- A goroutine alone comes from `t` to `u`, with the tree manager `m` at the end.
  abbrev pub Reaches : World → Task → TreeManager → Task → Type 0
  Reaches w t m u = (w' : World) × (w'.manager ≡ m) × Alone w t w' u

  pub Reaches-here : (w : World) (t : Task) (m : TreeManager) → w.manager ≡ m → Reaches w t m t
  Reaches-here w t m e = (w, e, here)

  pub Reaches-step :
      (w w' : World) (t t' u : Task) (m : TreeManager)
      → perform md5 w (answer t) t ≡ some (w', t')
      → Reaches w' t' m u
      → Reaches w t m u
  Reaches-step w w' t t' u m e (v, same, alone) = (v, same, step e alone)

  Alone-trans :
      {w w' w'' : World} {t t' t'' : Task}
      → Alone w t w' t'
      → Alone w' t' w'' t''
      → Alone w t w'' t''
  Alone-trans here b = b
  Alone-trans (step e a) b = step e (Alone-trans a b)

  pub Reaches-trans :
      (w : World) (t t' u : Task) (m m' : TreeManager)
      → Reaches w t m t'
      → ((v : World) → v.manager ≡ m → Reaches v t' m' u)
      → Reaches w t m' u
  Reaches-trans w t t' u m m' (v, same, alone) go =
      let (v', same', alone') = go v same in (v', same', Alone-trans alone alone')

  pub Reaches-result :
      {A : Type 0} (w : World) (t : Task) (k : A → Task) (r r' : TreeManager × A)
      → r ≡ r'
      → Reaches w t r.0 (k r.1)
      → Reaches w t r'.0 (k r'.1)
  Reaches-result w t k r r' e h = subst (λ x. Reaches w t x.0 (k x.1)) e h

  insert-Reaches :
      (w : World) (b : Block) (k : Result AddError (Unit {0}) → Task)
      (r : TreeManager × Result AddError (Unit {0}))
      → added w.manager (add md5 w.manager.m_tree b) ≡ some r
      → Reaches w (insert_block b k) r.0 (k r.1)
  unfolding perform
  insert-Reaches w b k r h =
      Reaches-step w (record w { manager = r.0 }) _ (k r.1) (k r.1) r.0 (ap (inserted w k) h)
        (Reaches-here _ _ _ refl)

  pub clean-Reaches :
      (w : World) (b : Block) (k : Bool → Task) (r : TreeManager × Bool)
      → cleaned w.manager (remove_nodes_starting_from md5 b w.manager.find_block_queue) ≡ some r
      → Reaches w (clean b (k false)) r.0 (k r.1)
  unfolding perform
  clean-Reaches w b k r h =
      let (q, e, _) = remove_nodes_starting_from-Cleaned md5 b w.manager.find_block_queue in
      let is_r : (record w.manager { find_block_queue = q }, false) ≡ r = ground arith in
      Reaches-result w (clean b (k false)) k _ r is_r (
        Reaches-step w (with_queue w q) _ (k false) (k false) _ (ap (swept w (k false)) e)
          (Reaches-here _ _ _ refl))

  queue-Reaches :
      (w : World) (b : Block) (k : Result AddError (Unit {0}) → Task)
      → Reaches w
          (look_for b (λ in_queue. if in_queue then k (ok tt) else enqueue_block b (k (ok tt))))
          (queue_block md5 w.manager b)
          (k (ok tt))
  unfolding perform queue_block notified
  queue-Reaches w b k =
      let q = trimmed w.manager.find_block_queue in
      let w' = with_queue w q in
      Reaches-step w w' _ _ _ _ refl
        (elim (Bool-cases (is_in_queue (λ bl. bytes_eq (Crypto.id md5 bl) (Crypto.id md5 b)) q)) [
          | inl held ↦ rw held (Reaches-here w' _ _ (ground arith))
          | inr new ↦ rw new (
              Reaches-step w' _ _ _ _ _ refl
                (Reaches-step _ _ _ _ _ _ refl (Reaches-here _ _ _ (ground arith))))
        ])

  -- AddBlock run alone.
  pub add_block-Reaches :
      (w : World) (b : Block) (k : Result AddError (Unit {0}) → Task)
      (r : TreeManager × Result AddError (Unit {0}))
      → add_block md5 w.manager b ≡ some r
      → Reaches w (add_block_task md5 b k) r.0 (k r.1)
  unfolding add_block add_block_task perform queue_block notified
  add_block-Reaches w b k r h =
      Reaches-step w w _ _ _ _ refl
        (elim (Bool-cases (present (find_block w.manager (parent_id b)))) [
          | inl has ↦ rw has (
              Reaches-step w w _ _ _ _ refl
                (elim (Bool-cases (present (find_block w.manager (Crypto.id md5 b)))) [
                  | inl there ↦ rw there (
                      Reaches-result w _ k (w.manager, ok tt) r (ground arith)
                        (Reaches-here _ _ _ refl))
                  | inr fresh ↦ rw fresh (insert-Reaches w b k r (ground arith))
                ]))
          | inr orphan ↦ rw orphan (elim (Bool-cases (is_genesis_block b.block_type)) [
            | inl first ↦ rw first (insert-Reaches w b k r (ground arith))
            | inr other ↦ rw other (Reaches-result w _ k _ r (ground arith) (queue-Reaches w b k))
          ])
        ])

  finish_or_clean :
      (v : World) (b : Block) (k : Bool → Task) (a : TreeManager × Result AddError (Unit {0}))
      (r : TreeManager × Bool)
      → v.manager ≡ a.0
      → tidied md5 b a ≡ some r
      → Reaches v (or_clean md5 b k a.1) r.0 (k r.1)
  finish_or_clean v b k (t, ok _) r same h =
      Reaches-result v (k true) k (t, true) r (ground arith) (Reaches-here _ _ _ same)
  finish_or_clean v b k (t, err _) r same h = clean-Reaches v b k r (rw same h)

  pub add_or_clean-Reaches :
      (w : World) (b : Block) (k : Bool → Task) (r : TreeManager × Bool)
      → add_or_clean md5 w.manager b ≡ some r
      → Reaches w (add_or_clean_task md5 b k) r.0 (k r.1)
  add_or_clean-Reaches w b k r h = elim (Option-cases (add_block md5 w.manager b)) [
    | inl e ↦ absurd (ground arith)
    | inr (a, e) ↦
        Reaches-trans w _ _ _ _ _ (add_block-Reaches w b (or_clean md5 b k) a e)
          (λ v same. finish_or_clean v b k a r same (ground arith))
  ]

  finish_add :
      (v : World) (b : Block) (k : Bool → Task) (a : TreeManager × Result AddError (Unit {0}))
      (r : TreeManager × Bool)
      → v.manager ≡ a.0
      → both_added md5 b a ≡ some r
      → Reaches v (then_add md5 b k a.1) r.0 (k r.1)
  finish_add v b k (t, ok _) r same h = add_or_clean-Reaches v b k r (rw same h)
  finish_add v b k (t, err _) r same h = clean-Reaches v b k r (rw same h)

  pub add_both-Reaches :
      (w : World) (block b : Block) (k : Bool → Task) (r : TreeManager × Bool)
      → add_both md5 w.manager block b ≡ some r
      → Reaches w (add_block_task md5 block (then_add md5 b k)) r.0 (k r.1)
  add_both-Reaches w block b k r h = elim (Option-cases (add_block md5 w.manager block)) [
    | inl e ↦ absurd (ground arith)
    | inr (a, e) ↦
        Reaches-trans w _ _ _ _ _ (add_block-Reaches w block (then_add md5 b k) a e)
          (λ v same. finish_add v b k a r same (ground arith))
  ]
