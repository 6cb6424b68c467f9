-- ===== src/State/TreeManager/Threads/Whole.antt =====
-- blockAdderHelper and a round of UpdateRootsThread, run with no step of another goroutine.
use blockafile.Base.{
  ℕ, zero, suc, ◌≡◌, refl, inl, inr, Bool, true, false, Bool-cases, Option, none, some, List, [],
  ◌∷◌, Bytes, arith, present, Option-cases,
}
use blockafile.Crypto.Block.{Block, parent_id}
use blockafile.Crypto.Block as Crypto
use blockafile.State.TreeManager.{
  TreeManager, find_block, is_genesis_block, add_block, parent_in_queue, add_after, cleaned,
  remove_nodes_starting_from, block_adder_helper, update_roots,
}
use blockafile.State.TreeManager.Threads.{
  Task, ended, ask, help, World, perform, add_missing, with_remote, block_adder_task, roots_task,
}
use blockafile.State.TreeManager.Threads.Alone.{
  Reaches, Reaches-here, Reaches-step, Reaches-trans, Reaches-result, clean-Reaches,
  add_block-Reaches, add_or_clean-Reaches,
}

module _ (md5 : Bytes → Bytes) (get_remote_block : Bytes → Option Block) where
  finish_missing :
      (v : World) (b : Block) (k : Bool → Task) (s r : TreeManager × Bool)
      → v.manager ≡ s.0
      → add_after md5 b (some s) ≡ some r
      → Reaches md5 get_remote_block v (add_missing md5 b k s.1) r.0 (k r.1)
  finish_missing v b k (t, false) r same h =
      Reaches-result md5 get_remote_block v (k false) k (t, false) r (ground arith)
        (Reaches-here md5 get_remote_block _ _ _ same)
  finish_missing v b k (t, true) r same h = elim (Option-cases (add_block md5 v.manager b)) [
    | inl e ↦ absurd (ground arith)
    | inr (a, e) ↦
        Reaches-result md5 get_remote_block v _ k (a.0, true) r (ground arith)
          (add_block-Reaches md5 get_remote_block v b (λ _. k true) a e)
  ]

  unknown-Reaches :
      (w : World) (b : Block) (k : Bool → Task) (r : TreeManager × Bool)
      → get_remote_block (parent_id b) ≡ none
      → cleaned w.manager (remove_nodes_starting_from md5 b w.manager.find_block_queue) ≡ some r
      → Reaches md5 get_remote_block w (ask (parent_id b) (with_remote md5 b k)) r.0 (k r.1)
  unfolding perform
  unknown-Reaches w b k r none_knows h =
      Reaches-step md5 get_remote_block w w _ _ _ _ refl
        (rw none_knows (clean-Reaches md5 get_remote_block w b k r h))

  -- The answer of `block_adder_helper` is that of the goroutine, for the given fuel.
  abbrev Agrees : ℕ → Type 0
  Agrees fuel =
      (w : World) (b : Block) (k : Bool → Task) (r : TreeManager × Bool)
      → block_adder_helper md5 get_remote_block fuel w.manager b ≡ some r
      → Reaches md5 get_remote_block w (block_adder_task md5 b k) r.0 (k r.1)

  deeper-Reaches :
      (fuel : ℕ)
      → Agrees fuel
      → (w : World) (block b : Block) (k : Bool → Task) (r : TreeManager × Bool)
      → add_after md5 b (block_adder_helper md5 get_remote_block fuel w.manager block) ≡ some r
      → Reaches md5 get_remote_block w (help block (add_missing md5 b k)) r.0 (k r.1)
  unfolding perform
  deeper-Reaches fuel agrees w block b k r h =
      elim (Option-cases (block_adder_helper md5 get_remote_block fuel w.manager block)) [
        | inl e ↦ absurd (ground arith)
        | inr (s, e) ↦ Reaches-step md5 get_remote_block w w _ _ _ _ refl (
            Reaches-trans md5 get_remote_block w _ _ _ _ _
              (agrees w block (add_missing md5 b k) s e)
              (λ v same. finish_missing v b k s r same (ground arith)))
      ]

  known-Reaches :
      (fuel : ℕ)
      → Agrees fuel
      → (w : World) (block b : Block) (k : Bool → Task) (r : TreeManager × Bool)
      → get_remote_block (parent_id b) ≡ some block
      → present (find_block w.manager (parent_id b)) ≡ false
      → add_after md5 b (block_adder_helper md5 get_remote_block fuel w.manager block) ≡ some r
      → Reaches md5 get_remote_block w (ask (parent_id b) (with_remote md5 b k)) r.0 (k r.1)
  unfolding perform
  known-Reaches fuel agrees w block b k r knows orphan h =
      Reaches-step md5 get_remote_block w w _ _ _ _ refl (
        rw knows (
          Reaches-step md5 get_remote_block w w _ _ _ _ refl
            (rw orphan (deeper-Reaches fuel agrees w block b k r h))))

  remote-Reaches :
      (fuel : ℕ)
      → Agrees fuel
      → (w : World) (b : Block) (k : Bool → Task) (r : TreeManager × Bool)
      → block_adder_helper md5 get_remote_block (suc fuel) w.manager b ≡ some r
      → is_genesis_block b.block_type ≡ false
      → present (find_block w.manager (parent_id b)) ≡ false
      → parent_in_queue md5 w.manager b ≡ false
      → Reaches md5 get_remote_block w (ask (parent_id b) (with_remote md5 b k)) r.0 (k r.1)
  unfolding block_adder_helper
  remote-Reaches fuel agrees w b k r h other orphan absent =
      elim (Option-cases (get_remote_block (parent_id b))) [
        | inl e ↦ unknown-Reaches w b k r e (ground arith)
        | inr (block, e) ↦ known-Reaches fuel agrees w block b k r e orphan (ground arith)
      ]

  -- The same for a call of blockAdderHelper, which goes on with its answer.
  pub block_adder_helper-Reaches : (fuel : ℕ) → Agrees fuel
  unfolding block_adder_helper block_adder_task perform
  block_adder_helper-Reaches zero w b k r h = cc
  block_adder_helper-Reaches (suc fuel) w b k r h =
      elim (Bool-cases (is_genesis_block b.block_type)) [
        | inl first ↦ rw first (add_or_clean-Reaches md5 get_remote_block w b k r (ground arith))
        | inr other ↦ rw other (
            Reaches-step md5 get_remote_block w w _ _ _ _ refl
              (elim (Bool-cases (present (find_block w.manager (parent_id b)))) [
                | inl has ↦ rw has (
                    Reaches-step md5 get_remote_block w w _ _ _ _ refl
                      (elim (Bool-cases (present (find_block w.manager (Crypto.id md5 b)))) [
                        | inl there ↦ rw there (
                            Reaches-result md5 get_remote_block w _ k (w.manager, true) r
                              (ground arith) (Reaches-here md5 get_remote_block _ _ _ refl))
                        | inr fresh ↦
                            rw fresh
                              (add_or_clean-Reaches md5 get_remote_block w b k r (ground arith))
                      ]))
                | inr orphan ↦ rw orphan (
                    Reaches-step md5 get_remote_block w w _ _ _ _ refl
                      (elim (Bool-cases (parent_in_queue md5 w.manager b)) [
                        | inl held ↦
                            rw held
                              (add_or_clean-Reaches md5 get_remote_block w b k r (ground arith))
                        | inr absent ↦ rw absent (
                            remote-Reaches fuel (block_adder_helper-Reaches fuel) w b k r h other
                              orphan absent)
                      ]))
              ]))
      ]

  -- Let a round of UpdateRootsThread, as a sequence of operations on a tree manager, come to an end
  -- within its fuel. Then the goroutine cut at its accesses, with no step of another goroutine
  -- between them and the same answers of the remote miners, comes to the same tree manager and ends.
  pub update_roots-Reaches :
      (fuel : ℕ) (w : World) (roots : List Block) (t : TreeManager)
      → update_roots md5 get_remote_block fuel w.manager roots ≡ some t
      → Reaches md5 get_remote_block w (roots_task roots) t ended
  unfolding update_roots roots_task perform
  update_roots-Reaches fuel w [] t h = Reaches-here md5 get_remote_block _ _ _ (ground arith)
  update_roots-Reaches fuel w (b ∷ roots) t h =
      elim (Option-cases (block_adder_helper md5 get_remote_block fuel w.manager b)) [
        | inl e ↦ absurd (ground arith)
        | inr (s, e) ↦ Reaches-step md5 get_remote_block w w _ _ _ _ refl (
            Reaches-trans md5 get_remote_block w _ _ _ _ _
              (block_adder_helper-Reaches fuel w b (λ _. roots_task roots) s e)
              (λ v same. update_roots-Reaches fuel v roots t (rw same (ground arith))))
      ]
