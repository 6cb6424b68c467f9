-- ===== src/Miner/Flood.antt =====
-- To whom a block is passed on.
use blockafile.Base.{
  suc, ◌<◌, ◌≡◌, refl, sym, subst, ◌⊎◌, inl, inr, true, false, none, some, List, [], ◌∷◌, map,
  Bytes, arith, present, Bool-cases, not, ◌&&◌, ap, bytes_eq, bytes_eq-true,
}
use blockafile.Base.Result.{Result, ok, err}
use blockafile.Crypto.Block.{Block, parent_id}
use blockafile.Crypto.Block as Crypto
use blockafile.DataStruct.MRootTree.{uint64_size}
use blockafile.DataStruct.MRootTree.WellFormed.{IsWellFormed}
use blockafile.State.BlockTree.{AddError}
use blockafile.State.TreeManager.{
  TreeManager, find_block, exists, is_genesis_block, queue_block, add_block,
}
use blockafile.State.TreeManager.Invariant.{Settled, waits, add_block-Settled}
use blockafile.Base.Dict.{Dict, lookup}
use blockafile.Miner.{MinerClient, MinerState, is_ignored, receivers, add_state_block}

is_ignored-same :
    (ignored : List Bytes) (k h : Bytes)
    → bytes_eq k h ≡ true
    → is_ignored ignored k ≡ is_ignored ignored h
is_ignored-same ignored k h e = ap (is_ignored ignored) (bytes_eq-true k h e)

-- The hosts that a block goes to are the connected ones that are not to be ignored.
is_ignored-receivers :
    (ignored : List Bytes) (clients : Dict MinerClient) (h : Bytes)
    → is_ignored (receivers ignored clients) h
      ≡ (present (lookup h clients) && not (is_ignored ignored h))
unfolding lookup
is_ignored-receivers ignored [] h = refl
is_ignored-receivers ignored ((k, c) ∷ clients) h =
    let later = is_ignored-receivers ignored clients h in
    elim (Bool-cases (bytes_eq k h)) [
      | inl here ↦ ground (arith, is_ignored-same ignored k h here)
      | inr there ↦ ground arith
    ]

module _ (md5 : Bytes → Bytes) where
  -- The messages of one call after the other, for the hosts that each ignores.
  abbrev pub sends : MinerState → Block → List (List Bytes) → List (List Bytes)
  sends s b [] = []
  sends s b (hosts ∷ calls) = elim (add_state_block md5 hosts s b) [
    | none ↦ []
    | some (s', sent) ↦ sent ∷ sends s' b calls
  ]

  abbrev IsOrphan : TreeManager → Block → Type 0
  IsOrphan t b =
      (present (find_block t (Crypto.id md5 b)) ≡ false)
      × (present (find_block t (parent_id b)) ≡ false)
      × (is_genesis_block b.block_type ≡ false)

  IsOrphan-sent :
      (s : MinerState) (b : Block) (hosts : List Bytes)
      → IsOrphan s.tm b
      → let s' = record s { tm = queue_block md5 s.tm b } in
        (add_state_block md5 hosts s b ≡ some (s', receivers hosts s.clients)) × IsOrphan s'.tm b
  unfolding add_state_block add_block queue_block
  IsOrphan-sent s b hosts (new, orphan, later) = (rw (new, orphan, later) refl, ground arith)

  orphan-sends :
      (calls : List (List Bytes)) (s : MinerState) (b : Block)
      → IsOrphan s.tm b
      → sends s b calls ≡ map (λ hosts. receivers hosts s.clients) calls
  orphan-sends [] s b orphan = refl
  orphan-sends (hosts ∷ calls) s b orphan =
      let (one, again) = IsOrphan-sent s b hosts orphan in
      let rest = orphan-sends calls (record s { tm = queue_block md5 s.tm b }) b again in
      ground arith

  -- What a call did with a block. It was in the tree, and nothing happens; or the tree manager
  -- refuses it, nothing is sent and the tree stays as it is; or the tree manager takes it, exactly
  -- the connected hosts that the call does not ignore are sent it, and then it is in the tree and is
  -- sent no more, or waits for its parent.
  abbrev pub PassedOn : List Bytes → MinerState → Block → MinerState × List Bytes → Type 0
  PassedOn hosts s b (s', sent) =
      ((sent ≡ [])
        × (s'.tm.m_tree.m_tree ≡ s.tm.m_tree.m_tree)
        × (((exists md5 s.tm b ≡ true) × (s' ≡ s))
            ⊎ ((exists md5 s.tm b ≡ false)
                × (e : AddError) × (add_block md5 s.tm b ≡ some (s'.tm, err e)))))
      ⊎ (((h : Bytes)
            → is_ignored sent h ≡ (present (lookup h s.clients) && not (is_ignored hosts h)))
          × (exists md5 s.tm b ≡ false)
          × (add_block md5 s.tm b ≡ some (s'.tm, ok tt))
          × (((hosts' : List Bytes) → add_state_block md5 hosts' s' b ≡ some (s', []))
              ⊎ ((find_block s'.tm (parent_id b) ≡ none) × (waits md5 s'.tm b ≡ true))))

  known_sent :
      (s : MinerState) (b : Block)
      → exists md5 s.tm b ≡ true
      → (hosts : List Bytes) → add_state_block md5 hosts s b ≡ some (s, [])
  unfolding add_state_block
  known_sent s b known hosts = rw known refl

  module _ (s : MinerState) (b : Block) (hosts : List Bytes) (w : IsWellFormed s.tm.m_tree.m_tree)
      (room : suc s.tm.m_tree.m_tree.height < uint64_size) where
    fresh_sent :
        (r : TreeManager × Result AddError (Unit {0}))
        → exists md5 s.tm b ≡ false
        → add_block md5 s.tm b ≡ some r
        → Settled md5 s.tm b r
        → (out : MinerState × List Bytes) × (add_state_block md5 hosts s b ≡ some out)
          × (out.0.tm ≡ r.0)
          × PassedOn hosts s b out
    unfolding add_state_block
    fresh_sent (tm, err e) fresh added (same, queue) =
        ((record s { tm = tm }, []), ground arith, refl, inl (refl, same, inr (fresh, e, added)))
    fresh_sent (tm, ok _) fresh added (inl there) =
        let s' = record s { tm = tm } in
        let reached = is_ignored-receivers hosts s.clients in
        (
          (s', receivers hosts s.clients),
          ground arith,
          refl,
          inr (reached, fresh, added, inl (known_sent s' b there)),
        )
    fresh_sent (tm, ok _) fresh added (inr waiting) =
        let s' = record s { tm = tm } in
        let reached = is_ignored-receivers hosts s.clients in
        (
          (s', receivers hosts s.clients),
          ground arith,
          refl,
          inr (reached, fresh, added, inr waiting),
        )

    -- In a well-formed tree whose height has room for one more block, addBlock does not panic and
    -- keeps the tree well-formed. A block that is in the tree changes nothing and is sent to nobody.
    -- One that the tree manager refuses with an error leaves the tree and is sent to nobody. One that
    -- it takes is sent to a host exactly if the host is connected and is not one to ignore; then
    -- either it is in the tree, so that no later call sends it again, or it waits for its parent.
    pub add_state_block-PassedOn :
        (out : MinerState × List Bytes) × (add_state_block md5 hosts s b ≡ some out)
        × IsWellFormed out.0.tm.m_tree.m_tree
        × PassedOn hosts s b out
    add_state_block-PassedOn = elim (Bool-cases (exists md5 s.tm b)) [
      | inl known ↦ ((s, []), known_sent s b known hosts, w, inl (refl, refl, inl (known, refl)))
      | inr fresh ↦
          let (r, added, kept, settled) = add_block-Settled md5 s.tm b w room in
          let (out, back, same, passed) = fresh_sent r fresh added settled in
          (
            out,
            back,
            subst (λ (t : TreeManager). IsWellFormed t.m_tree.m_tree) (sym same) kept,
            passed,
          )
    ]

  -- A block that is no genesis block, and that is not in the tree and whose parent is not either, is
  -- sent to the connected miners again by each call of addBlock, to all but those that the call
  -- ignores.
  pub sends_orphan :
      (s : MinerState) (b : Block) (calls : List (List Bytes))
      → present (find_block s.tm (Crypto.id md5 b)) ≡ false
      → present (find_block s.tm (parent_id b)) ≡ false
      → is_genesis_block b.block_type ≡ false
      → sends s b calls ≡ map (λ hosts. receivers hosts s.clients) calls
  sends_orphan s b calls new orphan later = orphan-sends calls s b (new, orphan, later)
