-- ===== src/State/Chain.antt =====
-- `transverseChain` of miner/state/block_chain_validator.go: the nodes from the genesis block to a
-- node, and that it returns them for every node of a well-formed tree.
use blockafile.Base.{
  ℕ, zero, suc, ◌+◌, ◌%◌, ◌<◌, ◌≡◌, refl, sym, ap, subst, ◌∙◌, inl, inr, Option, none, some, List,
  [], ◌∷◌, reverse, Bytes, arith, length,
}
use blockafile.DataStruct.MRootTree.{Node, MRootTree, uint64_size, find, deref, next}
use blockafile.DataStruct.MRootTree.WellFormed.{IsWellFormed}

module _ {E : Type 0} where
  abbrev consed : Node E → Option (List (Node E)) → Option (List (Node E))
  consed n none = none
  consed n (some ns) = some (n ∷ ns)

  -- The first `for`: fills the slots that are left with the chain from `nd`. `none` is a panic: a
  -- chain with more nodes than slots is an index out of range, and one with fewer leaves a nil
  -- pointer in the slot that every caller reads first.
  unfoldable pub fill_slots : MRootTree E → ℕ → Option (Node E) → Option (List (Node E))
  fill_slots t zero none = some []
  fill_slots t zero (some nd) = none
  fill_slots t (suc slots) none = none
  fill_slots t (suc slots) (some nd) = consed nd (fill_slots t slots (next t nd))

  abbrev reversed : Option (List (Node E)) → Option (List (Node E))
  reversed none = none
  reversed (some ns) = some (reverse ns)

  -- `transverseChain`
  unfoldable pub transverse_chain : MRootTree E → Node E → Option (List (Node E))
  transverse_chain t root = reversed (fill_slots t ((root.height + 1) % uint64_size) (some root))

  -- `ns` is the chain that begins at a pointer: each node's child is the next, and the last has none.
  abbrev pub IsChain : MRootTree E → Option (Node E) → List (Node E) → Type 0
  IsChain t cur [] = cur ≡ none
  IsChain t cur (n ∷ ns) = (cur ≡ some n) × IsChain t (next t n) ns

  pub fill_slots-IsChain :
      (t : MRootTree E) (w : IsWellFormed t) (height : ℕ) (i : Bytes) (n : Node E)
      → find t i ≡ some n
      → n.height ≡ height
      → (ns : List (Node E)) × (fill_slots t (suc height) (some n) ≡ some ns)
        × (length ns ≡ suc height)
        × IsChain t (some n) ns
  unfolding fill_slots
  fill_slots-IsChain t w zero i n found level = elim (w.linked i n found) [
    | inl (bottom, _) ↦ (n ∷ [], rw bottom, refl, (refl, rw bottom))
    | inr (p, m, _, _, up) ↦ absurd (omega arith)
  ]
  fill_slots-IsChain t w (suc height) i n found level = elim (w.linked i n found) [
    | inl (_, low) ↦ absurd (omega arith)
    | inr (p, m, child, below, up) ↦
        let (ns, filled, size, chain) = fill_slots-IsChain t w height p m below (omega arith) in
        let child_is : next t n ≡ some m = ap (deref t) child ∙ below in
        (
          n ∷ ns,
          ap (λ c. consed n (fill_slots t (suc height) c)) child_is ∙ ap (consed n) filled,
          ap suc size,
          (refl, subst (λ c. IsChain t c ns) (sym child_is) chain),
        )
  ]

  -- In a well-formed tree transverseChain never panics: for a node of the tree it returns, from the
  -- last to the first, the nodes of the chain that starts at the node and ends at one with no
  -- child, one more than the node's height.
  pub transverse_chain-IsChain :
      (t : MRootTree E) (i : Bytes) (n : Node E)
      → IsWellFormed t
      → find t i ≡ some n
      → suc n.height < uint64_size
      → (ns : List (Node E)) × (transverse_chain t n ≡ some (reverse ns))
        × (length ns ≡ suc n.height)
        × IsChain t (some n) ns
  unfolding transverse_chain
  transverse_chain-IsChain t i n w found room =
      let (ns, filled, size, chain) = fill_slots-IsChain t w n.height i n found refl in
      let slots : (n.height + 1) % uint64_size ≡ suc n.height = omega arith in
      (ns, rw (slots, filled), size, chain)
