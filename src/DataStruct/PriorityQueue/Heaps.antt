-- ===== src/DataStruct/PriorityQueue/Heaps.antt =====
-- `heap.up` and `heap.down` make a heap again.
use blockafile.Base.{
  ℕ, zero, suc, ◌-◌, ◌/◌, ◌<◌, ◌≡◌, refl, sym, ap, subst, ◌∙◌, ◌⊎◌, inl, inr, Bool, true, false,
  none, some, List, arith, ◌==◌, length, get_elem?, Bool-cases, Option-cases,
}
use blockafile.Base.Int.{ℤ, pos, ◌≤ℤ◌, ltb_ℤ}
use blockafile.DataStruct.PriorityQueue.{Item, less, swap, heap_up}
use blockafile.DataStruct.PriorityQueue.Moves.{get_elem?-second, get_elem?_low}
use blockafile.DataStruct.PriorityQueue.Order.{
  IsBelow, IsOrdered, IsUpward, swapped, up_step, eq_cases,
}

module _ {V : Type 0} where
  -- The priority at a place; 0 past the end.
  abbrev pub key : List (Item V) → ℕ → ℤ
  key pq k = elim (get_elem? pq k) [ none ↦ pos 0 | some a ↦ a.priority ]

  pub swap-key :
      (pq pq' : List (Item V)) (i j : ℕ)
      → swap pq i j ≡ some pq'
      → (k : ℕ) → key pq' k ≡ swapped (key pq) i j k
  unfolding swap
  swap-key pq pq' i j done k = elim (Option-cases (get_elem? pq i)) [
    | inl nothing ↦ absurd (ground arith)
    | inr (a, at_i) ↦ elim (Option-cases (get_elem? pq j)) [
      | inl nothing ↦ absurd (ground arith)
      | inr (b, at_j) ↦
          let low_i = get_elem?_low pq i a at_i in
          let low_j = get_elem?_low pq j b at_j in
          ground
            (arith, get_elem?-second (length pq) pq i j a b at_i at_j low_i low_j (omega arith) k)
    ]
  ]

  less-key :
      (pq : List (Item V)) (i j : ℕ) (c : Bool)
      → less pq i j ≡ some c
      → c ≡ ltb_ℤ (key pq j) (key pq i)
  unfolding less
  less-key pq i j c tested = elim (Option-cases (get_elem? pq i)) [
    | inl nothing ↦ absurd (ground arith)
    | inr (a, at_i) ↦ elim (Option-cases (get_elem? pq j)) [
      | inl nothing ↦ absurd (ground arith)
      | inr (b, at_j) ↦ ground arith
    ]
  ]

  pub less-cases :
      (pq : List (Item V)) (i j : ℕ)
      → (less pq i j ≡ none)
        ⊎ (((less pq i j ≡ some true) × (key pq j ≤ℤ key pq i))
            ⊎ ((less pq i j ≡ some false) × (key pq i ≤ℤ key pq j)))
  less-cases pq i j = elim (Option-cases (less pq i j)) [
    | inl nothing ↦ inl nothing
    | inr (c, tested) ↦ elim (Bool-cases c) [
      | inl above ↦ inr (inl (tested ∙ ap some above, ground (arith, less-key pq i j c tested)))
      | inr under ↦ inr (inr (tested ∙ ap some under, ground (arith, less-key pq i j c tested)))
    ]
  ]

  pub heap_up-IsOrdered :
      (fuel n : ℕ) (pq pq' : List (Item V)) (j j' : ℕ)
      → heap_up fuel pq j ≡ some (pq', j')
      → j < n
      → IsUpward n (key pq) j
      → IsOrdered n (key pq')
  unfolding heap_up
  heap_up-IsOrdered zero n pq pq' j j' done low h = absurd (ground arith)
  heap_up-IsOrdered (suc fuel) n pq pq' j j' done low (ordered, bridged) =
      let i = (j - 1) / 2 in
      elim (Bool-cases (i == j)) [
        | inl top ↦
            let same : pq ≡ pq' = ground arith in
            let first : j ≡ 0 = ground arith in
            subst (λ q. IsOrdered n (key q)) same (λ k p q. ordered k p q (omega (arith, first)))
        | inr under ↦ elim (less-cases pq j i) [
          | inl nothing ↦ absurd (ground arith)
          | inr (inl (above, high)) ↦ elim (Option-cases (swap pq i j)) [
            | inl nothing ↦ absurd (ground arith)
            | inr (s, exchanged) ↦
                heap_up-IsOrdered fuel n s pq' i j' (ground arith) (omega arith) (
                  up_step n (key pq) (key s) i j (swap-key pq s i j exchanged) (ground arith) low
                    refl high (ordered, bridged))
          ]
          | inr (inr (still, fits)) ↦
              let same : pq ≡ pq' = ground arith in
              subst (λ q. IsOrdered n (key q)) same
                (λ k p q. elim (eq_cases k j) [
                  | inl here ↦ subst (λ x. IsBelow (key pq) x) (sym here) fits
                  | inr other ↦ ordered k p q other
                ])
        ]
      ]
