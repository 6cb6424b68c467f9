-- ===== src/DataStruct/PriorityQueue/Sinking.antt =====
-- `heap.down` makes a heap again, or leaves the item to `heap.up`.
use blockafile.Base.{
  ℕ, zero, suc, ◌+◌, ◌*◌, ◌<◌, ◌≡◌, ◌≢◌, refl, sym, subst, ◌⊎◌, inl, inr, Bool, true, false, Option,
  none, some, List, arith, leb, ltb, if◌then◌else◌, Bool-cases, Option-cases,
}
use blockafile.Base.Int.{◌≤ℤ◌}
use blockafile.DataStruct.PriorityQueue.{Item, less, swap, heap_down}
use blockafile.DataStruct.PriorityQueue.Order.{
  parent, IsBelow, IsOrdered, IsUpward, IsLoose, down_step, eq_cases,
}
use blockafile.DataStruct.PriorityQueue.Heaps.{key, swap-key, less-cases}

abbrev chosen : ℕ → Bool → ℕ
chosen i right = if right then 2 * i + 1 + 1 else 2 * i + 1

children : (i k : ℕ) → 0 < k → parent k ≡ i → (k ≡ 2 * i + 1) ⊎ (k ≡ 2 * i + 1 + 1)
children i k positive h = grind arith

module _ {V : Type 0} where
  -- No child of `i` is above `j`.
  abbrev IsBiggest : ℕ → List (Item V) → ℕ → ℕ → Type 0
  IsBiggest n pq i j = (k : ℕ) → 0 < k → k < n → parent k ≡ i → key pq k ≤ℤ key pq j

  abbrev choice : ℕ → List (Item V) → ℕ → Option Bool
  choice n pq i = if ltb (2 * i + 1 + 1) n then less pq (2 * i + 1 + 1) (2 * i + 1) else some false

  one_of :
      (n : ℕ) (pq : List (Item V)) (i j : ℕ)
      → key pq (2 * i + 1) ≤ℤ key pq j
      → (2 * i + 1 + 1 < n → key pq (2 * i + 1 + 1) ≤ℤ key pq j)
      → IsBiggest n pq i j
  one_of n pq i j first second k p q h = elim (children i k p h) [
    | inl left ↦ subst (λ x. key pq x ≤ℤ key pq j) (sym left) first
    | inr right ↦ subst (λ x. key pq x ≤ℤ key pq j) (sym right) (second (omega (arith, right)))
  ]

  choice-cases :
      (n : ℕ) (pq : List (Item V)) (i : ℕ)
      → 2 * i + 1 < n
      → (choice n pq i ≡ none)
        ⊎ ((right : Bool) × (choice n pq i ≡ some right)
            × (chosen i right < n)
            × IsBiggest n pq i (chosen i right))
  choice-cases n pq i low = elim (Bool-cases (ltb (2 * i + 1 + 1) n)) [
    | inr one ↦ inr (
      false,
      rw one refl,
      low,
      one_of n pq i (2 * i + 1) (omega arith) (λ h. absurd (ground arith)),
    )
    | inl both ↦ elim (less-cases pq (2 * i + 1 + 1) (2 * i + 1)) [
      | inl nothing ↦ inl (rw both nothing)
      | inr (inl (tested, high)) ↦ inr (
        true,
        rw both tested,
        ground arith,
        one_of n pq i (2 * i + 1 + 1) high (λ h. omega arith),
      )
      | inr (inr (tested, high)) ↦
          inr (false, rw both tested, low, one_of n pq i (2 * i + 1) (omega arith) (λ h. high))
    ]
  ]

  -- The item at `i` stayed, or it sank.
  abbrev pub Sunk : ℕ → List (Item V) → ℕ → List (Item V) → ℕ → Type 0
  Sunk n pq i pq' i' =
      ((i' ≡ i) × (pq' ≡ pq) × IsUpward n (key pq) i) ⊎ ((i < i') × IsOrdered n (key pq'))

  Sunk-on :
      (n i j : ℕ) (s pq pq' : List (Item V)) (i' : ℕ)
      → i < j
      → IsBelow (key s) j
      → Sunk n s j pq' i'
      → Sunk n pq i pq' i'
  Sunk-on n i j s pq pq' i' past below (inl (still, same, (ordered, bridged))) = inr (
    omega (arith, still),
    subst (λ q. IsOrdered n (key q)) (sym same)
        (λ k p q. elim (eq_cases k j) [
          | inl here ↦ subst (λ x. IsBelow (key s) x) (sym here) below
          | inr other ↦ ordered k p q other
        ]),
  )
  Sunk-on n i j s pq pq' i' past below (inr (more, ordered)) = inr (omega arith, ordered)

  pub heap_down-Sunk :
      (fuel n : ℕ) (pq pq' : List (Item V)) (i i' : ℕ)
      → heap_down fuel pq i n ≡ some (pq', i')
      → IsLoose n (key pq) i
      → Sunk n pq i pq' i'
  unfolding heap_down
  heap_down-Sunk zero n pq pq' i i' done h = absurd (ground arith)
  heap_down-Sunk (suc fuel) n pq pq' i i' done (loose, bridged) =
      elim (Bool-cases (leb n (2 * i + 1))) [
        | inl leaf ↦ inl (
          ground arith,
          ground arith,
          (λ k p q d. loose k p q d (λ h. absurd (ground arith)), bridged),
        )
        | inr inner ↦ elim (choice-cases n pq i (ground arith)) [
          | inl nothing ↦ absurd (ground arith)
          | inr (right, picked, low, biggest) ↦
              let j = chosen i right in
              elim (less-cases pq j i) [
                | inl nothing ↦ absurd (ground arith)
                | inr (inr (still, fits)) ↦
                    inl (
                      ground arith,
                      ground arith,
                      (λ k p q d. stay k p q d j fits biggest, bridged),
                    )
                | inr (inl (above, high)) ↦ elim (Option-cases (swap pq i j)) [
                  | inl nothing ↦ absurd (ground arith)
                  | inr (s, exchanged) ↦
                      let up : parent j ≡ i = ground arith in
                      let past : i < j = ground arith in
                      let (looser, below) =
                        down_step n (key pq) (key s) i j (swap-key pq s i j exchanged) past low up
                          high biggest (loose, bridged) in
                      let next : heap_down fuel s j n ≡ some (pq', i') = ground arith in
                      Sunk-on n i j s pq pq' i' past below
                        (heap_down-Sunk fuel n s pq' j i' next looser)
                ]
              ]
        ]
      ]
    where
      stay :
          (k : ℕ)
          → 0 < k
          → k < n
          → k ≢ i
          → (j : ℕ) → key pq j ≤ℤ key pq i
          → IsBiggest n pq i j
          → IsBelow (key pq) k
      stay k p q d j fits biggest = elim (eq_cases (parent k) i) [
        | inl top ↦
            subst (λ x. key pq k ≤ℤ key pq x) (sym top) (omega (arith, fits, biggest k p q top))
        | inr far ↦ loose k p q d far
      ]
