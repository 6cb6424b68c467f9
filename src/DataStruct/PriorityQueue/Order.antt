-- ===== src/DataStruct/PriorityQueue/Order.antt =====
-- The order of a heap, on the priorities of its places alone.
use blockafile.Base.{
  ℕ, ◌-◌, ◌/◌, ◌<◌, ◌≡◌, ◌≢◌, sym, ap, subst, ◌∙◌, ◌⊎◌, inl, inr, arith, ◌==◌, if◌then◌else◌,
}
use blockafile.Base.Int.{ℤ, ◌≤ℤ◌}

abbrev pub parent : ℕ → ℕ
parent k = (k - 1) / 2

-- The place `k` is not above its parent.
abbrev pub IsBelow : (ℕ → ℤ) → ℕ → Type 0
IsBelow f k = f k ≤ℤ f (parent k)

abbrev pub IsOrdered : ℕ → (ℕ → ℤ) → Type 0
IsOrdered n f = (k : ℕ) → 0 < k → k < n → IsBelow f k

-- The children of `i` are not above its parent.
abbrev pub IsBridged : ℕ → (ℕ → ℤ) → ℕ → Type 0
IsBridged n f i = (k : ℕ) → 0 < k → k < n → parent k ≡ i → 0 < i → f k ≤ℤ f (parent i)

-- A heap, but that `j` may be above its parent.
abbrev pub IsUpward : ℕ → (ℕ → ℤ) → ℕ → Type 0
IsUpward n f j = ((k : ℕ) → 0 < k → k < n → k ≢ j → IsBelow f k) × IsBridged n f j

-- A heap, but that `i` may be above its parent or below its children.
abbrev pub IsLoose : ℕ → (ℕ → ℤ) → ℕ → Type 0
IsLoose n f i = ((k : ℕ) → 0 < k → k < n → k ≢ i → parent k ≢ i → IsBelow f k) × IsBridged n f i

-- The priorities after a swap.
abbrev pub swapped : (ℕ → ℤ) → ℕ → ℕ → ℕ → ℤ
swapped f i j k = if j == k then f i else if i == k then f j else f k

pub eq_cases : (a b : ℕ) → (a ≡ b) ⊎ (a ≢ b)
eq_cases a b = grind arith

le_of : (f g : ℕ → ℤ) (a b : ℕ) (x y : ℤ) → g a ≡ x → g b ≡ y → x ≤ℤ y → g a ≤ℤ g b
le_of f g a b x y p q h = grind arith

module _ (n : ℕ) (f g : ℕ → ℤ) (i j : ℕ) (after : (k : ℕ) → g k ≡ swapped f i j k)
    (different : i < j) where
  at_first : g i ≡ f j
  at_first = ground (arith, after i)

  at_second : g j ≡ f i
  at_second = ground (arith, after j)

  at_other : (k : ℕ) → k ≢ i → k ≢ j → g k ≡ f k
  at_other k d e = grind (arith, after k)

  -- A step of `heap.up`, or of `heap.down`, that exchanges `j` with its parent `i`.
  IsBelow-after :
      parent j ≡ i
      → f i ≤ℤ f j
      → (k : ℕ) → 0 < k
      → k ≢ i
      → (k ≢ j → parent k ≡ i → f k ≤ℤ f j)
      → (k ≢ j → parent k ≡ j → f k ≤ℤ f i)
      → (k ≢ j → parent k ≢ i → parent k ≢ j → IsBelow f k)
      → IsBelow g k
  IsBelow-after here above k positive not_i under_i under_j far = elim (eq_cases k j) [
    | inl same ↦
        le_of f g k (parent k) (f i) (f j) (ap g same ∙ at_second)
          (ap g (ap parent same ∙ here) ∙ at_first) above
    | inr not_j ↦ elim (eq_cases (parent k) i) [
      | inl top ↦
          le_of f g k (parent k) (f k) (f j) (at_other k not_i not_j) (ap g top ∙ at_first)
            (under_i not_j top)
      | inr not_top ↦ elim (eq_cases (parent k) j) [
        | inl mid ↦
            le_of f g k (parent k) (f k) (f i) (at_other k not_i not_j) (ap g mid ∙ at_second)
              (under_j not_j mid)
        | inr none ↦
            le_of f g k (parent k) (f k) (f (parent k)) (at_other k not_i not_j)
              (at_other (parent k) not_top none) (far not_j not_top none)
      ]
    ]
  ]

  le_trans : (x y z : ℤ) → x ≤ℤ y → y ≤ℤ z → x ≤ℤ z
  le_trans x y z p q = omega (arith, p, q)

  pub up_step : j < n → parent j ≡ i → f i ≤ℤ f j → IsUpward n f j → IsUpward n g i
  up_step low here above (ordered, bridged) = (
    λ k p q d.
        IsBelow-after here above k p d
          (λ e top.
            le_trans (f k) (f i) (f j) (subst (λ x. f k ≤ℤ f x) top (ordered k p q e)) above)
          (λ e mid. subst (λ x. f k ≤ℤ f x) here (bridged k p q mid (omega arith)))
          (λ e _ _. ordered k p q e),
    λ k p q top positive.
        let up : g (parent i) ≡ f (parent i) = at_other (parent i) (omega arith) (omega arith) in
        let mine = ordered i positive (omega arith) (omega arith) in
        elim (eq_cases k j) [
          | inl same ↦ le_of f g k (parent i) (f i) (f (parent i)) (ap g same ∙ at_second) up mine
          | inr other ↦
              le_of f g k (parent i) (f k) (f (parent i)) (at_other k (omega (arith, top)) other) up
                (le_trans (f k) (f i) (f (parent i))
                  (subst (λ x. f k ≤ℤ f x) top (ordered k p q other)) mine)
        ],
  )

  pub down_step :
      j < n
      → parent j ≡ i
      → f i ≤ℤ f j
      → ((k : ℕ) → 0 < k → k < n → parent k ≡ i → f k ≤ℤ f j)
      → IsLoose n f i
      → IsLoose n g j × IsBelow g j
  down_step low here above biggest (loose, bridged) = (
    (
      λ k p q d e. elim (eq_cases k i) [
        | inl same ↦
            le_of f g k (parent k) (f j) (f (parent k)) (ap g same ∙ at_first)
              (at_other (parent k) (omega (arith, same)) e)
              (subst (λ x. f j ≤ℤ f (parent x)) (sym same)
                (bridged j (omega arith) low here (omega (arith, same))))
        | inr other ↦
            IsBelow-after here above k p other (λ _ top. biggest k p q top)
              (λ _ mid. absurd (e mid)) (λ _ far _. loose k p q other far)
      ],
      λ k p q mid positive.
          le_of f g k (parent j) (f k) (f j) (at_other k (omega (arith, mid)) (omega (arith, mid)))
            (ap g here ∙ at_first)
            (subst (λ x. f k ≤ℤ f x) mid (loose k p q (omega (arith, mid)) (omega (arith, mid)))),
    ),
    le_of f g j (parent j) (f i) (f j) at_second (ap g here ∙ at_first) above,
  )
