-- ===== src/DataStruct/PriorityQueue/Moves.antt =====
-- What swaps, `heap.up` and `heap.down` leave as it is.
use blockafile.Base.{
  ℕ, zero, suc, ◌+◌, ◌≤◌, ◌<◌, ◌≡◌, refl, ap, ◌∙◌, inl, inr, Bool, some, List, [], ◌∷◌, arith, ◌==◌,
  if◌then◌else◌, length, get_elem?, Option-cases,
}
use blockafile.Base.Int.{ℤ}
use blockafile.DataStruct.PriorityQueue.{Item, put_elem, placed}

module _ {A : Type 0} where
  pub length-put_elem : (xs : List A) (i : ℕ) (a : A) → length (put_elem xs i a) ≡ length xs
  length-put_elem [] i a = refl
  length-put_elem (x ∷ xs) zero a = refl
  length-put_elem (x ∷ xs) (suc i) a = ap suc (length-put_elem xs i a)

  pub get_elem?-put_elem :
      (xs : List A) (i j : ℕ) (a : A)
      → i < length xs
      → get_elem? (put_elem xs i a) j ≡ (if i == j then some a else get_elem? xs j)
  get_elem?-put_elem [] i j a low = absurd (omega arith)
  get_elem?-put_elem (x ∷ xs) zero zero a low = refl
  get_elem?-put_elem (x ∷ xs) zero (suc j) a low = ground arith
  get_elem?-put_elem (x ∷ xs) (suc i) zero a low = ground arith
  get_elem?-put_elem (x ∷ xs) (suc i) (suc j) a low =
      ground (arith, get_elem?-put_elem xs i j a (omega arith))

  pub get_elem?_there : (xs : List A) (i : ℕ) → i < length xs → (a : A) × (get_elem? xs i ≡ some a)
  get_elem?_there [] i low = absurd (omega arith)
  get_elem?_there (x ∷ xs) zero low = (x, refl)
  get_elem?_there (x ∷ xs) (suc i) low = get_elem?_there xs i (omega arith)

  pub get_elem?_low : (xs : List A) (i : ℕ) (a : A) → get_elem? xs i ≡ some a → i < length xs
  get_elem?_low [] i a h = absurd (ground arith)
  get_elem?_low (x ∷ xs) zero a h = omega arith
  get_elem?_low (x ∷ xs) (suc i) a h = omega (arith, get_elem?_low xs i a h)

module _ {V : Type 0} where
  abbrev pub hit_by : (V → ℤ → Bool) → Item V → ℕ
  hit_by eq item = if eq item.value item.priority then 1 else 0

  -- How many items have a value and a priority that match.
  abbrev pub count_by : (V → ℤ → Bool) → List (Item V) → ℕ
  count_by eq [] = 0
  count_by eq (item ∷ pq) = hit_by eq item + count_by eq pq

  -- How many items have a value that matches.
  abbrev pub on_value : (V → Bool) → V → ℤ → Bool
  on_value eq v p = eq v

  abbrev pub hit : (V → Bool) → Item V → ℕ
  hit eq = hit_by (on_value eq)

  abbrev pub count : (V → Bool) → List (Item V) → ℕ
  count eq = count_by (on_value eq)

  count-put_elem :
      (eq : V → ℤ → Bool) (pq : List (Item V)) (i : ℕ) (a b : Item V)
      → get_elem? pq i ≡ some b
      → count_by eq (put_elem pq i a) + hit_by eq b ≡ count_by eq pq + hit_by eq a
  count-put_elem eq [] i a b h = absurd (ground arith)
  count-put_elem eq (x ∷ pq) zero a b h =
      let same : hit_by eq x ≡ hit_by eq b = ground arith in omega (arith, same)
  count-put_elem eq (x ∷ pq) (suc i) a b h = omega (arith, count-put_elem eq pq i a b h)

  -- Each item holds its own place.
  abbrev pub IsIndexed : List (Item V) → Type 0
  IsIndexed pq = (k : ℕ) (a : Item V) → get_elem? pq k ≡ some a → a.index ≡ some k

  -- The items below `n` were moved about, the others not; each moved item holds its place again.
  pub record Moved (n : ℕ) (pq pq' : List (Item V)) : Type 0 where
    pub size : length pq' ≡ length pq
    pub indexed : IsIndexed pq → IsIndexed pq'
    pub counts : (eq : V → ℤ → Bool) → count_by eq pq' ≡ count_by eq pq
    pub others : (k : ℕ) → n ≤ k → get_elem? pq' k ≡ get_elem? pq k

  pub Moved-refl : (n : ℕ) (pq : List (Item V)) → Moved n pq pq
  Moved-refl n pq = record {
    size = refl;
    indexed = λ h. h;
    counts = λ eq. refl;
    others = λ k h. refl;
  }

  pub Moved-trans :
      (n : ℕ) (pq pq' pq'' : List (Item V)) → Moved n pq pq' → Moved n pq' pq'' → Moved n pq pq''
  Moved-trans n pq pq' pq'' p q = record {
    size = q.size ∙ p.size;
    indexed = λ h. q.indexed (p.indexed h);
    counts = λ eq. q.counts eq ∙ p.counts eq;
    others = λ k h. q.others k h ∙ p.others k h;
  }

  module _ (n : ℕ) (pq : List (Item V)) (i j : ℕ) (a b : Item V) (at_i : get_elem? pq i ≡ some a)
      (at_j : get_elem? pq j ≡ some b) (low_i : i < n) (low_j : j < n) (all : n ≤ length pq) where
    abbrev first : List (Item V)
    first = put_elem pq i (placed i b)

    abbrev second : List (Item V)
    second = put_elem first j (placed j a)

    pub get_elem?-second :
        (k : ℕ)
        → get_elem? second k ≡ (
            if j == k
            then some (placed j a)
            else if i == k
            then some (placed i b)
            else get_elem? pq k)
    get_elem?-second k = ground (
      arith,
      length-put_elem pq i (placed i b),
      get_elem?-put_elem first j k (placed j a),
      get_elem?-put_elem pq i k (placed i b),
    )

    second-counts : (eq : V → ℤ → Bool) → count_by eq second ≡ count_by eq pq
    second-counts eq = elim (Option-cases (get_elem? first j)) [
      | inl nothing_there ↦ absurd (ground (arith, get_elem?-put_elem pq i j (placed i b)))
      | inr (c, there) ↦
          let same : hit_by eq c ≡ hit_by eq b =
            ground (arith, get_elem?-put_elem pq i j (placed i b)) in
          omega (
            arith,
            same,
            count-put_elem eq pq i (placed i b) a at_i,
            count-put_elem eq first j (placed j a) c there,
          )
    ]

    pub second-Moved : Moved n pq second
    second-Moved = record {
      size = length-put_elem first j (placed j a) ∙ length-put_elem pq i (placed i b);
      indexed = λ h k c e. ground (arith, get_elem?-second k, h k c);
      counts = second-counts;
      others = λ k h. ground (arith, get_elem?-second k);
    }
