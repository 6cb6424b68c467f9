-- ===== src/DataStruct/PriorityQueue/Loops.antt =====
-- `heap.up` and `heap.down` end, without a panic, and only move items.
use blockafile.Base.{
  ℕ, zero, suc, ◌+◌, ◌-◌, ◌*◌, ◌/◌, ◌≤◌, ◌<◌, ◌≡◌, refl, inl, inr, Bool, true, false, Option, some,
  List, arith, leb, ltb, ◌==◌, if◌then◌else◌, length, Bool-cases,
}
use blockafile.DataStruct.PriorityQueue.{Item, less_item, less, swap, swap_if, heap_down, heap_up}
use blockafile.DataStruct.PriorityQueue.Moves.{
  Moved, Moved-refl, Moved-trans, second-Moved, get_elem?_there,
}

module _ {V : Type 0} where
  -- A swap below `n` gives a queue that is moved below `n`.
  pub swap-Moved :
      (n : ℕ) (pq : List (Item V)) (i j : ℕ)
      → i < n
      → j < n
      → n ≤ length pq
      → (pq' : List (Item V)) × (swap pq i j ≡ some pq') × Moved n pq pq'
  unfolding swap
  swap-Moved n pq i j low_i low_j all =
      let (a, at_i) = get_elem?_there pq i (omega arith) in
      let (b, at_j) = get_elem?_there pq j (omega arith) in
      (_, rw (swap, at_i, at_j) refl, second-Moved n pq i j a b at_i at_j low_i low_j all)

  less-there :
      (pq : List (Item V)) (i j : ℕ)
      → i < length pq
      → j < length pq
      → (c : Bool) × (less pq i j ≡ some c)
  unfolding less
  less-there pq i j low_i low_j =
      let (a, at_i) = get_elem?_there pq i low_i in
      let (b, at_j) = get_elem?_there pq j low_j in (less_item a b, rw (less, at_i, at_j) refl)

  -- A loop that ends with a place below `n`, and items moved below `n`.
  abbrev pub Ends : ℕ → List (Item V) → Option (List (Item V) × ℕ) → Type 0
  Ends n pq r = (pq' : List (Item V)) × (i : ℕ) × (r ≡ some (pq', i)) × Moved n pq pq'

  swap_if-Ends :
      (n : ℕ) (test : Option Bool) (c : Bool) (next : List (Item V) → Option (List (Item V) × ℕ))
      (pq : List (Item V)) (here i j : ℕ)
      → test ≡ some c
      → i < n
      → j < n
      → n ≤ length pq
      → ((pq' : List (Item V)) → length pq' ≡ length pq → Ends n pq' (next pq'))
      → Ends n pq (swap_if test next pq here i j)
  swap_if-Ends n test false next pq here i j e low_i low_j all ends =
      (pq, here, rw e refl, Moved-refl n pq)
  swap_if-Ends n test true next pq here i j e low_i low_j all ends =
      let (pq', swapped, moved) = swap-Moved n pq i j low_i low_j all in
      let (pq'', k, ended, more) = ends pq' moved.size in
      (pq'', k, ground arith, Moved-trans n pq pq' pq'' moved more)

  pub heap_up-Ends :
      (fuel n : ℕ) (pq : List (Item V)) (j : ℕ)
      → j < fuel
      → j < n
      → n ≤ length pq
      → Ends n pq (heap_up fuel pq j)
  unfolding heap_up
  heap_up-Ends zero n pq j enough low all = absurd (omega arith)
  heap_up-Ends (suc fuel) n pq j enough low all =
      let i = (j - 1) / 2 in
      elim (Bool-cases (i == j)) [
        | inl top ↦ rw top (pq, j, refl, Moved-refl n pq)
        | inr under ↦
            let different : i < j = ground arith in
            let (c, tested) = less-there pq j i (omega arith) (omega arith) in
            rw under (
              swap_if-Ends n (less pq j i) c (λ pq'. heap_up fuel pq' i) pq j i j tested
                (omega arith) low all
                (λ pq' same.
                  heap_up-Ends fuel n pq' i (omega arith) (omega arith) (omega (arith, same))))
      ]

  -- The choice of a child of `heap.down`.
  child-there :
      (n : ℕ) (pq : List (Item V)) (j1 : ℕ)
      → n ≤ length pq
      → j1 < n
      → (right : Bool) × ((if ltb (j1 + 1) n then less pq (j1 + 1) j1 else some false) ≡ some right)
        × (right ≡ true → j1 + 1 < n)
  child-there n pq j1 all low = elim (Bool-cases (ltb (j1 + 1) n)) [
    | inl both ↦
        let (c, tested) = less-there pq (j1 + 1) j1 (ground arith) (omega arith) in
        (c, rw both tested, λ h. ground arith)
    | inr one ↦ (false, rw one refl, λ h. absurd (ground arith))
  ]

  pub heap_down-Ends :
      (fuel n : ℕ) (pq : List (Item V)) (i : ℕ)
      → 0 < fuel
      → n ≤ fuel + i
      → n ≤ length pq
      → Ends n pq (heap_down fuel pq i n)
  unfolding heap_down
  heap_down-Ends zero n pq i some_fuel enough all = absurd (omega arith)
  heap_down-Ends (suc fuel) n pq i some_fuel enough all = elim (Bool-cases (leb n (2 * i + 1))) [
    | inl leaf ↦ rw leaf (pq, i, refl, Moved-refl n pq)
    | inr inner ↦
        let (right, chosen, fits) = child-there n pq (2 * i + 1) all (ground arith) in
        let j = if right then 2 * i + 1 + 1 else 2 * i + 1 in
        let below : j < n = ground arith in
        let past : i < j = ground arith in
        let (c, tested) = less-there pq j i (omega arith) (omega arith) in
        rw (inner, chosen)
          (swap_if-Ends n (less pq j i) c (λ pq'. heap_down fuel pq' j n) pq i i j tested
            (omega arith) below all
            (λ pq' same.
              heap_down-Ends fuel n pq' j (omega arith) (omega arith) (omega (arith, same))))
  ]
