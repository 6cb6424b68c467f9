-- ===== src/DataStruct/PriorityQueue.antt =====
-- shared/datastruct/priority_queue.go, and what the source calls of `container/heap` on it. `none` is
-- a panic on an index out of range, or fuel that ran out.
pub mod Moves
mod Loops
mod Order
pub mod Heaps
mod Sinking
pub mod Highest
pub mod Kept
mod Tests
pub mod Removal
use blockafile.Base.{
  ℕ, zero, suc, ◌+◌, ◌-◌, ◌*◌, ◌/◌, ◌≡◌, Bool, true, false, not, Option, none, some, List, [], ◌∷◌,
  ◌++◌, leb, ltb, ◌==◌, if◌then◌else◌, length, take, get_elem?,
}
use blockafile.Base.Int.{ℤ, ltb_ℤ}

-- `index` is none for -1.
pub record Item (V : Type 0) : Type 0 where
  pub value : V
  pub priority : ℤ
  pub index : Option ℕ

-- `xs[i] = a`, of an index in range.
abbrev pub put_elem : {A : Type 0} → List A → ℕ → A → List A
put_elem [] i a = []
put_elem (x ∷ xs) zero a = a ∷ xs
put_elem (x ∷ xs) (suc i) a = x ∷ put_elem xs i a

module _ {V : Type 0} where
  abbrev pub placed : ℕ → Item V → Item V
  placed i item = record item { index = some i }

  -- `Less`
  abbrev pub less_item : Item V → Item V → Bool
  less_item a b = ltb_ℤ b.priority a.priority

  unfoldable pub less : List (Item V) → ℕ → ℕ → Option Bool
  less pq i j = elim (get_elem? pq i) [
    | none ↦ none
    | some a ↦ elim (get_elem? pq j) [ none ↦ none | some b ↦ some (less_item a b) ]
  ]

  -- `Swap`
  unfoldable pub swap : List (Item V) → ℕ → ℕ → Option (List (Item V))
  swap pq i j = elim (get_elem? pq i) [
    | none ↦ none
    | some a ↦ elim (get_elem? pq j) [
      | none ↦ none
      | some b ↦ some (put_elem (put_elem pq i (placed i b)) j (placed j a))
    ]
  ]

  -- `Push`
  unfoldable pub push : List (Item V) → Item V → List (Item V)
  push pq item = pq ++ placed (length pq) item ∷ []

  -- `Find`: the index that the first match holds, or none for -1.
  unfoldable pub find : (V → Bool) → List (Item V) → Option ℕ
  find eq [] = none
  find eq (item ∷ pq) = let rest = find eq pq in if eq item.value then item.index else rest

  -- `Pop`: the item taken, and the rest.
  unfoldable pub pop : List (Item V) → Option (Item V × List (Item V))
  pop pq = elim (get_elem? pq (length pq - 1)) [
    | none ↦ none
    | some item ↦ some (record item { index = none }, take (length pq - 1) pq)
  ]

  -- A swap of `i` and `j` and then `next`, if `test`, or else the loop ends with `here`.
  abbrev pub swap_if :
      Option Bool
      → (List (Item V) → Option (List (Item V) × ℕ))
      → List (Item V)
      → ℕ
      → ℕ
      → ℕ
      → Option (List (Item V) × ℕ)
  swap_if none next pq here i j = none
  swap_if (some false) next pq here i j = some (pq, here)
  swap_if (some true) next pq here i j = elim (swap pq i j) [
    | none ↦ none
    | some swapped ↦ next swapped
  ]

  -- The loop of `heap.down`, with where `i` ends up.
  unfoldable pub heap_down : ℕ → List (Item V) → ℕ → ℕ → Option (List (Item V) × ℕ)
  unfolding less
  heap_down zero pq i n = none
  heap_down (suc fuel) pq i n =
      let later = λ (j : ℕ) (swapped : List (Item V)). heap_down fuel swapped j n in
      let j1 = 2 * i + 1 in
      if leb n j1
      then some (pq, i)
      else elim (if ltb (j1 + 1) n then less pq (j1 + 1) j1 else some false) [
        | none ↦ none
        | some right ↦
            let j = if right then j1 + 1 else j1 in swap_if (less pq j i) (later j) pq i i j
      ]

  -- The loop of `heap.up`. Go divides -1 by 2 to 0.
  unfoldable pub heap_up : ℕ → List (Item V) → ℕ → Option (List (Item V) × ℕ)
  unfolding less
  heap_up zero pq j = none
  heap_up (suc fuel) pq j =
      let later = λ (i : ℕ) (swapped : List (Item V)). heap_up fuel swapped i in
      let i = (j - 1) / 2 in
      if i == j then some (pq, j) else swap_if (less pq j i) (later i) pq j i j

  -- `heap.Push`
  unfoldable pub heap_push : List (Item V) → Item V → Option (List (Item V))
  unfolding push heap_up
  heap_push pq item = elim (heap_up (length pq + 1) (push pq item) (length pq)) [
    | none ↦ none
    | some (pq', j) ↦ some pq'
  ]

  -- `heap.Pop`
  unfoldable pub heap_pop : List (Item V) → Option (Item V × List (Item V))
  unfolding swap heap_down pop
  heap_pop pq =
      let n = length pq - 1 in
      elim (swap pq 0 n) [
        | none ↦ none
        | some swapped ↦ elim (heap_down (length pq) swapped 0 n) [
          | none ↦ none
          | some (pq', i) ↦ pop pq'
        ]
      ]

  -- The moves of `heap.Remove` for an item that is not the last.
  abbrev pub settled : List (Item V) → ℕ → ℕ → Option (List (Item V))
  settled swapped i n = elim (heap_down (length swapped) swapped i n) [
    | none ↦ none
    | some (pq', i') ↦
        if ltb i i'
        then some pq'
        else elim (heap_up (i + 1) pq' i) [ none ↦ none | some (pq'', j) ↦ some pq'' ]
  ]

  -- `heap.Remove`
  unfoldable pub heap_remove : List (Item V) → ℕ → Option (Item V × List (Item V))
  unfolding swap heap_down heap_up pop
  heap_remove pq i =
      let n = length pq - 1 in
      if n == i then pop pq else elim (swap pq i n) [
        | none ↦ none
        | some swapped ↦ elim (settled swapped i n) [ none ↦ none | some pq' ↦ pop pq' ]
      ]
