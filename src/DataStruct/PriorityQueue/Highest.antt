-- ===== src/DataStruct/PriorityQueue/Highest.antt =====
-- `heap.Push`, `heap.Pop` and `heap.Remove` keep the heap, whose first item is the highest.
use blockafile.Base.{
  ℕ, zero, suc, ◌+◌, ◌-◌, ◌<◌, ◌≡◌, ◌≢◌, refl, sym, ap, subst, ◌∙◌, inl, inr, some, List, [], ◌∷◌,
  ◌++◌, arith, length, take, get_elem?, Option-cases,
}
use blockafile.Base.Int.{ℤ, ◌≤ℤ◌}
use blockafile.DataStruct.PriorityQueue.{
  Item, placed, push, pop, settled, heap_down, heap_up, heap_push, heap_pop,
}
use blockafile.DataStruct.PriorityQueue.Moves.{get_elem?_low}
use blockafile.DataStruct.PriorityQueue.Loops.{swap-Moved, heap_down-Ends}
use blockafile.DataStruct.PriorityQueue.Removal.{Takes, heap_pop-Takes, get_elem?-append_last}
use blockafile.DataStruct.PriorityQueue.Order.{parent, IsOrdered, IsUpward, IsLoose, swapped}
use blockafile.DataStruct.PriorityQueue.Heaps.{key, swap-key, heap_up-IsOrdered}
use blockafile.DataStruct.PriorityQueue.Sinking.{Sunk, heap_down-Sunk}

IsOrdered-top : (fuel n : ℕ) (f : ℕ → ℤ) (k : ℕ) → k < fuel → IsOrdered n f → k < n → f k ≤ℤ f 0
IsOrdered-top zero n f k enough h low = absurd (omega arith)
IsOrdered-top (suc fuel) n f zero enough h low = omega arith
IsOrdered-top (suc fuel) n f (suc k) enough h low =
    let up = IsOrdered-top fuel n f (parent (suc k)) (omega arith) h (omega arith) in
    omega (arith, up, h (suc k) (omega arith) low)

IsOrdered-eq : (n : ℕ) (f g : ℕ → ℤ) → ((k : ℕ) → k < n → g k ≡ f k) → IsOrdered n f → IsOrdered n g
IsOrdered-eq n f g same h k p q =
    let below = h k p q in
    let one = same k q in let two = same (parent k) (omega arith) in grind arith

swapped_other :
    (f g : ℕ → ℤ) (i j : ℕ)
    → ((k : ℕ) → g k ≡ swapped f i j k)
    → (k : ℕ) → k ≢ i
    → k ≢ j
    → g k ≡ f k
swapped_other f g i j after k d e = grind (arith, after k)

-- A heap with the last item put at `i`.
pub swapped-IsLoose :
    (n : ℕ) (f g : ℕ → ℤ) (i : ℕ)
    → IsOrdered (n + 1) f
    → ((k : ℕ) → g k ≡ swapped f i n k)
    → IsLoose n g i
swapped-IsLoose n f g i h after = (
  λ k p q d e.
      let below = h k p (omega arith) in
      let one = swapped_other f g i n after k d (omega arith) in
      let two = swapped_other f g i n after (parent k) e (omega arith) in grind arith,
  λ k p q top positive.
      let one = swapped_other f g i n after k (omega (arith, top)) (omega arith) in
      let two = swapped_other f g i n after (parent i) (omega arith) (omega (arith, top)) in
      let below = subst (λ x. f k ≤ℤ f x) top (h k p (omega arith)) in
      let above = h i positive (omega (arith, top)) in grind arith,
)

module _ {V : Type 0} where
  -- No item is above its parent.
  abbrev pub IsHeap : List (Item V) → Type 0
  IsHeap pq = IsOrdered (length pq) (key pq)

  key-take : (n k : ℕ) (pq : List (Item V)) → k < n → key (take n pq) k ≡ key pq k
  key-take zero k pq low = absurd (omega arith)
  key-take (suc n) k [] low = refl
  key-take (suc n) zero (x ∷ pq) low = refl
  key-take (suc n) (suc k) (x ∷ pq) low = key-take n k pq (omega arith)

  -- The rest of a `pop` is a heap if all but the last were.
  pub pop-IsHeap :
      (n : ℕ) (pq : List (Item V)) (out : Item V) (rest : List (Item V))
      → length pq ≡ n + 1
      → pop pq ≡ some (out, rest)
      → length rest ≡ n
      → IsOrdered n (key pq)
      → IsHeap rest
  unfolding pop
  pop-IsHeap n pq out rest sized popped size h =
      let last : length pq - 1 ≡ n = omega (arith, sized) in
      elim (Option-cases (get_elem? pq n)) [
        | inl nothing ↦ absurd (ground arith)
        | inr (item, there) ↦
            let same : take n pq ≡ rest = ground arith in
            subst (λ m. IsOrdered m (key rest)) (sym size)
              (IsOrdered-eq n (key pq) (key rest)
                (λ k low. ap (λ r. key r k) (sym same) ∙ key-take n k pq low) h)
      ]

  first-Sunk : (n : ℕ) (s pq' : List (Item V)) (i : ℕ) → Sunk n s 0 pq' i → IsOrdered n (key pq')
  first-Sunk n s pq' i (inl (still, same, (ordered, _))) =
      subst (λ q. IsOrdered n (key q)) (sym same) (λ k p q. ordered k p q (omega arith))
  first-Sunk n s pq' i (inr (more, ordered)) = ordered

  -- heap.Pop of a heap that is not empty gives an item whose priority no other exceeds, and keeps
  -- the others, in a heap.
  pub heap_pop-Highest :
      (pq : List (Item V)) (item : Item V)
      → IsHeap pq
      → get_elem? pq 0 ≡ some item
      → (t : Takes pq item (heap_pop pq)) × IsHeap t.rest
        × ((k : ℕ) → k < length pq → key pq k ≤ℤ item.priority)
  unfolding heap_pop
  heap_pop-Highest pq item h e =
      let low = get_elem?_low pq 0 item e in
      let n = length pq - 1 in
      let sized : length pq ≡ n + 1 = omega (arith, low) in
      let (s, exchanged, moved) =
        swap-Moved (n + 1) pq 0 n (omega arith) (omega arith) (omega (arith, sized)) in
      let (pq', i, ended, more) =
        heap_down-Ends (length pq) n s 0 (omega arith) (omega arith) (omega (arith, moved.size)) in
      let t = heap_pop-Takes pq item e in
      let after = swap-key pq s 0 n exchanged in
      let loose : IsLoose n (key s) 0 =
        swapped-IsLoose n (key pq) (key s) 0 (subst (λ m. IsOrdered m (key pq)) sized h) after in
      let popped : pop pq' ≡ some (t.out, t.rest) = ground (arith, t.taken) in
      let ordered : IsOrdered n (key pq') =
        first-Sunk n s pq' i (heap_down-Sunk (length pq) n s pq' 0 i ended loose) in
      let top : key pq 0 ≡ item.priority = ground arith in
      (
        t,
        pop-IsHeap n pq' t.out t.rest (more.size ∙ moved.size ∙ sized) popped
            (omega (arith, t.size, sized)) ordered,
        λ k q.
            subst (λ z. key pq k ≤ℤ z) top
              (IsOrdered-top (k + 1) (length pq) (key pq) k (omega arith) h q),
      )

  -- A heap with an item at the end.
  push-IsUpward :
      (pq : List (Item V)) (item : Item V)
      → IsHeap pq
      → IsUpward (length pq + 1) (key (push pq item)) (length pq)
  unfolding push
  push-IsUpward pq item h = (
    λ k p q d.
        let one = key-append pq (placed (length pq) item) k (omega (arith, q, d)) in
        let two = key-append pq (placed (length pq) item) (parent k) (omega (arith, q, d)) in
        let below = h k p (omega (arith, q, d)) in grind arith,
    λ k p q top positive. absurd (omega (arith, top, q)),
  )
    where
      key-append :
          (xs : List (Item V)) (x : Item V) (k : ℕ)
          → k < length xs
          → key (xs ++ x ∷ []) k ≡ key xs k
      key-append xs x k low = ground (arith, get_elem?-append_last xs x k)

  pub heap_push-IsHeap :
      (pq pq' : List (Item V)) (item : Item V)
      → heap_push pq item ≡ some pq'
      → length pq' ≡ length pq + 1
      → IsHeap pq
      → IsHeap pq'
  unfolding heap_push
  heap_push-IsHeap pq pq' item made size h =
      elim (Option-cases (heap_up (length pq + 1) (push pq item) (length pq))) [
        | inl nothing ↦ absurd (ground arith)
        | inr ((s, j), ended) ↦
            let ordered =
              heap_up-IsOrdered (length pq + 1) (length pq + 1) (push pq item) s (length pq) j ended
                (omega arith) (push-IsUpward pq item h) in
            let same : s ≡ pq' = ground arith in
            subst (λ m. IsOrdered m (key pq')) (sym size)
              (subst (λ q. IsOrdered (length pq + 1) (key q)) same ordered)
      ]

  pub settled-IsOrdered :
      (i n : ℕ) (s pq' : List (Item V))
      → i < n
      → settled s i n ≡ some pq'
      → IsLoose n (key s) i
      → IsOrdered n (key pq')
  settled-IsOrdered i n s pq' low done loose = elim (Option-cases (heap_down (length s) s i n)) [
    | inl nothing ↦ absurd (ground arith)
    | inr ((sunk, i'), ended) ↦ elim (heap_down-Sunk (length s) n s sunk i i' ended loose) [
      | inr (more, ordered) ↦
          let same : sunk ≡ pq' = ground arith in subst (λ q. IsOrdered n (key q)) same ordered
      | inl (still, same, upward) ↦ elim (Option-cases (heap_up (i + 1) sunk i)) [
        | inl nothing ↦ absurd (ground arith)
        | inr ((risen, j), back) ↦
            let upward' = subst (λ q. IsUpward n (key q) i) (sym same) upward in
            let end : risen ≡ pq' = ground arith in
            subst (λ q. IsOrdered n (key q)) end
              (heap_up-IsOrdered (i + 1) n sunk risen i j back low upward')
      ]
    ]
  ]
