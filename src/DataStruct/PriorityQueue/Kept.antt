-- ===== src/DataStruct/PriorityQueue/Kept.antt =====
-- `heap.Remove` keeps the heap.
use blockafile.Base.{
  ℕ, ◌+◌, ◌-◌, ◌<◌, ◌≡◌, subst, ◌∙◌, inl, inr, some, List, arith, ◌==◌, length, get_elem?,
  Bool-cases,
}
use blockafile.DataStruct.PriorityQueue.{Item, pop, heap_remove}
use blockafile.DataStruct.PriorityQueue.Moves.{get_elem?_low}
use blockafile.DataStruct.PriorityQueue.Loops.{swap-Moved}
use blockafile.DataStruct.PriorityQueue.Removal.{Takes, heap_remove-Takes, settled-Moved}
use blockafile.DataStruct.PriorityQueue.Order.{IsOrdered}
use blockafile.DataStruct.PriorityQueue.Heaps.{key, swap-key}
use blockafile.DataStruct.PriorityQueue.Highest.{
  IsHeap, pop-IsHeap, swapped-IsLoose, settled-IsOrdered,
}

module _ {V : Type 0} where
  pub heap_remove-IsHeap :
      (pq : List (Item V)) (i : ℕ) (item : Item V)
      → get_elem? pq i ≡ some item
      → IsHeap pq
      → (t : Takes pq item (heap_remove pq i)) × IsHeap t.rest
  unfolding heap_remove
  heap_remove-IsHeap pq i item e h =
      let low = get_elem?_low pq i item e in
      let n = length pq - 1 in
      let sized : length pq ≡ n + 1 = omega (arith, low) in
      let t = heap_remove-Takes pq i item e in
      let whole : IsOrdered (n + 1) (key pq) = subst (λ m. IsOrdered m (key pq)) sized h in
      elim (Bool-cases (n == i)) [
        | inl last ↦
            let popped : pop pq ≡ some (t.out, t.rest) = ground (arith, t.taken) in
            (
              t,
              pop-IsHeap n pq t.out t.rest sized popped (omega (arith, t.size, sized))
                  (λ k p q. whole k p (omega arith)),
            )
        | inr inner ↦
            let before : i < n = ground arith in
            let (s, exchanged, moved) =
              swap-Moved (n + 1) pq i n (omega arith) (omega arith) (omega (arith, sized)) in
            let (pq', done, more) = settled-Moved i n s before (omega (arith, moved.size, sized)) in
            let loose = swapped-IsLoose n (key pq) (key s) i whole (swap-key pq s i n exchanged) in
            let popped : pop pq' ≡ some (t.out, t.rest) = ground (arith, t.taken) in
            (
              t,
              pop-IsHeap n pq' t.out t.rest (more.size ∙ moved.size ∙ sized) popped
                  (omega (arith, t.size, sized)) (settled-IsOrdered i n s pq' before done loose),
            )
      ]
