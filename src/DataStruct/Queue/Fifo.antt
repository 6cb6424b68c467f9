-- ===== src/DataStruct/Queue/Fifo.antt =====
-- The two stacks behave as one first-in first-out list.
use mathlib.Core.List.{append-nil, append_assoc, reverse-append, reverse-reverse}
use blockafile.Base.{
  ℕ, zero, suc, ◌+◌, ◌-◌, ◌<◌, ◌≡◌, refl, sym, ap, ◌∙◌, ◌⊎◌, inl, inr, Option, none, some, List, [],
  ◌∷◌, ◌++◌, reverse, arith, length, get_elem?, take, length-append,
}
use blockafile.DataStruct.Queue.{Queue, push, pop, transfer, enqueue, dequeue, clear, contents}

module _ {A : Type 0} where
  get_elem?-append_last : (xs : List A) (x : A) → get_elem? (xs ++ x ∷ []) (length xs) ≡ some x
  get_elem?-append_last [] x = refl
  get_elem?-append_last (y ∷ xs) x = get_elem?-append_last xs x

  take-append_last : (xs ys : List A) → take (length xs) (xs ++ ys) ≡ xs
  take-append_last [] [] = refl
  take-append_last [] (y ∷ ys) = refl
  take-append_last (x ∷ xs) ys = ap (◌∷◌ x) (take-append_last xs ys)

  -- The last element comes off.
  pub pop-push : (xs : List A) (x : A) → pop (push x xs) ≡ (some x, xs)
  unfolding push pop
  pop-push xs x =
      let size : length (xs ++ x ∷ []) ≡ suc (length xs) =
        omega (arith, length-append xs (x ∷ [])) in
      let last : length (xs ++ x ∷ []) - 1 ≡ length xs = omega arith in
      ground (arith, size, last, get_elem?-append_last xs x, take-append_last xs (x ∷ []))

  pop-empty : pop {A = A} [] ≡ (none, [])
  unfolding pop
  pop-empty = refl

  -- A stack is its own reversed list: empty, or a last element behind the rest.
  pub last-cases : (xs : List A) → (xs ≡ []) ⊎ ((ys : List A) × (y : A) × (xs ≡ push y ys))
  unfolding push
  last-cases [] = inl refl
  last-cases (x ∷ xs) = elim (last-cases xs) [
    | inl e ↦ inr ([], x, ap (◌∷◌ x) e)
    | inr (ys, y, e) ↦ inr (x ∷ ys, y, ap (◌∷◌ x) e)
  ]

  length-push : (xs : List A) (x : A) → length (push x xs) ≡ suc (length xs)
  unfolding push
  length-push xs x = omega (arith, length-append xs (x ∷ []))

  reverse-push : (xs : List A) (x : A) → reverse (push x xs) ≡ x ∷ reverse xs
  unfolding push
  reverse-push xs x = reverse-append xs (x ∷ [])

  push-append : (xs : List A) (y : A) (ys : List A) → push y xs ++ ys ≡ xs ++ y ∷ ys
  unfolding push
  push-append xs y ys = append_assoc xs (y ∷ []) ys

  transfer-nil : (fuel : ℕ) (deq : List A) → transfer (suc fuel) [] deq ≡ ([], deq)
  unfolding transfer pop
  transfer-nil fuel deq = refl

  transfer-push :
      (fuel : ℕ) (ys : List A) (y : A) (deq : List A)
      → transfer (suc fuel) (push y ys) deq ≡ transfer fuel ys (push y deq)
  unfolding transfer
  transfer-push fuel ys y deq = ground (arith, pop-push ys y)

  -- Turning `enqueue` over empties it and stacks its elements, the oldest on top.
  pub transfer_lem :
      (fuel : ℕ) (enq deq : List A)
      → length enq < fuel
      → transfer fuel enq deq ≡ ([], deq ++ reverse enq)
  transfer_lem zero enq deq h = absurd (omega arith)
  transfer_lem (suc fuel) enq deq h = elim (last-cases enq) [
    | inl e ↦ rw (e, transfer-nil fuel deq) (ap (λ r. ([], r)) (sym (append-nil deq)))
    | inr (ys, y, e) ↦
        rw (e, transfer-push fuel ys y deq, reverse-push ys y)
          (transfer_lem fuel ys (push y deq) (omega (arith, length-push ys y, ap length e))
            ∙ ap (λ r. ([], r)) (push-append deq y (reverse ys)))
  ]

  -- What `Dequeue` does, in terms of the contents.
  abbrev pub TakesFirst : List A → Option A × Queue A → Type 0
  TakesFirst [] (v, q) = (v ≡ none) × (contents q ≡ [])
  TakesFirst (x ∷ xs) (v, q) = (v ≡ some x) × (contents q ≡ xs)

  pop-reverse :
      (xs : List A)
      → TakesFirst xs
          ((pop (reverse xs)).0, record { enqueued = []; dequeued = (pop (reverse xs)).1 })
  unfolding push
  pop-reverse [] = rw pop-empty (refl, refl)
  pop-reverse (x ∷ xs) =
      rw (reverse-append (x ∷ []) xs, pop-push (reverse xs) x)
        (refl, append-nil (reverse (reverse xs)) ∙ reverse-reverse xs)

  -- An empty `dequeue` is refilled, and its top comes off.
  dequeue-refill :
      (enq : List A)
      → dequeue (record { enqueued = enq; dequeued = [] })
        ≡ ((pop (reverse enq)).0, record { enqueued = []; dequeued = (pop (reverse enq)).1 })
  unfolding dequeue
  dequeue-refill enq = ground (arith, pop-empty, transfer_lem (length enq + 1) enq [] (omega arith))

  dequeue-held :
      (enq ys : List A) (y : A)
      → dequeue (record { enqueued = enq; dequeued = push y ys })
        ≡ (some y, record { enqueued = enq; dequeued = ys })
  unfolding dequeue
  dequeue-held enq ys y = ground (arith, pop-push ys y)

  dequeue-TakesFirst_parts :
      (enq deq : List A)
      → TakesFirst (reverse deq ++ enq) (dequeue (record { enqueued = enq; dequeued = deq }))
  dequeue-TakesFirst_parts enq deq = elim (last-cases deq) [
    | inl e ↦ rw (e, dequeue-refill enq) (pop-reverse enq)
    | inr (ys, y, e) ↦ rw (e, dequeue-held enq ys y, reverse-push ys y) (refl, refl)
  ]

  pub dequeue-TakesFirst : (q : Queue A) → TakesFirst (contents q) (dequeue q)
  dequeue-TakesFirst q = dequeue-TakesFirst_parts q.enqueued q.dequeued

  pub contents-enqueue : (n : A) (q : Queue A) → contents (enqueue n q) ≡ contents q ++ n ∷ []
  unfolding enqueue push
  contents-enqueue n q = sym (append_assoc (reverse q.dequeued) q.enqueued (n ∷ []))

-- A caller's operations on a queue.
pub data Op (A : Type 0) : Type 0 where
  put : A → Op A
  get : Op A
  reset : Op A

module _ {A : Type 0} where
  abbrev pub apply : Op A → Queue A → Option A × Queue A
  apply (put n) q = (none, enqueue n q)
  apply get q = dequeue q
  apply reset q = (none, clear q)

  -- The same operations on one list.
  abbrev pub apply_list : Op A → List A → Option A × List A
  apply_list (put n) xs = (none, xs ++ n ∷ [])
  apply_list get [] = (none, [])
  apply_list get (x ∷ xs) = (some x, xs)
  apply_list reset xs = (none, [])

  pub run : List (Op A) → Queue A → List (Option A) × Queue A
  run [] q = ([], q)
  run (op ∷ ops) q = let (v, q') = apply op q in let (vs, q'') = run ops q' in (v ∷ vs, q'')

  pub run_list : List (Op A) → List A → List (Option A) × List A
  run_list [] xs = ([], xs)
  run_list (op ∷ ops) xs =
      let (v, xs') = apply_list op xs in let (vs, xs'') = run_list ops xs' in (v ∷ vs, xs'')

  get_refines :
      (xs : List A) (r : Option A × Queue A)
      → TakesFirst xs r
      → (r.0 ≡ (apply_list get xs).0) × (contents r.1 ≡ (apply_list get xs).1)
  get_refines [] r h = h
  get_refines (x ∷ xs) r h = h

  apply_refines :
      (op : Op A) (q : Queue A)
      → ((apply op q).0 ≡ (apply_list op (contents q)).0)
        × (contents (apply op q).1 ≡ (apply_list op (contents q)).1)
  apply_refines (put n) q = (refl, contents-enqueue n q)
  apply_refines get q = get_refines (contents q) (dequeue q) (dequeue-TakesFirst q)
  apply_refines reset q = (refl, unfold clear in refl)

  -- Any sequence of Enqueue, Dequeue and Clear returns from the two stacks what it returns from one
  -- first-in first-out list that starts with the queue's contents, and leaves its contents.
  pub run_refines :
      (ops : List (Op A)) (q : Queue A)
      → ((run ops q).0 ≡ (run_list ops (contents q)).0)
        × (contents (run ops q).1 ≡ (run_list ops (contents q)).1)
  unfolding run run_list
  run_refines [] q = (refl, refl)
  run_refines (op ∷ ops) q =
      let here = apply_refines op q in
      let rest = run_refines ops (apply op q).1 in
      rw (← here.0, ← here.1) (ap (◌∷◌ (apply op q).0) rest.0, rest.1)
