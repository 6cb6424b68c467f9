-- ===== src/DataStruct/Queue.antt =====
-- shared/datastruct/queue.go: a queue as two stacks. The slice of a stack is a list, its last
-- element on top. `Del` splices in place; no slice is shared between two stacks.
pub mod Fifo
pub mod Del
use blockafile.Base.{
  ℕ, zero, suc, ◌+◌, ◌-◌, ◌≡◌, Bool, true, false, Option, none, some, List, [], ◌∷◌, ◌++◌, reverse,
  ltb, ◌==◌, if◌then◌else◌, length, get_elem?, take, drop,
}

module _ {A : Type 0} where
  -- `Stack.Push`
  unfoldable pub push : A → List A → List A
  push n arr = arr ++ n ∷ []

  -- `Stack.Pop`: the value, if there is one, and the slice that is left.
  unfoldable pub pop : List A → Option A × List A
  pop arr =
      if length arr == 0
      then (none, arr)
      else (let last_idx = length arr - 1 in (get_elem? arr last_idx, take last_idx arr))

  -- The `for` of `Dequeue`, on fuel: pops `enqueue` and pushes on `dequeue` until it is empty.
  unfoldable pub transfer : ℕ → List A → List A → List A × List A
  transfer zero enq deq = (enq, deq)
  transfer (suc fuel) enq deq =
      let (v, rest) = pop enq in
      elim v [ none ↦ (rest, deq) | some x ↦ transfer fuel rest (push x deq) ]

pub record Queue (A : Type 0) : Type 0 where
  pub enqueued : List A
  pub dequeued : List A

module _ {A : Type 0} where
  -- `Queue{}`, and what `Clear` leaves
  abbrev pub empty : Queue A
  empty = record { enqueued = []; dequeued = [] }

  unfoldable pub enqueue : A → Queue A → Queue A
  unfolding push
  enqueue n q = record q { enqueued = push n q.enqueued }

  unfoldable pub clear : Queue A → Queue A
  clear q = record q { dequeued = []; enqueued = [] }

  -- `Dequeue`: a value from `dequeue`, or else from `dequeue` once `enqueue` is turned over into it.
  unfoldable pub dequeue : Queue A → Option A × Queue A
  unfolding pop transfer push
  dequeue q =
      let (v, deq) = pop q.dequeued in
      elim v [
        | some x ↦ (some x, record q { dequeued = deq })
        | none ↦
            let (enq', deq') = transfer (length q.enqueued + 1) q.enqueued deq in
            let (w, deq'') = pop deq' in (w, record { enqueued = enq'; dequeued = deq'' })
      ]

  unfoldable pub any_in : (A → Bool) → List A → Bool
  any_in eq [] = false
  any_in eq (v ∷ arr) = if eq v then true else any_in eq arr

  unfoldable pub is_in_queue : (A → Bool) → Queue A → Bool
  unfolding any_in
  is_in_queue eq q = if any_in eq q.dequeued then true else any_in eq q.enqueued

  unfoldable pub len : Queue A → ℕ
  len q = length q.dequeued + length q.enqueued

  -- The index of the first match, counted from `i`.
  unfoldable pub index_of : (A → Bool) → ℕ → List A → Option ℕ
  index_of eq i [] = none
  index_of eq i (v ∷ arr) = if eq v then some i else index_of eq (suc i) arr

  -- `append(arr[:i], arr[i+1:]...)`, or `arr[:i]` at the last index
  unfoldable pub splice : ℕ → List A → List A
  splice i arr = if ltb i (length arr - 1) then take i arr ++ drop (i + 1) arr else take i arr

  -- `Del`: whether an element was removed, and the queue.
  unfoldable pub del : (A → Bool) → Queue A → Bool × Queue A
  unfolding index_of splice
  del eq q = elim (index_of eq 0 q.dequeued) [
    | some i ↦ (true, record q { dequeued = splice i q.dequeued })
    | none ↦ elim (index_of eq 0 q.enqueued) [
      | some i ↦ (true, record q { enqueued = splice i q.enqueued })
      | none ↦ (false, q)
    ]
  ]

  -- The element that `Del` removes, which is the last that its closure has seen.
  unfoldable pub matched : (A → Bool) → Queue A → Option A
  matched eq q = elim (index_of eq 0 q.dequeued) [
    | some i ↦ get_elem? q.dequeued i
    | none ↦ elim (index_of eq 0 q.enqueued) [ some i ↦ get_elem? q.enqueued i | none ↦ none ]
  ]

  -- The elements in the order in which they will be dequeued.
  abbrev pub contents : Queue A → List A
  contents q = reverse q.dequeued ++ q.enqueued
