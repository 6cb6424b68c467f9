-- ===== src/Calculators/Cut.antt =====
-- A job that is taken out of the middle of the line.
use blockafile.Base.{
  ℕ, zero, suc, ◌+◌, ◌<◌, ◌≡◌, refl, sym, ap, ap₂, subst, ◌∙◌, inl, inr, Bool, true, ◌&&◌, some,
  List, [], ◌∷◌, ◌++◌, arith, get_elem?, Bool-cases, if◌then◌else◌, All,
}
use blockafile.Base.Int.{ℤ}
use blockafile.Crypto.Block.{BlockOp}
use blockafile.DataStruct.PriorityQueue.{Item, heap_remove}
use blockafile.DataStruct.PriorityQueue.Moves.{count_by, hit_by, count, hit, on_value}
use blockafile.DataStruct.PriorityQueue.Removal.{Takes}
use blockafile.DataStruct.PriorityQueue.Kept.{heap_remove-IsHeap}
use blockafile.Calculators.{op_eq, remove_job}
use blockafile.Calculators.Jobs.{job_exists-cases}
use blockafile.Calculators.Fifo.{
  Entry, IsLine, Lines, ◌<ℤ◌, entry_hit, entry_count, same_priority, same_priority-eq,
  same_priority_refl, op_eq-true, op_eq_refl,
}

-- The jobs of a line that are not DeepEqual to `rc`.
abbrev pub without : BlockOp → List Entry → List Entry
without rc [] = []
without rc (e ∷ js) = if op_eq e.0 rc then without rc js else e ∷ without rc js

entry-found :
    (eq : BlockOp → ℤ → Bool) (js : List Entry)
    → 0 < entry_count eq js
    → (front : List Entry) × (e : Entry) × (back : List Entry) × (js ≡ front ++ e ∷ back)
      × (eq e.0 e.1 ≡ true)
entry-found eq [] more = absurd (omega arith)
entry-found eq (x ∷ js) more = elim (Bool-cases (eq x.0 x.1)) [
  | inl here ↦ ([], x, js, refl, here)
  | inr other ↦
      let (front, e, back, whole, is) = entry-found eq js (ground arith) in
      (x ∷ front, e, back, ap (◌∷◌ x) whole, is)
]

All-cut :
    (P : Entry → Type 0) (front : List Entry) (e : Entry) (back : List Entry)
    → All P (front ++ e ∷ back)
    → All P (front ++ back)
All-cut P [] e back h = h.1
All-cut P (x ∷ front) e back h = (h.0, All-cut P front e back h.1)

IsLine-cut :
    (low : ℤ) (front : List Entry) (e : Entry) (back : List Entry)
    → IsLine low (front ++ e ∷ back)
    → IsLine low (front ++ back)
IsLine-cut low [] (b, p) back h = h.2
IsLine-cut low ((c, q) ∷ front) e back h =
    (h.0, All-cut (λ (x : Entry). x.1 <ℤ q) front e back h.1, IsLine-cut low front e back h.2)

entry_count-cut :
    (eq : BlockOp → ℤ → Bool) (front : List Entry) (e : Entry) (back : List Entry)
    → entry_count eq (front ++ e ∷ back) ≡ entry_hit eq e + entry_count eq (front ++ back)
entry_count-cut eq [] e back = refl
entry_count-cut eq (x ∷ front) e back = omega (arith, entry_count-cut eq front e back)

without-cut :
    (rc : BlockOp) (front : List Entry) (e : Entry) (back : List Entry)
    → op_eq e.0 rc ≡ true
    → without rc (front ++ e ∷ back) ≡ without rc (front ++ back)
without-cut rc [] e back is = rw is refl
without-cut rc (x ∷ front) e back is = rw (without-cut rc front e back is) refl

without-whole :
    (rc : BlockOp) (js : List Entry) → entry_count (λ v p. op_eq v rc) js ≡ 0 → without rc js ≡ js
without-whole rc [] h = refl
without-whole rc (e ∷ js) h = elim (Bool-cases (op_eq e.0 rc)) [
  | inl is ↦ absurd (ground arith)
  | inr other ↦ rw other (ap (◌∷◌ e) (without-whole rc js (ground arith)))
]

count_by-at :
    (eq : BlockOp → ℤ → Bool) (jobs : List (Item BlockOp)) (i : ℕ) (item : Item BlockOp)
    → get_elem? jobs i ≡ some item
    → eq item.value item.priority ≡ true
    → 0 < count_by eq jobs
count_by-at eq [] i item there is = absurd (ground arith)
count_by-at eq (x ∷ jobs) zero item there is = ground arith
count_by-at eq (x ∷ jobs) (suc i) item there is = omega (arith, count_by-at eq jobs i item there is)

-- heap.Remove takes one entry out of the line, that of the item at the place.
heap_remove-Lines :
    (jobs : List (Item BlockOp)) (i : ℕ) (item : Item BlockOp) (low : ℤ) (js : List Entry)
    → get_elem? jobs i ≡ some item
    → Lines jobs low js
    → (t : Takes jobs item (heap_remove jobs i)) × (front : List Entry) × (e : Entry) × (back : List
        Entry)
      × (js ≡ front ++ e ∷ back)
      × (e.0 ≡ item.value)
      × Lines t.rest low (front ++ back)
heap_remove-Lines jobs i item low js there l =
    let is_item = λ (v : BlockOp) (q : ℤ). same_priority q item.priority && op_eq v item.value in
    let (t, kept) = heap_remove-IsHeap jobs i item there l.heap in
    let self : is_item item.value item.priority ≡ true =
      ground (arith, op_eq_refl item.value, same_priority_refl item.priority) in
    let present_there = count_by-at is_item jobs i item there self in
    let (front, e, back, whole, is) =
      entry-found is_item js (omega (arith, present_there, l.counts is_item)) in
    let value : e.0 ≡ item.value = op_eq-true e.0 item.value (ground arith) in
    let priority : e.1 ≡ item.priority = same_priority-eq e.1 item.priority (ground arith) in
    (
      t,
      front,
      e,
      back,
      whole,
      value,
      record {
        heap = kept;
        indexed = t.indexed l.indexed;
        line = IsLine-cut low front e back (subst (IsLine low) whole l.line);
        counts = λ eq.
            let out : hit_by eq item ≡ entry_hit eq e =
              ap₂ (λ v q. if eq v q then 1 else 0) (sym value) (sym priority) in
            let all : count_by eq jobs ≡ entry_count eq (front ++ e ∷ back) =
              l.counts eq ∙ ap (entry_count eq) whole in
            omega (arith, t.counts eq, all, out, entry_count-cut eq front e back);
      },
    )

pub remove_job-Lines :
    (fuel : ℕ) (jobs : List (Item BlockOp)) (rc : BlockOp) (low : ℤ) (js : List Entry)
    → count (λ job. op_eq job rc) jobs < fuel
    → Lines jobs low js
    → (rest : List (Item BlockOp)) × (remove_job fuel jobs rc ≡ some rest)
      × Lines rest low (without rc js)
unfolding remove_job
remove_job-Lines zero jobs rc low js enough l = absurd (omega arith)
remove_job-Lines (suc fuel) jobs rc low js enough l = elim (job_exists-cases jobs rc l.indexed) [
  | inl (gone, nowhere) ↦
      let none_left = sym (l.counts (on_value (λ job. op_eq job rc))) ∙ gone in
      (jobs, ground arith, subst (Lines jobs low) (sym (without-whole rc js none_left)) l)
  | inr (i, item, found, there, same) ↦
      let (t, front, e, back, whole, value, l') = heap_remove-Lines jobs i item low js there l in
      let mine = t.counts (on_value (λ job. op_eq job rc)) in
      let one : hit (λ job. op_eq job rc) item ≡ 1 = ground arith in
      let (rest, done, l'') =
        remove_job-Lines fuel t.rest rc low (front ++ back) (omega (arith, mine, one, enough)) l' in
      let is : op_eq e.0 rc ≡ true = rw value same in
      let shorter = ap (without rc) whole ∙ without-cut rc front e back is in
      (rest, ground (arith, t.taken), subst (Lines rest low) (sym shorter) l'')
]
