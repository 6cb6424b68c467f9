-- ===== src/Calculators/Fifo.antt =====
-- The job set as a queue: jobs are taken for a block in the order in which they were added.
use blockafile.Base.{
  ℕ, suc, ◌+◌, ◌<◌, ◌≡◌, refl, sym, ap, ap₂, subst, ◌∙◌, inl, inr, Bool, true, false, ◌&&◌, Option,
  none, some, List, [], ◌∷◌, ◌++◌, arith, get_elem?, Bool-cases, bytes_eq_iff, bytes_eq_refl,
  if◌then◌else◌, All,
}
use blockafile.Base.Int.{ℤ, pos, pos_part, neg_part, ◌≤ℤ◌, leb_ℤ, ◌-ℤ◌, -ℤ_parts, eq_of_parts}
use blockafile.Crypto.Block.{BlockOp}
use blockafile.DataStruct.PriorityQueue.{Item, heap_pop}
use blockafile.DataStruct.PriorityQueue.Moves.{IsIndexed, count_by, hit_by, get_elem?_low}
use blockafile.DataStruct.PriorityQueue.Heaps.{key}
use blockafile.DataStruct.PriorityQueue.Highest.{IsHeap, heap_pop-Highest}
use blockafile.Calculators.{op_eq}
use blockafile.Calculators.Jobs.{op_type_eq-true, op_type_eq_refl}

-- A job and the priority that it was given.
abbrev pub Entry : Type 0
Entry = BlockOp × ℤ

infix 50 ◌<ℤ◌
abbrev pub ◌<ℤ◌ : ℤ → ℤ → Type 0
a <ℤ b = pos_part a + neg_part b < pos_part b + neg_part a

-- The priorities fall from one entry to the next, and stay above `low`.
abbrev pub IsLine : ℤ → List Entry → Type 0
IsLine low [] = Unit
IsLine low ((b, p) ∷ js) = (low <ℤ p) × All (λ (e : Entry). e.1 <ℤ p) js × IsLine low js

abbrev pub entry_hit : (BlockOp → ℤ → Bool) → Entry → ℕ
entry_hit eq e = if eq e.0 e.1 then 1 else 0

abbrev pub entry_count : (BlockOp → ℤ → Bool) → List Entry → ℕ
entry_count eq [] = 0
entry_count eq (e ∷ js) = entry_hit eq e + entry_count eq js

-- The heap `jobs` holds the entries `js`, whose priorities are those of their order.
pub record Lines (jobs : List (Item BlockOp)) (low : ℤ) (js : List Entry) : Type 0 where
  pub heap : IsHeap jobs
  pub indexed : IsIndexed jobs
  pub line : IsLine low js
  pub counts : (eq : BlockOp → ℤ → Bool) → count_by eq jobs ≡ entry_count eq js

abbrev pub same_priority : ℤ → ℤ → Bool
same_priority p q = leb_ℤ p q && leb_ℤ q p

pub same_priority-eq : (p q : ℤ) → same_priority p q ≡ true → p ≡ q
same_priority-eq p q h = eq_of_parts p q (ground arith)

pub same_priority_refl : (p : ℤ) → same_priority p p ≡ true
same_priority_refl p = ground arith

-- A positive count has an item behind it, and an entry.
count_by-found :
    (eq : BlockOp → ℤ → Bool) (jobs : List (Item BlockOp))
    → 0 < count_by eq jobs
    → (k : ℕ) × (a : Item BlockOp) × (get_elem? jobs k ≡ some a) × (eq a.value a.priority ≡ true)
count_by-found eq [] more = absurd (omega arith)
count_by-found eq (x ∷ jobs) more = elim (Bool-cases (eq x.value x.priority)) [
  | inl here ↦ (0, x, refl, here)
  | inr other ↦ let (k, a, at, is) = count_by-found eq jobs (ground arith) in (suc k, a, at, is)
]

entry_count-zero :
    (eq : BlockOp → ℤ → Bool) (js : List Entry)
    → All (λ (e : Entry). eq e.0 e.1 ≡ false) js
    → entry_count eq js ≡ 0
entry_count-zero eq [] none_is = refl
entry_count-zero eq (e ∷ js) none_is = ground (arith, entry_count-zero eq js none_is.1)

All-map :
    {A : Type 0} (P Q : A → Type 0) (xs : List A) → ((x : A) → P x → Q x) → All P xs → All Q xs
All-map P Q [] f h = tt
All-map P Q (x ∷ xs) f h = (f x h.0, All-map P Q xs f h.1)

pub entry_count-append :
    (eq : BlockOp → ℤ → Bool) (js : List Entry) (e : Entry)
    → entry_count eq (js ++ e ∷ []) ≡ entry_count eq js + entry_hit eq e
entry_count-append eq [] e = omega arith
entry_count-append eq (x ∷ js) e = omega (arith, entry_count-append eq js e)

All-last :
    {A : Type 0} (P : A → Type 0) (xs : List A) (x : A) → All P xs → P x → All P (xs ++ x ∷ [])
All-last P [] x h k = (k, tt)
All-last P (y ∷ xs) x h k = (h.0, All-last P xs x h.1 k)

-- A job is added at the end, with the counter as its priority.
pub IsLine-last :
    (low : ℤ) (js : List Entry) (b : BlockOp)
    → IsLine low js
    → IsLine (low -ℤ pos 1) (js ++ (b, low) ∷ [])
IsLine-last low [] b h = (omega (arith, -ℤ_parts low (pos 1)), tt, tt)
IsLine-last low ((c, p) ∷ js) b (above, below, rest) = (
  omega (arith, -ℤ_parts low (pos 1)),
  All-last _ js (b, low) below above,
  IsLine-last low js b rest,
)

pub op_eq-true : (a b : BlockOp) → op_eq a b ≡ true → a ≡ b
unfolding op_eq
op_eq-true a b h =
    let ty : a.op_type ≡ b.op_type = op_type_eq-true a.op_type b.op_type (ground arith) in
    let creator : a.creator ≡ b.creator = ground (arith, bytes_eq_iff a.creator b.creator) in
    let filename : a.filename ≡ b.filename = ground (arith, bytes_eq_iff a.filename b.filename) in
    let bytes : a.data_bytes ≡ b.data_bytes =
      ground (arith, bytes_eq_iff a.data_bytes b.data_bytes) in
    let number : a.record_number ≡ b.record_number = ground arith in cc

pub op_eq_refl : (a : BlockOp) → op_eq a a ≡ true
unfolding op_eq
op_eq_refl a = ground (
  arith,
  op_type_eq_refl a.op_type,
  bytes_eq_refl a.creator,
  bytes_eq_refl a.filename,
  bytes_eq_refl a.data_bytes,
)

abbrev key_of : Option (Item BlockOp) → ℤ
key_of o = elim o [ none ↦ pos 0 | some a ↦ a.priority ]

module _ (x : Item BlockOp) (jobs : List (Item BlockOp)) (low : ℤ) (b : BlockOp) (p : ℤ)
    (js : List Entry) (l : Lines (x ∷ jobs) low ((b, p) ∷ js)) where
  abbrev is_x : BlockOp → ℤ → Bool
  is_x v q = same_priority q x.priority && op_eq v x.value

  -- The first item of the heap is no lower than the first entry.
  first-high : p ≤ℤ x.priority
  first-high =
      let is_p = λ (v : BlockOp) (q : ℤ). same_priority q p in
      let hit : entry_hit is_p (b, p) ≡ 1 = rw (same_priority_refl p) refl in
      let (k, a, at, is) = count_by-found is_p (x ∷ jobs) (omega (arith, l.counts is_p, hit)) in
      let low_k = get_elem?_low (x ∷ jobs) k a at in
      let (t, kept, top) = heap_pop-Highest (x ∷ jobs) x l.heap refl in
      let at_k : key (x ∷ jobs) k ≡ a.priority = ap (λ o. key_of o) at in
      let is_a : key (x ∷ jobs) k ≡ p = at_k ∙ same_priority-eq a.priority p is in
      subst (λ q. q ≤ℤ x.priority) is_a (top k low_k)

  apart : (e : Entry) → e.1 <ℤ p → is_x e.0 e.1 ≡ false
  apart e under = ground (arith, first-high)

  -- The first item of the heap is the first entry.
  first-is : (x.value ≡ b) × (x.priority ≡ p)
  first-is = elim (Bool-cases (is_x b p)) [
    | inl same ↦ (
      sym (op_eq-true b x.value (ground arith)),
      sym (same_priority-eq p x.priority (ground arith)),
    )
    | inr other ↦
        let nowhere =
          entry_count-zero is_x js (All-map _ _ js (λ e under. apart e under) l.line.1) in
        let one : hit_by is_x x ≡ 1 = ground (arith, op_eq_refl x.value) in
        let zero_hit : entry_hit is_x (b, p) ≡ 0 = rw other refl in
        absurd (omega (arith, l.counts is_x, nowhere, one, zero_hit))
  ]

  -- heap.Pop takes the first entry, and leaves the others.
  pub heap_pop-Lines :
      (out : Item BlockOp) × (rest : List (Item BlockOp)) × (heap_pop (x ∷ jobs) ≡ some (out, rest))
      × (out.value ≡ b)
      × Lines rest low js
  heap_pop-Lines =
      let (t, kept, top) = heap_pop-Highest (x ∷ jobs) x l.heap refl in
      let (value, priority) = first-is in
      (
        t.out,
        t.rest,
        t.taken,
        t.same_value ∙ value,
        record {
          heap = kept;
          indexed = t.indexed l.indexed;
          line = l.line.2;
          counts = λ eq.
              let hit : hit_by eq x ≡ entry_hit eq (b, p) =
                ap₂ (λ v q. if eq v q then 1 else 0) value priority in
              omega (arith, t.counts eq, l.counts eq, hit);
        },
      )
