-- ===== src/DataStruct/PriorityQueue/Removal.antt =====
-- `heap.Push`, `heap.Pop` and `heap.Remove`: what comes in and what goes out.
use blockafile.Base.{
  ℕ, zero, suc, ◌+◌, ◌-◌, ◌≤◌, ◌<◌, ◌≡◌, refl, sym, ap, subst, ◌∙◌, inl, inr, Bool, Option, none,
  some, List, [], ◌∷◌, ◌++◌, arith, ltb, ◌==◌, if◌then◌else◌, length, length-append, take,
  get_elem?, Bool-cases,
}
use blockafile.Base.Int.{ℤ}
use blockafile.DataStruct.PriorityQueue.{
  Item, placed, swap, push, pop, settled, heap_push, heap_pop, heap_remove,
}
use blockafile.DataStruct.PriorityQueue.Moves.{
  Moved, Moved-trans, IsIndexed, count_by, hit_by, get_elem?_there, get_elem?_low, get_elem?-second,
}
use blockafile.DataStruct.PriorityQueue.Loops.{swap-Moved, heap_up-Ends, heap_down-Ends}

length-take_pred : {A : Type 0} (n : ℕ) (xs : List A) → length xs ≡ n + 1 → length (take n xs) ≡ n
length-take_pred zero xs h = refl
length-take_pred (suc n) [] h = absurd (omega (arith, h))
length-take_pred (suc n) (x ∷ xs) h = ap suc (length-take_pred n xs (omega (arith, h)))

get_elem?-take :
    {A : Type 0} (n k : ℕ) (xs : List A) (a : A)
    → get_elem? (take n xs) k ≡ some a
    → get_elem? xs k ≡ some a
get_elem?-take zero k xs a h = absurd (ground arith)
get_elem?-take (suc n) k [] a h = absurd (ground arith)
get_elem?-take (suc n) zero (x ∷ xs) a h = h
get_elem?-take (suc n) (suc k) (x ∷ xs) a h = get_elem?-take n k xs a h

pub get_elem?-append_last :
    {A : Type 0} (xs : List A) (x : A) (k : ℕ)
    → get_elem? (xs ++ x ∷ []) k ≡ (if k == length xs then some x else get_elem? xs k)
get_elem?-append_last [] x zero = refl
get_elem?-append_last [] x (suc k) = ground arith
get_elem?-append_last (y ∷ xs) x zero = ground arith
get_elem?-append_last (y ∷ xs) x (suc k) = ground (arith, get_elem?-append_last xs x k)

module _ {V : Type 0} where
  -- `item` is taken out of `pq`; the others stay, and hold their places.
  pub record Takes (pq : List (Item V)) (item : Item V) (r : Option (Item V × List (Item V)))
      : Type 0 where
    pub out : Item V
    pub rest : List (Item V)
    pub taken : r ≡ some (out, rest)
    pub same_value : out.value ≡ item.value
    pub same_priority : out.priority ≡ item.priority
    pub size : length rest + 1 ≡ length pq
    pub counts : (eq : V → ℤ → Bool) → count_by eq rest + hit_by eq item ≡ count_by eq pq
    pub indexed : IsIndexed pq → IsIndexed rest

  count-take :
      (eq : V → ℤ → Bool) (n : ℕ) (pq : List (Item V)) (item : Item V)
      → length pq ≡ n + 1
      → get_elem? pq n ≡ some item
      → count_by eq (take n pq) + hit_by eq item ≡ count_by eq pq
  count-take eq n [] item h e = absurd (omega (arith, h))
  count-take eq zero (x ∷ []) item h e =
      let same : hit_by eq x ≡ hit_by eq item = ground arith in omega (arith, same)
  count-take eq zero (x ∷ y ∷ pq) item h e = absurd (omega (arith, h))
  count-take eq (suc n) (x ∷ pq) item h e =
      omega (arith, count-take eq n pq item (omega (arith, h)) e)

  pop-Takes :
      (n : ℕ) (pq : List (Item V)) (item : Item V)
      → length pq ≡ n + 1
      → get_elem? pq n ≡ some item
      → Takes pq item (pop pq)
  unfolding pop
  pop-Takes n pq item sized e =
      let last : length pq - 1 ≡ n = omega (arith, sized) in
      record {
        out = record item { index = none };
        rest = take n pq;
        taken = ground arith;
        same_value = refl;
        same_priority = refl;
        size = omega (arith, length-take_pred n pq sized, sized);
        counts = λ eq. count-take eq n pq item sized e;
        indexed = λ h k a there. h k a (get_elem?-take n k pq a there);
      }

  -- A queue moved below the last item has the same item at the end.
  Moved-Takes :
      (n : ℕ) (pq moved : List (Item V)) (item : Item V)
      → length pq ≡ n + 1
      → get_elem? pq n ≡ some item
      → Moved n pq moved
      → Takes pq item (pop moved)
  Moved-Takes n pq moved item sized e m =
      let t = pop-Takes n moved item (m.size ∙ sized) (m.others n (omega arith) ∙ e) in
      record {
        out = t.out;
        rest = t.rest;
        taken = t.taken;
        same_value = t.same_value;
        same_priority = t.same_priority;
        size = t.size ∙ m.size;
        counts = λ eq. t.counts eq ∙ m.counts eq;
        indexed = λ h. t.indexed (m.indexed h);
      }

  pub settled-Moved :
      (i n : ℕ) (pq : List (Item V))
      → i < n
      → n < length pq
      → (pq' : List (Item V)) × (settled pq i n ≡ some pq') × Moved n pq pq'
  settled-Moved i n pq low all =
      let (pq', k, ended, moved) =
        heap_down-Ends (length pq) n pq i (omega arith) (omega arith) (omega arith) in
      let (pq'', j, back, more) =
        heap_up-Ends (i + 1) n pq' i (omega arith) low (omega (arith, moved.size)) in
      elim (Bool-cases (ltb i k)) [
        | inl fell ↦ (pq', ground arith, moved)
        | inr stayed ↦ (pq'', ground arith, Moved-trans n pq pq' pq'' moved more)
      ]

  swapped_last :
      (i n : ℕ) (pq pq' : List (Item V)) (item : Item V)
      → i ≤ n
      → length pq ≡ n + 1
      → get_elem? pq i ≡ some item
      → swap pq i n ≡ some pq'
      → get_elem? pq' n ≡ some (placed n item)
  unfolding swap
  swapped_last i n pq pq' item low sized e swapped =
      let (last, there) = get_elem?_there pq n (omega (arith, sized)) in
      let end =
        get_elem?-second (n + 1) pq i n item last e there (omega arith) (omega arith)
          (omega (arith, sized)) n in
      ground arith

  -- heap.Remove of a place in range takes the item there out of the queue.
  pub heap_remove-Takes :
      (pq : List (Item V)) (i : ℕ) (item : Item V)
      → get_elem? pq i ≡ some item
      → Takes pq item (heap_remove pq i)
  unfolding heap_remove
  heap_remove-Takes pq i item e =
      let low = get_elem?_low pq i item e in
      let n = length pq - 1 in
      let sized : length pq ≡ n + 1 = omega (arith, low) in
      elim (Bool-cases (n == i)) [
        | inl last ↦
            let same : n ≡ i = ground arith in
            rw last
              (pop-Takes n pq item sized (subst (λ k. get_elem? pq k ≡ some item) (sym same) e))
        | inr inner ↦
            let before : i < n = ground arith in
            let (pq', swapped, moved) =
              swap-Moved (n + 1) pq i n (omega arith) (omega arith) (omega (arith, sized)) in
            let (pq'', done, more) =
              settled-Moved i n pq' before (omega (arith, moved.size, sized)) in
            let at_end = swapped_last i n pq pq' item (omega arith) sized e swapped in
            let t = Moved-Takes n pq' pq'' (placed n item) (moved.size ∙ sized) at_end more in
            record {
              out = t.out;
              rest = t.rest;
              taken = ground (arith, t.taken);
              same_value = t.same_value;
              same_priority = t.same_priority;
              size = t.size ∙ moved.size;
              counts = λ eq. t.counts eq ∙ moved.counts eq;
              indexed = λ h. t.indexed (moved.indexed h);
            }
      ]

  -- heap.Pop of a queue that is not empty takes its first item out.
  pub heap_pop-Takes :
      (pq : List (Item V)) (item : Item V)
      → get_elem? pq 0 ≡ some item
      → Takes pq item (heap_pop pq)
  unfolding heap_pop
  heap_pop-Takes pq item e =
      let low = get_elem?_low pq 0 item e in
      let n = length pq - 1 in
      let sized : length pq ≡ n + 1 = omega (arith, low) in
      let (pq', swapped, moved) =
        swap-Moved (n + 1) pq 0 n (omega arith) (omega arith) (omega (arith, sized)) in
      let (pq'', k, ended, more) =
        heap_down-Ends (length pq) n pq' 0 (omega arith) (omega arith)
          (omega (arith, moved.size)) in
      let at_end = swapped_last 0 n pq pq' item (omega arith) sized e swapped in
      let t = Moved-Takes n pq' pq'' (placed n item) (moved.size ∙ sized) at_end more in
      record {
        out = t.out;
        rest = t.rest;
        taken = ground (arith, t.taken);
        same_value = t.same_value;
        same_priority = t.same_priority;
        size = t.size ∙ moved.size;
        counts = λ eq. t.counts eq ∙ moved.counts eq;
        indexed = λ h. t.indexed (moved.indexed h);
      }

  count-append :
      (eq : V → ℤ → Bool) (pq : List (Item V)) (item : Item V)
      → count_by eq (pq ++ item ∷ []) ≡ count_by eq pq + hit_by eq item
  count-append eq [] item = omega arith
  count-append eq (x ∷ pq) item = omega (arith, count-append eq pq item)

  -- `item` is in `pq'` beside what `pq` has.
  pub record Adds (pq : List (Item V)) (item : Item V) (r : Option (List (Item V))) : Type 0 where
    pub after : List (Item V)
    pub made : r ≡ some after
    pub size : length after ≡ length pq + 1
    pub counts : (eq : V → ℤ → Bool) → count_by eq after ≡ count_by eq pq + hit_by eq item
    pub indexed : IsIndexed pq → IsIndexed after

  pub heap_push-Adds : (pq : List (Item V)) (item : Item V) → Adds pq item (heap_push pq item)
  unfolding heap_push push
  heap_push-Adds pq item =
      let n = length pq in
      let last = placed n item in
      let longer : length (push pq item) ≡ n + 1 = length-append pq (last ∷ []) in
      let (pq', k, ended, moved) =
        heap_up-Ends (n + 1) (n + 1) (push pq item) n (omega arith) (omega arith)
          (omega (arith, longer)) in
      record {
        after = pq';
        made = ground arith;
        size = moved.size ∙ longer;
        counts = λ eq. moved.counts eq ∙ count-append eq pq last;
        indexed =
            λ h. moved.indexed (λ j a e. ground (arith, get_elem?-append_last pq last j, h j a));
      }
