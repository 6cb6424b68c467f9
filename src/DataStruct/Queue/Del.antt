-- ===== src/DataStruct/Queue/Del.antt =====
-- `Del` takes one matching element out of a queue, and leaves the others.
use mathlib.Core.List.{append-nil, perm_middle, reverse_perm}
use mathlib.Core.List.Perm
use blockafile.Base.{
  ℕ, suc, ◌+◌, ◌≡◌, refl, ap, inl, inr, Bool, true, false, Option, none, some, List, [], ◌∷◌, ◌++◌,
  reverse, arith, length, drop, All, Bool-cases, Option-cases, length-append, take_append_left,
  get_elem?, ◌∙◌,
}
use blockafile.DataStruct.Queue.{Queue, index_of, splice, del, matched, contents}
use mathlib.Core.List.{Perm}

module _ {A : Type 0} (eq : A → Bool) where
  -- `arr` is `front`, then the match `x`, then `back`.
  record Split (arr : List A) (i : ℕ) : Type 0 where
    front : List A
    found : A
    back : List A
    whole : arr ≡ front ++ found ∷ back
    place : i ≡ length front
    matches : eq found ≡ true

  abbrev Indexed : ℕ → List A → Option ℕ → Type 0
  Indexed k arr none = All (λ x. eq x ≡ false) arr
  Indexed k arr (some i) = (j : ℕ) × (i ≡ k + j) × Split arr j

  cons-Indexed :
      (k : ℕ) (x : A) (arr : List A) (r : Option ℕ)
      → eq x ≡ false
      → Indexed (suc k) arr r
      → Indexed k (x ∷ arr) r
  cons-Indexed k x arr none e h = (e, h)
  cons-Indexed k x arr (some i) e (j, at, s) = (
    suc j,
    omega arith,
    record {
      front = x ∷ s.front;
      found = s.found;
      back = s.back;
      whole = ap (◌∷◌ x) s.whole;
      place = ap suc s.place;
      matches = s.matches;
    },
  )

  index_of-Indexed : (k : ℕ) (arr : List A) → Indexed k arr (index_of eq k arr)
  unfolding index_of
  index_of-Indexed k [] = tt
  index_of-Indexed k (x ∷ arr) = elim (Bool-cases (eq x)) [
    | inl e ↦ rw e (
      0,
      omega arith,
      record { front = []; found = x; back = arr; whole = refl; place = refl; matches = e },
    )
    | inr e ↦ rw e (cons-Indexed k x arr _ e (index_of-Indexed (suc k) arr))
  ]

  drop-split :
      (front : List A) (x : A) (back : List A) → drop (length front + 1) (front ++ x ∷ back) ≡ back
  drop-split front x back = rw (length-front front) (go front)
    where
      length-front : (xs : List A) → length xs + 1 ≡ suc (length xs)
      length-front xs = omega arith

      go : (xs : List A) → drop (suc (length xs)) (xs ++ x ∷ back) ≡ back
      go = elim [ [] ↦ refl | y ∷ (ys → ih) ↦ ih ]

  splice-split :
      (front : List A) (x : A) (back : List A)
      → splice (length front) (front ++ x ∷ back) ≡ front ++ back
  unfolding splice
  splice-split front x [] = ground (
    arith,
    length-append front (x ∷ []),
    take_append_left (length front) front (x ∷ []) refl,
    append-nil front,
  )
  splice-split front x (y ∷ back) = ground (
    arith,
    length-append front (x ∷ y ∷ back),
    take_append_left (length front) front (x ∷ y ∷ back) refl,
    drop-split front x (y ∷ back),
  )

  -- Taking the match out of a slice leaves the others.
  splice-Split : (arr : List A) (i : ℕ) (s : Split arr i) → Perm (s.found ∷ splice i arr) arr
  splice-Split arr i s =
      rw (s.place, s.whole, splice-split s.front s.found s.back)
        (Perm.symm (perm_middle s.front s.back))

  -- What `Del` answers: one match, which `matched` names, is gone and no other element is; or none
  -- matches.
  abbrev pub Removed : Queue A → Bool × Queue A → Type 0
  Removed q (true, q') =
      (x : A) × (matched eq q ≡ some x) × (eq x ≡ true) × Perm (x ∷ contents q') (contents q)
  Removed q (false, q') =
      (q' ≡ q) × All (λ x. eq x ≡ false) q.dequeued × All (λ x. eq x ≡ false) q.enqueued

  Split-get : {arr : List A} {i : ℕ} (s : Split arr i) → get_elem? arr i ≡ some s.found
  Split-get s = rw (s.whole, s.place) (go s.front)
    where
      go : (front : List A) → get_elem? (front ++ s.found ∷ s.back) (length front) ≡ some s.found
      go = elim [ [] ↦ refl | y ∷ (ys → ih) ↦ ih ]

  splice-dequeued :
      (q : Queue A) (i : ℕ)
      → matched eq q ≡ get_elem? q.dequeued i
      → Split q.dequeued i
      → Removed q (true, record q { dequeued = splice i q.dequeued })
  splice-dequeued q i m s =
      let turned = Perm.symm (reverse_perm q.dequeued) in
      let taken = Perm.trans (splice-Split q.dequeued i s) turned in
      let back = Perm.cons s.found (reverse_perm (splice i q.dequeued)) in
      (s.found, m ∙ Split-get s, s.matches, Perm.append_right q.enqueued (Perm.trans back taken))

  splice-enqueued :
      (q : Queue A) (i : ℕ)
      → matched eq q ≡ get_elem? q.enqueued i
      → Split q.enqueued i
      → Removed q (true, record q { enqueued = splice i q.enqueued })
  splice-enqueued q i m s =
      let front = reverse q.dequeued in
      let taken = Perm.append_left front (splice-Split q.enqueued i s) in
      (
        s.found,
        m ∙ Split-get s,
        s.matches,
        Perm.trans (Perm.symm (perm_middle front (splice i q.enqueued))) taken,
      )

  place-Split : (arr : List A) (i : ℕ) → Indexed 0 arr (some i) → Split arr i
  place-Split arr i (j, at, s) = let same : i ≡ j = omega arith in rw same s

  del-dequeued :
      (q : Queue A) (i : ℕ)
      → index_of eq 0 q.dequeued ≡ some i
      → del eq q ≡ (true, record q { dequeued = splice i q.dequeued })
  unfolding del
  del-dequeued q i e = ground arith

  del-enqueued :
      (q : Queue A) (i : ℕ)
      → index_of eq 0 q.dequeued ≡ none
      → index_of eq 0 q.enqueued ≡ some i
      → del eq q ≡ (true, record q { enqueued = splice i q.enqueued })
  unfolding del
  del-enqueued q i e e' = ground arith

  matched-dequeued :
      (q : Queue A) (i : ℕ)
      → index_of eq 0 q.dequeued ≡ some i
      → matched eq q ≡ get_elem? q.dequeued i
  unfolding matched
  matched-dequeued q i e = ground arith

  matched-enqueued :
      (q : Queue A) (i : ℕ)
      → index_of eq 0 q.dequeued ≡ none
      → index_of eq 0 q.enqueued ≡ some i
      → matched eq q ≡ get_elem? q.enqueued i
  unfolding matched
  matched-enqueued q i e e' = ground arith

  del-absent :
      (q : Queue A)
      → index_of eq 0 q.dequeued ≡ none
      → index_of eq 0 q.enqueued ≡ none
      → del eq q ≡ (false, q)
  unfolding del
  del-absent q e e' = ground arith

  -- `Del` returns true and takes out exactly one element, which matches, or it returns false, no
  -- element matches and the queue is as it was.
  pub del-Removed : (q : Queue A) → Removed q (del eq q)
  del-Removed q = elim (Option-cases (index_of eq 0 q.dequeued)) [
    | inr (i, e) ↦ rw (del-dequeued q i e) (
        splice-dequeued q i (matched-dequeued q i e)
          (place-Split q.dequeued i (rw e at (index_of-Indexed 0 q.dequeued))))
    | inl e ↦ elim (Option-cases (index_of eq 0 q.enqueued)) [
      | inr (i, e') ↦ rw (del-enqueued q i e e') (
          splice-enqueued q i (matched-enqueued q i e e')
            (place-Split q.enqueued i (rw e' at (index_of-Indexed 0 q.enqueued))))
      | inl e' ↦
          rw (del-absent q e e') (
            refl,
            rw e at (index_of-Indexed 0 q.dequeued),
            rw e' at (index_of-Indexed 0 q.enqueued),
          )
    ]
  ]
