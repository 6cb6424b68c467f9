-- ===== src/Client/Prints.antt =====
-- What the commands print of a file.
use blockafile.Base.{
  ℕ, zero, suc, ◌+◌, ◌-◌, ◌≤◌, ◌≡◌, refl, sym, ap, subst, ◌∙◌, inl, inr, some, List, [], ◌∷◌, Bytes,
  arith, ltb, length, take, drop, get_elem?, Bool-cases,
}
use blockafile.Base.Int.{ℤ, pos, pos_part, int64, ◌-ℤ◌}
use blockafile.Base.Result.{Result, ok}
use blockafile.Rfs.{RfsError}
use blockafile.Client.{RecordFiles, finished, print_below, to_uint16, cat, head, tail}

-- The library has the file, with these records.
abbrev pub Has : RecordFiles → Bytes → List Bytes → Type 0
Has rfs fname rs =
    (rfs.total_recs fname ≡ ok (length rs))
    × ((i : ℕ) (r : Bytes) → get_elem? rs i ≡ some r → rfs.read_rec fname i ≡ ok r)

take-nil : (n : ℕ) → take {A = Bytes} n [] ≡ []
take-nil zero = refl
take-nil (suc n) = refl

print_below-take :
    (read : ℕ → Result RfsError Bytes) (bound : ℕ) (rs : List Bytes) (i : ℕ)
    → ((k : ℕ) (r : Bytes) → get_elem? rs k ≡ some r → read (i + k) ≡ ok r)
    → print_below read bound (length rs) i ≡ (take (bound - i) rs, finished)
unfolding print_below
print_below-take read bound [] i h =
    ap (λ (xs : List Bytes). (xs, finished)) (sym (take-nil (bound - i)))
print_below-take read bound (r ∷ rs) i h =
    let next : (k : ℕ) → i + suc k ≡ i + 1 + k = λ k. omega arith in
    let rest =
      print_below-take read bound rs (i + 1)
        (λ k x e. subst (λ j. read j ≡ ok x) (next k) (h (suc k) x e)) in
    let here : read i ≡ ok r = subst (λ j. read j ≡ ok r) (omega arith) (h 0 r refl) in
    elim (Bool-cases (ltb i bound)) [
      | inl low ↦ let more : bound - i ≡ suc (bound - (i + 1)) = ground arith in ground arith
      | inr past ↦
          let none_left : bound - i ≡ 0 = ground arith in
          let none_later : bound - (i + 1) ≡ 0 = ground arith in ground arith
    ]

take-whole : (xs : List Bytes) (n : ℕ) → length xs ≤ n → take n xs ≡ xs
take-whole [] n h = take-nil n
take-whole (x ∷ xs) zero h = absurd (omega arith)
take-whole (x ∷ xs) (suc n) h = ap (◌∷◌ x) (take-whole xs n (omega arith))

length-drop : (n : ℕ) (xs : List Bytes) → length (drop n xs) ≡ length xs - n
length-drop zero xs = omega arith
length-drop (suc n) [] = omega arith
length-drop (suc n) (x ∷ xs) = omega (arith, length-drop n xs)

get_elem?-drop : (n k : ℕ) (xs : List Bytes) → get_elem? (drop n xs) k ≡ get_elem? xs (n + k)
get_elem?-drop zero k xs = ap (get_elem? xs) (omega arith)
get_elem?-drop (suc n) k [] = refl
get_elem?-drop (suc n) k (x ∷ xs) =
    let one : suc n + k ≡ suc (n + k) = omega arith in rw one (get_elem?-drop n k xs)

module _ (rfs : RecordFiles) (fname : Bytes) (rs : List Bytes) (has : Has rfs fname rs) where
  head-prints :
      (bound : ℕ) → print_below (rfs.read_rec fname) bound (length rs) 0 ≡ (take bound rs, finished)
  head-prints bound =
      let same : bound - 0 ≡ bound = omega arith in
      print_below-take (rfs.read_rec fname) bound rs 0
        (λ k r e. subst (λ j. rfs.read_rec fname j ≡ ok r) (omega arith) (has.1 k r e))
      ∙ ap (λ m. (take m rs, finished)) same

  tail-prints :
      (first : ℕ)
      → print_below (rfs.read_rec fname) (length rs) (length rs - first) first
        ≡ (drop first rs, finished)
  tail-prints first =
      let size = length-drop first rs in
      let run =
        print_below-take (rfs.read_rec fname) (length rs) (drop first rs) first
          (λ k r e. has.1 (first + k) r (sym (get_elem?-drop first k rs) ∙ e)) in
      let whole = take-whole (drop first rs) (length rs - first) (omega (arith, size)) in
      subst (λ m. print_below (rfs.read_rec fname) (length rs) m first ≡ (drop first rs, finished))
        size (run ∙ ap (λ (xs : List Bytes). (xs, finished)) whole)

  -- If the library has the file with the records rs, then cat prints rs, head prints the first
  -- k records of rs for k taken as a uint16, and tail prints rs without its first n - k records,
  -- n being their number and n - k the difference as an int of 64 bits, which wraps around, or all
  -- of them if it is negative; each ends without an error.
  pub commands-print :
      (k : ℤ)
      → (cat rfs fname ≡ (rs, finished))
        × (head rfs fname k ≡ (take (to_uint16 k) rs, finished))
        × (tail rfs fname k ≡ (drop (pos_part (int64 (pos (length rs) -ℤ k))) rs, finished))
  unfolding cat head tail
  commands-print k = (
    rw has.0 (
        head-prints (length rs)
        ∙ ap (λ (xs : List Bytes). (xs, finished)) (take-whole rs (length rs) (omega arith))),
    rw has.0 (head-prints (to_uint16 k)),
    rw has.0 (tail-prints (pos_part (int64 (pos (length rs) -ℤ k)))),
  )
