-- ===== src/Client/Addresses.antt =====
-- client/*.go, the file `.rfs` with the addresses, read back.
use blockafile.Base.{ℕ, ◌≡◌, ap, refl, ◌∙◌, false, some, [], ◌∷◌, ◌++◌, Bytes, ◌==◌, All}
use blockafile.Client.Commands.{
  newline, trim_newline, split_lines, first_two, get_local_miner_ip_addresses,
}

split_lines-last : (b : Bytes) → All (λ c. (c == newline) ≡ false) b → split_lines b ≡ b ∷ []
unfolding split_lines
split_lines-last [] plain = refl
split_lines-last (c ∷ b) plain = rw (plain.0, split_lines-last b plain.1) refl

split_lines-first :
    (a s : Bytes)
    → All (λ c. (c == newline) ≡ false) a
    → split_lines (a ++ newline ∷ s) ≡ a ∷ split_lines s
unfolding split_lines
split_lines-first [] s plain = refl
split_lines-first (c ∷ a) s plain = rw (plain.0, split_lines-first a s plain.1) refl

trim_newline-plain :
    (d : ℕ) (b : Bytes) → All (λ c. (c == newline) ≡ false) (d ∷ b) → trim_newline (d ∷ b) ≡ d ∷ b
unfolding trim_newline
trim_newline-plain d [] plain = rw plain.0 refl
trim_newline-plain d (e ∷ b) plain = ap (◌∷◌ d) (trim_newline-plain e b plain.1)

trim_newline-kept :
    (s : Bytes) (d : ℕ) (b : Bytes)
    → trim_newline (d ∷ b) ≡ d ∷ b
    → trim_newline (s ++ d ∷ b) ≡ s ++ d ∷ b
unfolding trim_newline
trim_newline-kept [] d b h = h
trim_newline-kept (x ∷ []) d b h = ap (◌∷◌ x) h
trim_newline-kept (x ∷ y ∷ s) d b h = ap (◌∷◌ x) (trim_newline-kept (y ∷ s) d b h)

trim_newline-cut : (s : Bytes) → trim_newline (s ++ newline ∷ []) ≡ s
unfolding trim_newline
trim_newline-cut [] = refl
trim_newline-cut (d ∷ []) = refl
trim_newline-cut (d ∷ e ∷ s) = ap (◌∷◌ d) (trim_newline-cut (e ∷ s))

trim_newline-line :
    (d : ℕ) (b : Bytes)
    → All (λ c. (c == newline) ≡ false) (d ∷ b)
    → trim_newline (newline ∷ d ∷ b) ≡ newline ∷ d ∷ b
unfolding trim_newline
trim_newline-line d b plain = ap (◌∷◌ newline) (trim_newline-plain d b plain)

-- A file of two addresses, one on each line, the second of which is not empty and neither of which
-- has a newline in it, is read as the two addresses, whether its last line ends in a newline or not.
pub get_local_miner_ip_addresses-lines :
    (a : Bytes) (d : ℕ) (b : Bytes)
    → All (λ c. (c == newline) ≡ false) a
    → All (λ c. (c == newline) ≡ false) (d ∷ b)
    → let whole = a ++ newline ∷ d ∷ b in
      (get_local_miner_ip_addresses whole ≡ some (a, d ∷ b))
      × (get_local_miner_ip_addresses (whole ++ newline ∷ []) ≡ some (a, d ∷ b))
unfolding get_local_miner_ip_addresses
get_local_miner_ip_addresses-lines a d b plain plain' =
    let read = λ (s : Bytes). first_two (split_lines s) in
    let whole = a ++ newline ∷ d ∷ b in
    let lines : read whole ≡ some (a, d ∷ b) =
      ap first_two
        (split_lines-first a (d ∷ b) plain ∙ ap (◌∷◌ a) (split_lines-last (d ∷ b) plain')) in
    let kept = trim_newline-kept a newline (d ∷ b) (trim_newline-line d b plain') in
    (ap read kept ∙ lines, ap read (trim_newline-cut whole) ∙ lines)
