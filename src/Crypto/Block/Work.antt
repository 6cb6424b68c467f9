-- ===== src/Crypto/Block/Work.antt =====
-- The proof of work: what `valid` tests, and what the search for a nonce returns.
use mathlib.Core.List.{append_assoc}
use blockafile.Base.{
  ℕ, zero, suc, ◌+◌, ◌-◌, ◌*◌, ◌%◌, ◌<◌, ◌≡◌, refl, sym, ap, subst, ◌∙◌, ◌↔◌, ◌⊎◌, inl, inr, Bool,
  true, false, ◌&&◌, Option, none, some, [], ◌∷◌, ◌++◌, Bytes, arith, All, Bool-cases, length,
  length-append, take_append_left, ◌==◌, if◌then◌else◌,
}
use Prim.Native.Nat.{bit_and}
use blockafile.Crypto.Block.{
  Block, serialize, serialize_ops, put_uint32, put_nonce, valid_from, valid_ser, valid,
  find_nonce_loop, find_nonce_with_stop_signal, find_nonce, get_zeros_for_type, uint32_size,
}

abbrev pub AreBytes : Bytes → Type 0
AreBytes = All (λ x. x < 256)

-- What `hexZeros` asks of a hash read from its last byte: a zero byte for each two, and, for one
-- that is left over, a byte whose low five bits are zero.
abbrev pub HasZeros : ℕ → Bytes → Type 0
HasZeros zero hash = Unit
HasZeros (suc zero) [] = Unit
HasZeros (suc zero) (x ∷ hash) = x % 32 ≡ 0
HasZeros (suc (suc n)) [] = Unit
HasZeros (suc (suc n)) (x ∷ hash) = (x ≡ 0) × HasZeros n hash

-- For every value of a byte, the mask of eight ones keeps it and that of five ones divides by 32.
abbrev masks_fit : ℕ → Bool
masks_fit x = bit_and x 255 == x && bit_and x 31 == x % 32

every_mask_fits : ℕ → Bool
every_mask_fits zero = true
every_mask_fits (suc x) = let below = every_mask_fits x in if masks_fit x then below else false

every_mask_fits_below :
    (bound x : ℕ) → every_mask_fits bound ≡ true → x < bound → masks_fit x ≡ true
unfolding every_mask_fits
every_mask_fits_below zero x h small = absurd (omega arith)
every_mask_fits_below (suc top) x h small = ground (arith, every_mask_fits_below top x)

byte_masks_fit : every_mask_fits 256 ≡ true
unfolding every_mask_fits
byte_masks_fit = refl

bit_and-byte : (x : ℕ) → x < 256 → (bit_and x 255 ≡ x) × (bit_and x 31 ≡ x % 32)
bit_and-byte x h = let fits = every_mask_fits_below 256 x byte_masks_fit h in ground arith

valid_from-zero : (hash : Bytes) → valid_from hash 0 ≡ true
unfolding valid_from
valid_from-zero [] = refl
valid_from-zero (x ∷ hash) = refl

valid_from-one : (x : ℕ) (hash : Bytes) → x < 256 → valid_from (x ∷ hash) (1 * 4) ≡ (x % 32 == 0)
unfolding valid_from
valid_from-one x hash h = ground (arith, valid_from-zero hash, bit_and-byte x h)

valid_from-two :
    (n x : ℕ) (hash : Bytes)
    → x < 256
    → valid_from (x ∷ hash) (suc (suc n) * 4) ≡ (if x == 0 then valid_from hash (n * 4) else false)
unfolding valid_from
valid_from-two n x hash h =
    let less : suc (suc n) * 4 - 8 ≡ n * 4 = omega arith in ground (arith, less, bit_and-byte x h)

-- The test of a hash of bytes for n hexadecimal zeros, read from its last byte, passes exactly if
-- there is a zero byte for each two and, for one left over, a byte whose low five bits are zero, as
-- far as the hash goes.
valid_from-HasZeros :
    (n : ℕ) (hash : Bytes) → AreBytes hash → (valid_from hash (n * 4) ≡ true) ↔ HasZeros n hash
valid_from-HasZeros zero hash h = (λ _. tt, λ _. valid_from-zero hash)
valid_from-HasZeros (suc zero) [] h = (λ _. tt, λ _. unfold valid_from in refl)
valid_from-HasZeros (suc zero) (x ∷ hash) h = rw (valid_from-one x hash h.0) (ground arith)
valid_from-HasZeros (suc (suc n)) [] h = (λ _. tt, λ _. unfold valid_from in refl)
valid_from-HasZeros (suc (suc n)) (x ∷ hash) h =
    let (to, from) = valid_from-HasZeros n hash h.1 in
    rw (valid_from-two n x hash h.0)
      ((λ e. (ground arith, to (ground arith))), (λ z. ground (arith, z.0, from z.1)))

-- `FindNonce` rewrites the last four bytes of the serialized block in place: that is the
-- serialization with the new nonce.
put_nonce-append :
    (front : Bytes) (u v : ℕ) → put_nonce (front ++ put_uint32 u) v ≡ front ++ put_uint32 v
put_nonce-append front u v =
    let size : length (front ++ put_uint32 u) - 4 ≡ length front =
      omega (arith, length-append front (put_uint32 u)) in
    rw (size, take_append_left (length front) front (put_uint32 u) refl)

abbrev front : Block → Bytes
front b = b.prev_block ++ (serialize_ops b.records ++ b.miner_id)

serialize-front : (b : Block) → serialize b ≡ front b ++ put_uint32 b.nonce
unfolding serialize
serialize-front b = sym (
    append_assoc b.prev_block (serialize_ops b.records ++ b.miner_id) (put_uint32 b.nonce)
    ∙ ap (◌++◌ b.prev_block)
        (append_assoc (serialize_ops b.records) b.miner_id (put_uint32 b.nonce)))

put_nonce-serialize :
    (b : Block) (v : ℕ) → put_nonce (serialize b) v ≡ serialize (record b { nonce = v })
put_nonce-serialize b v =
    rw (serialize-front b, serialize-front (record b { nonce = v }))
      (put_nonce-append (front b) b.nonce v)

module _ (md5 : Bytes → Bytes) (stop_sig : ℕ → Bool) where
  -- What the search for a nonce returns: the block with some nonce, which passes the test unless
  -- the stop signal was set.
  abbrev pub Searched : Block → ℕ → Option Block → Type 0
  Searched b hex_zeros none = Unit
  Searched b hex_zeros (some b') =
      (b' ≡ record b { nonce = b'.nonce })
      × ((valid_ser md5 b' (serialize b') hex_zeros ≡ true) ⊎ ((i : ℕ) × (stop_sig i ≡ true)))

  Searched-renonce :
      (b : Block) (v hex_zeros : ℕ) (r : Option Block)
      → Searched (record b { nonce = v }) hex_zeros r
      → Searched b hex_zeros r
  Searched-renonce b v hex_zeros none h = tt
  Searched-renonce b v hex_zeros (some b') h = h

  search-Searched :
      (fuel round : ℕ) (b : Block) (start : ℕ) (ser : Bytes) (hex_zeros : ℕ)
      → ser ≡ serialize b
      → Searched b hex_zeros (find_nonce_loop md5 stop_sig fuel round b start ser hex_zeros)
  unfolding find_nonce_loop
  search-Searched zero round b start ser hex_zeros e = tt
  search-Searched (suc fuel) round b start ser hex_zeros e =
      elim (Bool-cases (valid_ser md5 b ser hex_zeros)) [
        | inl good ↦ rw good (refl, inl (rw e at good))
        | inr bad ↦ elim (Bool-cases (stop_sig round)) [
          | inl stopped ↦ rw (bad, stopped) (refl, inr (round, stopped))
          | inr going ↦
              rw (bad, going)
                (Searched-renonce b start hex_zeros _ (
                  search-Searched fuel (suc round) (record b { nonce = start })
                    ((start + 1) % uint32_size) (put_nonce ser start) hex_zeros
                    (rw e (put_nonce-serialize b start))))
        ]
      ]

  -- What a round that goes on does.
  search-next :
      (fuel round : ℕ) (b : Block) (start : ℕ) (ser : Bytes) (hex_zeros : ℕ)
      → valid_ser md5 b ser hex_zeros ≡ false
      → stop_sig round ≡ false
      → find_nonce_loop md5 stop_sig (suc fuel) round b start ser hex_zeros
        ≡ find_nonce_loop md5 stop_sig fuel
            (suc round)
            (record b { nonce = start })
            ((start + 1) % uint32_size)
            (put_nonce ser start)
            hex_zeros
  unfolding find_nonce_loop
  search-next fuel round b start ser hex_zeros bad going = rw (bad, going)

  search-stop :
      (fuel round : ℕ) (b : Block) (start : ℕ) (ser : Bytes) (hex_zeros : ℕ)
      → (valid_ser md5 b ser hex_zeros ≡ true) ⊎ (stop_sig round ≡ true)
      → find_nonce_loop md5 stop_sig (suc fuel) round b start ser hex_zeros ≡ some b
  unfolding find_nonce_loop
  search-stop fuel round b start ser hex_zeros h = ground arith

  -- The search ends in the round that reads the stop signal, if not before.
  search_ends :
      (k fuel round : ℕ) (b : Block) (start : ℕ) (ser : Bytes) (hex_zeros : ℕ)
      → k < fuel
      → stop_sig (k + round) ≡ true
      → (b' : Block) × (find_nonce_loop md5 stop_sig fuel round b start ser hex_zeros ≡ some b')
  search_ends k zero round b start ser hex_zeros room stops = absurd (omega arith)
  search_ends zero (suc fuel) round b start ser hex_zeros room stops =
      let here : zero + round ≡ round = omega arith in
      (b, search-stop fuel round b start ser hex_zeros (inr (rw here at stops)))
  search_ends (suc k) (suc fuel) round b start ser hex_zeros room stops =
      let later : suc k + round ≡ k + suc round = omega arith in
      elim (Bool-cases (valid_ser md5 b ser hex_zeros)) [
        | inl good ↦ (b, search-stop fuel round b start ser hex_zeros (inl good))
        | inr bad ↦ elim (Bool-cases (stop_sig round)) [
          | inl stopped ↦ (b, search-stop fuel round b start ser hex_zeros (inr stopped))
          | inr going ↦ rw (search-next fuel round b start ser hex_zeros bad going) (
              search_ends k fuel (suc round) (record b { nonce = start })
                ((start + 1) % uint32_size) (put_nonce ser start) hex_zeros (omega arith)
                (rw later at stops))
        ]
      ]

  -- The block with the nonce of the k-th round after the first.
  abbrev pub tried : Block → ℕ → ℕ → Block
  tried b start k = record b { nonce = (start + k) % uint32_size }

  search_step :
      (fuel round : ℕ) (b : Block) (start : ℕ) (ser : Bytes) (hex_zeros : ℕ)
      → (b' : Block) × (find_nonce_loop md5 stop_sig fuel
            (suc round)
            (record b { nonce = start })
            ((start + 1) % uint32_size)
            (put_nonce ser start)
            hex_zeros
          ≡ some b')
      → (b' : Block) × (find_nonce_loop md5 stop_sig (suc fuel) round b start ser hex_zeros
          ≡ some b')
  search_step fuel round b start ser hex_zeros (b', rest) =
      elim (Bool-cases (valid_ser md5 b ser hex_zeros)) [
        | inl now ↦ (b, search-stop fuel round b start ser hex_zeros (inl now))
        | inr bad ↦ elim (Bool-cases (stop_sig round)) [
          | inl stopped ↦ (b, search-stop fuel round b start ser hex_zeros (inr stopped))
          | inr going ↦ (b', search-next fuel round b start ser hex_zeros bad going ∙ rest)
        ]
      ]

  -- The search ends once it has tried a nonce that passes the test.
  search_finds :
      (k fuel round : ℕ) (b : Block) (start : ℕ) (ser : Bytes) (hex_zeros : ℕ)
      → ser ≡ serialize b
      → start < uint32_size
      → suc k < fuel
      → valid_ser md5 (tried b start k) (serialize (tried b start k)) hex_zeros ≡ true
      → (b' : Block) × (find_nonce_loop md5 stop_sig fuel round b start ser hex_zeros ≡ some b')
  search_finds k zero round b start ser hex_zeros e small room good = absurd (omega arith)
  search_finds k (suc zero) round b start ser hex_zeros e small room good = absurd (omega arith)
  search_finds zero (suc (suc fuel)) round b start ser hex_zeros e small room good =
      let same : (start + zero) % uint32_size ≡ start = omega arith in
      let b' = record b { nonce = start } in
      let good' : valid_ser md5 b' (serialize b') hex_zeros ≡ true =
        subst
          (λ v.
            valid_ser md5 (record b { nonce = v }) (serialize (record b { nonce = v })) hex_zeros
            ≡ true)
          same good in
      search_step (suc fuel) round b start ser hex_zeros (
        b',
        search-stop fuel (suc round) b' _ _ hex_zeros
            (inl (rw (e, put_nonce-serialize b start) good')),
      )
  search_finds (suc k) (suc (suc fuel)) round b start ser hex_zeros e small room good =
      let later : (start + suc k) % uint32_size ≡ ((start + 1) % uint32_size + k) % uint32_size =
        omega arith in
      search_step (suc fuel) round b start ser hex_zeros (
        search_finds k (suc fuel) (suc round) (record b { nonce = start })
          ((start + 1) % uint32_size) (put_nonce ser start) hex_zeros
          (rw e (put_nonce-serialize b start)) (omega arith) (omega arith)
          (subst
            (λ v.
              valid_ser md5 (record b { nonce = v }) (serialize (record b { nonce = v })) hex_zeros
              ≡ true)
            later good))

  -- The search returns the block with a new nonce and all else as it was; the block passes the
  -- test, or the stop signal was set in some round.
  pub find_nonce_with_stop_signal-Searched :
      (fuel start : ℕ) (b : Block) (hex_zeros : ℕ)
      → Searched b hex_zeros (find_nonce_with_stop_signal md5 stop_sig fuel start b hex_zeros)
  unfolding find_nonce_with_stop_signal
  find_nonce_with_stop_signal-Searched fuel start b hex_zeros =
      search-Searched fuel 0 b (start % uint32_size) (serialize b) hex_zeros refl

  -- With a round in which the stop signal is set, k + 1 rounds of fuel are enough for a result.
  find_nonce_with_stop_signal_ends :
      (k fuel start : ℕ) (b : Block) (hex_zeros : ℕ)
      → k < fuel
      → stop_sig k ≡ true
      → (b' : Block) × (find_nonce_with_stop_signal md5 stop_sig fuel start b hex_zeros ≡ some b')
        × (b' ≡ record b { nonce = b'.nonce })
        × ((valid_ser md5 b' (serialize b') hex_zeros ≡ true) ⊎ ((i : ℕ) × (stop_sig i ≡ true)))
  unfolding find_nonce_with_stop_signal
  find_nonce_with_stop_signal_ends k fuel start b hex_zeros room stops =
      let same : k + 0 ≡ k = omega arith in
      let (b', e) =
        search_ends k fuel 0 b (start % uint32_size) (serialize b) hex_zeros room (rw same stops) in
      let found = search-Searched fuel 0 b (start % uint32_size) (serialize b) hex_zeros refl in
      let (renonced, outcome) = rw e at found in (b', e, renonced, outcome)

-- `FindNonce` finds a nonce if there is one: with fuel for the k + 2 rounds up to a nonce that
-- passes the test it returns a block that passes `Valid`, and changes only the nonce.
pub find_nonce-valid :
    (md5 : Bytes → Bytes) (k fuel start : ℕ) (b : Block) (zeros_op zeros_no_op : ℕ)
    → suc k < fuel
    → valid md5 (tried md5 (λ _. false) b (start % uint32_size) k) zeros_op zeros_no_op ≡ true
    → (b' : Block) × (find_nonce md5 fuel start b zeros_op zeros_no_op ≡ some b')
      × (b' ≡ record b { nonce = b'.nonce })
      × (valid md5 b' zeros_op zeros_no_op ≡ true)
unfolding find_nonce find_nonce_with_stop_signal valid get_zeros_for_type
find_nonce-valid md5 k fuel start b zeros_op zeros_no_op room good =
    let zeros' = get_zeros_for_type b zeros_op zeros_no_op in
    let never = λ (i : ℕ). false in
    let first = start % uint32_size in
    let (b', e) =
      search_finds md5 never k fuel 0 b first (serialize b) zeros' refl (omega arith) room good in
    let (renonced, outcome) =
      rw e at (search-Searched md5 never fuel 0 b first (serialize b) zeros' refl) in
    let same = ap (λ c. get_zeros_for_type c zeros_op zeros_no_op) renonced in
    let good' : valid_ser md5 b' (serialize b') zeros' ≡ true = elim outcome [
      | inl h ↦ h
      | inr (i, h) ↦ cc
    ] in
    (b', e, renonced, rw same good')
