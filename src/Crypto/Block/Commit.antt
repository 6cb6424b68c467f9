-- ===== src/Crypto/Block/Commit.antt =====
-- What the id of a block depends on, and what ids and parent ids say of hashes.
use blockafile.Base.{ℕ, ◌/◌, ◌%◌, ◌<◌, ◌≡◌, refl, ap, ap₂, ◌↔◌, List, [], ◌∷◌, ◌++◌, Bytes, arith}
use blockafile.Crypto.Block.{
  Block, BlockOp, serialize, serialize_ops, put_uint32, hash, hash_of, id, hex, hex_digit,
  parent_id, valid, valid_ser, get_zeros_for_type,
}
use blockafile.Crypto.Block.Work.{AreBytes}

hex_digit_injective : (a b : ℕ) → a < 16 → b < 16 → hex_digit a ≡ hex_digit b → a ≡ b
hex_digit_injective a b h k e = ground arith

cons_injective : {x y : ℕ} {xs ys : Bytes} → x ∷ xs ≡ y ∷ ys → (x ≡ y) × (xs ≡ ys)
cons_injective e = (cc, cc)

-- Two byte sequences with one hexadecimal text are equal.
hex_injective : (a b : Bytes) → AreBytes a → AreBytes b → hex a ≡ hex b → a ≡ b
unfolding hex
hex_injective [] [] h k e = refl
hex_injective [] (y ∷ b) h k e = cc
hex_injective (x ∷ a) [] h k e = cc
hex_injective (x ∷ a) (y ∷ b) h k e =
    let (high, tail) = cons_injective e in
    let (low, rest) = cons_injective tail in
    let same : x ≡ y = omega (
      arith,
      hex_digit_injective (x / 16) (y / 16) (omega arith) (omega arith) high,
      hex_digit_injective (x % 16) (y % 16) (omega arith) (omega arith) low,
    ) in
    ap₂ ◌∷◌ same (hex_injective a b h.1 k.1 rest)

-- A block's parent id is another block's id exactly when its `PrevBlock` is the other's hash.
parent_id-eq-id :
    (md5 : Bytes → Bytes) (b p : Block)
    → AreBytes b.prev_block
    → AreBytes (hash md5 p)
    → (parent_id b ≡ id md5 p) ↔ (b.prev_block ≡ hash md5 p)
unfolding id
parent_id-eq-id md5 b p h k = (hex_injective b.prev_block (hash md5 p) h k, λ e. ap hex e)

-- Operations that differ in their types and creators only.
abbrev pub SameText : List BlockOp → List BlockOp → Type 0
SameText [] [] = Unit
SameText [] (y ∷ ys) = ⊥
SameText (x ∷ xs) [] = ⊥
SameText (x ∷ xs) (y ∷ ys) =
    (x.filename ≡ y.filename)
    × (x.data_bytes ≡ y.data_bytes)
    × (x.record_number ≡ y.record_number)
    × SameText xs ys

serialize_ops-SameText :
    (xs ys : List BlockOp) → SameText xs ys → serialize_ops xs ≡ serialize_ops ys
serialize_ops-SameText [] [] h = refl
serialize_ops-SameText [] (y ∷ ys) h = absurd h
serialize_ops-SameText (x ∷ xs) [] h = absurd h
serialize_ops-SameText (x ∷ xs) (y ∷ ys) (f, d, r, rest) =
    rw (f, d, r, serialize_ops-SameText xs ys rest)

-- The id and the proof of work of a block stay what they are when the types and the creators of its
-- operations are replaced by any others.
pub id-SameText :
    (md5 : Bytes → Bytes) (b : Block) (ops : List BlockOp) (zeros_op zeros_no_op : ℕ)
    → SameText b.records ops
    → (id md5 b ≡ id md5 (record b { records = ops }))
      × (valid md5 b zeros_op zeros_no_op
          ≡ valid md5 (record b { records = ops }) zeros_op zeros_no_op)
unfolding id hash hash_of serialize valid valid_ser get_zeros_for_type
id-SameText md5 b ops zeros_op zeros_no_op h =
    let text = serialize_ops-SameText b.records ops h in
    let ser = ap (λ s. b.prev_block ++ (s ++ (b.miner_id ++ put_uint32 b.nonce))) text in
    (
      ap (λ s. hex (hash_of md5 b s)) ser,
      ap (λ s. valid_ser md5 b s (get_zeros_for_type b zeros_op zeros_no_op)) ser,
    )
