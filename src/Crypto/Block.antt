-- ===== src/Crypto/Block.antt =====
-- crypto/block.go. `md5.Sum` is a parameter. A block of a type other than the three constants makes
-- `hash` panic; it is not represented. The network encoding of a block is the standard library's gob.
pub mod Commit
pub mod Work
use blockafile.Base.{
  ℕ, zero, suc, ◌+◌, ◌-◌, ◌*◌, ◌/◌, ◌%◌, ◌^◌, ◌≡◌, Bool, true, false, not, ◌&&◌, Option, none, some,
  List, [], ◌∷◌, ◌++◌, reverse, Bytes, ltb, ◌==◌, if◌then◌else◌, length, take,
}
use Prim.Native.Nat.{bit_and}

abbrev pub data_block_size : ℕ
data_block_size = 512

abbrev pub uint32_size : ℕ
uint32_size = 4294967296

-- `BlockOpType` is a uint32: any number past the three constants is `other_op`.
pub data BlockOpType : Type 0 where
  create_file append_file delete_file : BlockOpType
  other_op : ℕ → BlockOpType

pub record BlockOp : Type 0 where
  pub op_type : BlockOpType
  pub creator : Bytes
  pub filename : Bytes
  pub record_number : ℕ
  pub data_bytes : Bytes

pub data BlockType : Type 0 where
  no_op_block regular_block genesis_block : BlockType

pub record Block : Type 0 where
  pub block_type : BlockType
  pub prev_block : Bytes
  pub records : List BlockOp
  pub miner_id : Bytes
  pub nonce : ℕ

-- `binary.LittleEndian.PutUint16` and `PutUint32`: the bytes that they write.
abbrev pub put_uint16 : ℕ → Bytes
put_uint16 v = v % 256 ∷ (v / 256 % 256) ∷ []

abbrev pub put_uint32 : ℕ → Bytes
put_uint32 v = v % 256 ∷ (v / 256 % 256) ∷ (v / 65536 % 256) ∷ (v / 16777216 % 256) ∷ []

-- One round of the `for` of `serialize`: the record number fills the first two of the four bytes of
-- `intBuff`, and the other two are still 0.
abbrev pub serialize_op : BlockOp → Bytes
serialize_op v = v.filename ++ (v.data_bytes ++ (put_uint16 v.record_number ++ (0 ∷ 0 ∷ [])))

abbrev pub serialize_ops : List BlockOp → Bytes
serialize_ops [] = []
serialize_ops (v ∷ ops) = serialize_op v ++ serialize_ops ops

unfoldable pub serialize : Block → Bytes
serialize b = b.prev_block ++ (serialize_ops b.records ++ (b.miner_id ++ put_uint32 b.nonce))

-- `fmt.Sprintf("%x", …)`
abbrev pub hex_digit : ℕ → ℕ
hex_digit d = if ltb d 10 then d + b'0' else d - 10 + b'a'

unfoldable pub hex : Bytes → Bytes
hex [] = []
hex (x ∷ xs) = hex_digit (x / 16) ∷ hex_digit (x % 16) ∷ hex xs

-- `GetZerosForType`
unfoldable pub get_zeros_for_type : Block → ℕ → ℕ → ℕ
get_zeros_for_type b zeros_op zeros_no_op = elim b.block_type [
  | genesis_block ↦ zeros_op
  | regular_block ↦ zeros_op
  | no_op_block ↦ zeros_no_op
]

-- The `for` of `valid`, over the bytes of the hash from the last; `zeros` is the number of bits that
-- are left to test, and the loop ends when it falls to 0 or below.
unfoldable pub valid_from : Bytes → ℕ → Bool
valid_from [] _ = true
valid_from (x ∷ hash) zeros =
    let mask = if ltb zeros 8 then 255 / 2 ^ (7 - zeros) else 255 in
    let rest = valid_from hash (zeros - 8) in
    if ltb 0 zeros then (if bit_and x mask == 0 then rest else false) else true

-- `copy(ser[len(ser)-4:], intBuff)`
abbrev pub put_nonce : Bytes → ℕ → Bytes
put_nonce ser v = take (length ser - 4) ser ++ put_uint32 v

-- `BlockElement.ParentId`
abbrev pub parent_id : Block → Bytes
parent_id b = hex b.prev_block

module _ (md5 : Bytes → Bytes) where
  -- `Block.hash`
  unfoldable pub hash_of : Block → Bytes → Bytes
  hash_of b ser = elim b.block_type [
    | no_op_block ↦ md5 ser
    | regular_block ↦ md5 ser
    | genesis_block ↦ b.prev_block
  ]

  -- `Block.Hash`
  unfoldable pub hash : Block → Bytes
  hash b = hash_of b (serialize b)

  -- `Block.Id`, also `BlockElement.Id`
  unfoldable pub id : Block → Bytes
  id b = hex (hash b)

  -- `Block.valid`; `hexZeros << 2` is four times it.
  unfoldable pub valid_ser : Block → Bytes → ℕ → Bool
  valid_ser b ser hex_zeros = valid_from (reverse (hash_of b ser)) (hex_zeros * 4)

  -- `Block.Valid`
  unfoldable pub valid : Block → ℕ → ℕ → Bool
  valid b zeros_op zeros_no_op =
      valid_ser b (serialize b) (get_zeros_for_type b zeros_op zeros_no_op)

  -- The `for` of `FindNonceWithStopSignal`: `stop_sig i` is what the test of round `i` reads from
  -- `*stopSig`, which other goroutines write. `none` means that the fuel ran out.
  unfoldable pub find_nonce_loop : (ℕ → Bool) → ℕ → ℕ → Block → ℕ → Bytes → ℕ → Option Block
  find_nonce_loop stop_sig zero round b start ser _ = none
  find_nonce_loop stop_sig (suc fuel) round b start ser zeros =
      let next =
        find_nonce_loop stop_sig fuel (suc round) (record b { nonce = start })
          ((start + 1) % uint32_size) (put_nonce ser start) zeros in
      if not (valid_ser b ser zeros) && not (stop_sig round) then next else some b

  -- `FindNonceWithStopSignal`; `start` is the random number that the search starts from.
  unfoldable pub find_nonce_with_stop_signal : (ℕ → Bool) → ℕ → ℕ → Block → ℕ → Option Block
  find_nonce_with_stop_signal stop_sig fuel start b zeros =
      find_nonce_loop stop_sig fuel 0 b (start % uint32_size) (serialize b) zeros

  -- `FindNonce`: the stop signal is never set.
  unfoldable pub find_nonce : ℕ → ℕ → Block → ℕ → ℕ → Option Block
  find_nonce fuel start b zeros_op zeros_no_op =
      find_nonce_with_stop_signal (λ _. false) fuel start b
        (get_zeros_for_type b zeros_op zeros_no_op)
