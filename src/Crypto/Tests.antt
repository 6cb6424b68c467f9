-- ===== src/Crypto/Tests.antt =====
-- Blocks and nonces on small inputs, with a checksum in place of MD5.
use blockafile.Base.{
  ℕ, ◌+◌, ◌%◌, ◌≡◌, refl, Bool, true, false, some, [], ◌∷◌, Bytes, codes, ◌==◌, arith,
}
use blockafile.Crypto.Block.{
  Block, BlockOp, create_file, delete_file, regular_block, genesis_block, hash, hash_of, id,
  serialize, valid, valid_ser, valid_from, get_zeros_for_type, find_nonce, uint32_size,
}
use blockafile.Crypto.Block.Work.{AreBytes, tried, find_nonce-valid}
use blockafile.Crypto.Block.Commit.{id-SameText}

abbrev sum : Bytes → ℕ
sum [] = 0
sum (x ∷ xs) = (x + sum xs) % 256

-- Two bytes in place of sixteen.
abbrev checksum : Bytes → Bytes
checksum bs = 1 ∷ sum bs ∷ []

abbrev creation : BlockOp
creation = record {
  op_type = create_file;
  creator = codes "ann";
  filename = codes "notes";
  record_number = 0;
  data_bytes = 9 ∷ 9 ∷ [];
}

abbrev deletion : BlockOp
deletion = record creation { op_type = delete_file; creator = codes "bob" }

abbrev block : Block
block = record {
  block_type = regular_block;
  prev_block = 7 ∷ 255 ∷ [];
  records = creation ∷ [];
  miner_id = codes "m";
  nonce = 0;
}

abbrev parent : Block
parent = record block { block_type = genesis_block; records = [] }

abbrev stop_at_3 : ℕ → Bool
stop_at_3 i = i == 3

-- In its second round the search from 17 meets a nonce whose checksum has five zero bits.
tried-valid : valid checksum (tried checksum (λ _. false) block (17 % uint32_size) 1) 1 1 ≡ true
unfolding valid valid_ser valid_from hash_of serialize get_zeros_for_type
tried-valid = refl

find_nonce-valid_example :
    (b' : Block) × (find_nonce checksum 3 17 block 1 1 ≡ some b')
    × (b' ≡ record block { nonce = b'.nonce })
    × (valid checksum b' 1 1 ≡ true)
find_nonce-valid_example = find_nonce-valid checksum 1 3 17 block 1 1 (omega arith) tried-valid

parent-hash : AreBytes (hash checksum parent)
unfolding hash hash_of
parent-hash = (omega arith, (omega arith, tt))

id-SameText_example :
    (id checksum block ≡ id checksum (record block { records = deletion ∷ [] }))
    × (valid checksum block 1 1 ≡ valid checksum (record block { records = deletion ∷ [] }) 1 1)
id-SameText_example = id-SameText checksum block (deletion ∷ []) 1 1 (refl, refl, refl, tt)
