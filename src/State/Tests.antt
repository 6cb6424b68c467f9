-- ===== src/State/Tests.antt =====
-- Two blocks, and the states that they generate.
mod Files
mod Money
mod Trees
mod Manager
mod Scans
mod Fees
mod Threads
use blockafile.Base.{ℕ, zero, suc, ◌+◌, ◌%◌, ◌≡◌, Option, none, some, List, [], ◌∷◌, Bytes, codes}
use blockafile.Base.Int.{ℤ, pos}
use blockafile.Base.Result.{Result, ok, err}
use blockafile.Crypto.Block.{
  Block, BlockOp, create_file, append_file, delete_file, genesis_block, regular_block,
  data_block_size,
}
use blockafile.Crypto.Block as Crypto
use blockafile.DataStruct.MRootTree.{Node, MRootTree, new_tree, prepend_element, make_node}
use blockafile.State.Validator.{Config}

abbrev pub sum : Bytes → ℕ
sum [] = 0
sum (x ∷ xs) = (x + sum xs) % 256

-- In place of MD5.
abbrev pub checksum : Bytes → Bytes
checksum bs = sum bs ∷ []

abbrev pub filled : ℕ → ℕ → Bytes
filled x = elim [ zero ↦ [] | suc (n → ih) ↦ x ∷ ih ]

abbrev pub creation : BlockOp
creation = record {
  op_type = create_file;
  creator = codes "ann";
  filename = codes "notes";
  record_number = 0;
  data_bytes = filled 0 data_block_size;
}

abbrev pub first_append : BlockOp
first_append = record creation { op_type = append_file; data_bytes = filled 5 data_block_size }

abbrev pub removal : BlockOp
removal = record creation { op_type = delete_file }

abbrev pub genesis : Block
genesis = record {
  block_type = genesis_block;
  prev_block = 7 ∷ [];
  records = [];
  miner_id = [];
  nonce = 0;
}

abbrev pub first_block : Block
first_block = record {
  block_type = regular_block;
  prev_block = 7 ∷ [];
  records = creation ∷ first_append ∷ [];
  miner_id = codes "ann";
  nonce = 3;
}

abbrev pub result_or : {E A : Type 0} → A → Result E A → A
result_or d (ok a) = a
result_or d (err e) = d

abbrev pub id_of : Block → Bytes
id_of = Crypto.id checksum

abbrev pub root : Node Block
root = make_node id_of genesis none

abbrev pub one_block : MRootTree Block
one_block = (prepend_element id_of genesis none new_tree).1

abbrev pub two_blocks : MRootTree Block
two_blocks = (prepend_element id_of first_block (some root) one_block).1

abbrev pub config : Config
config = record {
  append_fee = pos 1;
  create_fee = pos 2;
  op_reward = pos 9;
  no_op_reward = pos 1;
  op_number_of_zeros = 0;
  no_op_number_of_zeros = 0;
  confirms_per_file_create = 0;
  confirms_per_file_append = 0;
}
