-- ===== src/State/Tests/Trees.antt =====
-- The tree of the two blocks, its validator and its manager.
use blockafile.Base.{suc, ◌<◌, ◌≡◌, refl, Option, none, some, List, [], ◌∷◌, Bytes, arith, bytes_eq}
use blockafile.Base.Int.{◌+ℤ◌, ◌-ℤ◌}
use blockafile.Base.Dict.{lookup, insert, erase}
use blockafile.Base.Result.{Result, ok}
use blockafile.Crypto.Block.{
  Block, BlockOp, hash, hash_of, hex, serialize, valid, valid_ser, valid_from, get_zeros_for_type,
}
use blockafile.Crypto.Block as Crypto
use blockafile.DataStruct.MRootTree.{
  Node, uint64_size, find, new_tree, prepend_element, make_node, link, place_root,
  get_longest_chain,
}
use blockafile.DataStruct.MRootTree.WellFormed.{IsWellFormed, new_tree-IsWellFormed}
use blockafile.DataStruct.MRootTree.Prepend.{prepend_element-IsWellFormed}
use blockafile.State.Chain.{fill_slots, transverse_chain, IsChain}
use blockafile.State.Filesystem as Files
use blockafile.State.Accounts as Accounts
use blockafile.State.Validator.{
  Validator, ValidateError, new_validator, refresh, validate, validate_on, validate_new_fs_state,
  validate_new_account_state, validate_new_fs_block_ops, validate_new_account_block_ops, fs_scan,
  fs_step, create_step, append_step, append_new_step, append_cached_step, account_scan, charge_step,
}
use blockafile.State.Validator.Agrees.{Agrees, validate-Agrees}
use blockafile.State.Validator.Counts.{HasRoom}
use blockafile.State.Accounts.Refund.{IsInt}
use blockafile.State.BlockTree.{BlockChainTree, AddError, add, in_longest_chain}
use blockafile.State.BlockTree.Add.{Added, add-Added}
use blockafile.State.BlockTree.Depth.{position, in_longest_chain-position}
use blockafile.State.Tests.{
  genesis, first_block, root, one_block, two_blocks, id_of, checksum, config,
}

pub one_block-IsWellFormed : IsWellFormed one_block
one_block-IsWellFormed =
    prepend_element-IsWellFormed id_of genesis none new_tree new_tree-IsWellFormed tt

root_found : find one_block root.id ≡ some root
unfolding prepend_element lookup link place_root insert bytes_eq Crypto.id hash hash_of hex
root_found = refl

two_blocks-IsWellFormed : IsWellFormed two_blocks
two_blocks-IsWellFormed =
    prepend_element-IsWellFormed id_of first_block (some root) one_block one_block-IsWellFormed
      (root, root_found, refl, omega arith)

abbrev second : Node Block
second = make_node id_of first_block (some root)

second_found : find two_blocks second.id ≡ some second
unfolding prepend_element lookup link place_root insert bytes_eq Crypto.id hash hash_of hex
    serialize
second_found = refl

pub one_room : suc one_block.height < uint64_size
unfolding prepend_element lookup link place_root insert bytes_eq
one_room = omega arith

abbrev pub bcv : Validator
bcv = new_validator config

abbrev validator_after : Option (Validator × Result ValidateError (Option (Node Block))) → Validator
validator_after none = bcv
validator_after (some (v, _)) = v

abbrev after : Validator
after = validator_after (validate one_block checksum bcv first_block)

accepted : validate one_block checksum bcv first_block ≡ some (after, ok (some root))
unfolding validate validate_on refresh validate_new_fs_state validate_new_account_state
    validate_new_fs_block_ops validate_new_account_block_ops fs_scan fs_step create_step append_step
    append_new_step append_cached_step account_scan charge_step prepend_element lookup link
    place_root insert erase bytes_eq Crypto.id hash hash_of hex serialize valid valid_ser valid_from
    get_zeros_for_type transverse_chain fill_slots Files.new_filesystem_state
    Files.generate_filesystem Files.evaluate_blocks Files.evaluate_block Files.evaluate_fs_block_ops
    Files.update Files.write_files Files.remove_files Accounts.new_accounts_state
    Accounts.generate_state Accounts.evaluate_balance_blocks Accounts.evaluate_balance_block
    Accounts.evaluate_balance_block_ops Accounts.award Accounts.balance_of Accounts.update ◌+ℤ◌ ◌-ℤ◌
accepted = refl

-- The validator with the states of the genesis block.
abbrev mid : Validator
mid = record bcv {
  generating_node_id = root.id;
  last_state_account = record {
    append_fee = config.append_fee;
    create_fee = config.create_fee;
    op_reward = config.op_reward;
    no_op_reward = config.no_op_reward;
    accounts = [];
  };
}

ready : refresh one_block bcv root ≡ some (mid, ok tt)
unfolding refresh prepend_element lookup link place_root insert bytes_eq Crypto.id hash hash_of hex
    serialize transverse_chain fill_slots Files.new_filesystem_state Files.generate_filesystem
    Files.evaluate_blocks Files.evaluate_block Accounts.new_accounts_state Accounts.generate_state
    Accounts.evaluate_balance_blocks Accounts.evaluate_balance_block
ready = refl

chain : transverse_chain one_block root ≡ some (root ∷ [])
unfolding transverse_chain fill_slots prepend_element lookup link place_root insert bytes_eq
    Crypto.id hash hash_of hex serialize
chain = refl

nothing-IsInt : (x : Bytes) → IsInt (Accounts.balance_of x [])
unfolding Accounts.balance_of lookup
nothing-IsInt x = refl

nothing-HasRoom : HasRoom 2 []
unfolding lookup
nothing-HasRoom x f e = absurd (ground arith)

validate-Agrees_example : Agrees one_block checksum bcv mid after first_block root (root ∷ [])
validate-Agrees_example =
    validate-Agrees one_block checksum bcv mid after first_block root (root ∷ []) refl accepted
      ready root_found chain refl refl refl refl refl nothing-IsInt nothing-HasRoom (omega arith)

abbrev pub block_tree : BlockChainTree
block_tree = record { m_tree = one_block; validator = bcv; calls = [] }

add-Added_example :
    (r : BlockChainTree × Result AddError (Node Block)) × (add checksum block_tree first_block
      ≡ some r)
    × IsWellFormed r.0.m_tree
    × Added checksum block_tree first_block r
add-Added_example = add-Added checksum block_tree first_block one_block-IsWellFormed one_room

in_longest_chain-position_example :
    (ns : List (Node Block)) × IsChain two_blocks (get_longest_chain two_blocks) ns
    × (in_longest_chain (record block_tree { m_tree = two_blocks }) root.id
        ≡ some (position root.id 0 ns))
in_longest_chain-position_example =
    in_longest_chain-position (record block_tree { m_tree = two_blocks }) root.id
      two_blocks-IsWellFormed
