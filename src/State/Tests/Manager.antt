-- ===== src/State/Tests/Manager.antt =====
-- A job for the longest chain of one block, and blocks that come to the tree manager.
use blockafile.Base.{◌≡◌, refl, Option, none, some, [], ◌∷◌, arith, bytes_eq}
use blockafile.Base.Dict.{lookup, insert}
use blockafile.Base.Result.{Result, ok}
use blockafile.Crypto.Block.{Block, hash, hash_of, hex}
use blockafile.Crypto.Block as Crypto
use blockafile.DataStruct.Queue.{Queue}
use blockafile.DataStruct.MRootTree.{prepend_element, link, place_root}
use blockafile.DataStruct.MRootTree.WellFormed.{IsWellFormed}
use blockafile.State.Chain.{fill_slots, transverse_chain}
use blockafile.State.Filesystem as Files
use blockafile.State.Accounts as Accounts
use blockafile.State.Validator.{Validator, HistoryError, JobSet, refresh, validate_job_set}
use blockafile.State.Validator.Jobs.{Passes, validate_job_set-Passes}
use blockafile.State.BlockTree.{AddError}
use blockafile.State.TreeManager.{
  TreeManager, new_tree_manager, add_block, remove_nodes_starting_from,
}
use blockafile.State.TreeManager.Cleanup.{Cleaned, remove_nodes_starting_from-Cleaned}
use blockafile.State.TreeManager.Invariant.{Settled, add_block-Settled}
use blockafile.State.Tests.{first_block, creation, removal, root, one_block, checksum, config}
use blockafile.State.Tests.Trees.{one_block-IsWellFormed, one_room, bcv, block_tree}

abbrev validator_of : Option (Validator × Result HistoryError (Unit {0})) → Validator
validator_of none = bcv
validator_of (some (v, _)) = v

abbrev ready : Validator
ready = validator_of (refresh one_block bcv root)

refreshed : refresh one_block bcv root ≡ some (ready, ok tt)
unfolding refresh prepend_element lookup link place_root insert bytes_eq Crypto.id hash hash_of hex
    transverse_chain fill_slots Files.new_filesystem_state Files.generate_filesystem
    Files.evaluate_blocks Files.evaluate_block Accounts.new_accounts_state Accounts.generate_state
    Accounts.evaluate_balance_blocks Accounts.evaluate_balance_block
refreshed = refl

validate_job_set-Passes_example :
    (job : JobSet) × (validate_job_set one_block bcv (creation ∷ removal ∷ []) root
      ≡ some (ready, job))
    × Passes one_block ready job.0
validate_job_set-Passes_example =
    validate_job_set-Passes one_block ready bcv (creation ∷ removal ∷ []) root
      one_block-IsWellFormed one_room (omega arith) refreshed

abbrev manager : TreeManager
manager = record (new_tree_manager config) { m_tree = block_tree }

-- A block whose parent nobody has.
abbrev pub orphan : Block
orphan = record first_block { prev_block = 99 ∷ [] }

abbrev child : Block
child = record first_block { prev_block = 7 ∷ []; nonce = 8 }

add_block-Settled_example :
    (r : TreeManager × Result AddError (Unit {0})) × (add_block checksum manager orphan ≡ some r)
    × IsWellFormed r.0.m_tree.m_tree
    × Settled checksum manager orphan r
add_block-Settled_example =
    add_block-Settled checksum manager orphan one_block-IsWellFormed one_room

abbrev waiting : Queue Block
waiting = record { enqueued = orphan ∷ child ∷ []; dequeued = [] }

remove_nodes_starting_from-Cleaned_example :
    (q' : Queue Block) × (remove_nodes_starting_from checksum root.value waiting ≡ some q')
    × Cleaned checksum root.id waiting q'
remove_nodes_starting_from-Cleaned_example =
    remove_nodes_starting_from-Cleaned checksum root.value waiting
