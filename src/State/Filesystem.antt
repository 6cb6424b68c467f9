-- ===== src/State/Filesystem.antt =====
-- miner/state/file_system_state.go: the files that a chain of blocks generates. An operation counts
-- once enough blocks lie in front of its block; creations and deletions share one number of
-- confirmations, appends have another. Every element of a tree is a block, so the test of the
-- element's dynamic type always passes.
pub mod Ops
pub mod Sizes
pub mod Confirm
pub mod Records
use blockafile.Base.{
  ℕ, zero, suc, ◌+◌, ◌-◌, ◌%◌, ◌≡◌, Bool, true, false, Option, none, some, List, [], ◌∷◌, ◌++◌, map,
  Bytes, ltb, leb, ◌==◌, not, present, if◌then◌else◌, length,
}
use blockafile.Base.Dict.{Dict, lookup, insert, erase}
use blockafile.Base.Result.{Result, ok, err, ◌>>=◌, ◌>>◌, fail_if}
use blockafile.Shared.{FileInfo, max_filename_length, max_record_count, uint16_size}
use blockafile.Crypto.Block.{
  Block, BlockOp, create_file, append_file, delete_file, other_op, BlockType, no_op_block,
  regular_block, genesis_block,
}
use blockafile.DataStruct.MRootTree.{Node, MRootTree}
use blockafile.State.Chain.{transverse_chain}

-- The errors of the two functions, by their messages.
pub data FsError : Type 0 where
  no_genesis_block invalid_op : FsError
  late_genesis_block : ℕ → FsError
  filename_too_big duplicated_file max_capacity missing_file : Bytes → FsError
  duplicated_append : ℕ → Bytes → FsError

pub record FilesystemState : Type 0 where
  pub fs : Dict FileInfo

-- `GetFile`
abbrev pub get_file : FilesystemState → Bytes → Option FileInfo
get_file b acc = lookup acc b.fs

-- The file that a creation makes.
abbrev pub new_file : BlockOp → FileInfo
new_file tx = record { creator = tx.creator; number_of_records = 0; data_bytes = [] }

-- The file after an append.
abbrev pub appended : BlockOp → FileInfo → FileInfo
appended tx f = record f {
  number_of_records = (f.number_of_records + 1) % uint16_size;
  data_bytes = f.data_bytes ++ tx.data_bytes;
}

-- One round of the `for` of `evaluateFSBlockOps`, by the type of the operation.
unfoldable pub create_op : BlockOp → Dict FileInfo → Result FsError (Dict FileInfo)
create_op tx fs = do
  fail_if (ltb max_filename_length (length tx.filename)) (filename_too_big tx.filename)
  fail_if (present (lookup tx.filename fs)) (duplicated_file tx.filename)
  ok (insert tx.filename (new_file tx) fs)

unfoldable pub append_op : BlockOp → Dict FileInfo → Result FsError (Dict FileInfo)
append_op tx fs = elim (lookup tx.filename fs) [
  | none ↦ err (missing_file tx.filename)
  | some f ↦ do
    fail_if (leb max_record_count f.number_of_records) (max_capacity tx.filename)
    fail_if (not (tx.record_number == f.number_of_records))
        (duplicated_append tx.record_number tx.filename)
    ok (insert tx.filename (appended tx f) fs)
]

unfoldable pub delete_op : BlockOp → Dict FileInfo → Result FsError (Dict FileInfo)
delete_op tx fs = do
  fail_if (not (present (lookup tx.filename fs))) (missing_file tx.filename)
  ok (erase tx.filename fs)

unfoldable pub evaluate_op : BlockOp → Bool → Bool → Dict FileInfo → Result FsError (Dict FileInfo)
evaluate_op tx create_confirmed append_confirmed fs = elim tx.op_type [
  | create_file ↦ if create_confirmed then create_op tx fs else ok fs
  | append_file ↦ if append_confirmed then append_op tx fs else ok fs
  | delete_file ↦ if create_confirmed then delete_op tx fs else ok fs
  | other_op _ ↦ err invalid_op
]

-- `evaluateFSBlockOps`
unfoldable pub evaluate_fs_block_ops :
    Dict FileInfo → List BlockOp → Bool → Bool → Result FsError (Dict FileInfo)
evaluate_fs_block_ops fs [] create_confirmed append_confirmed = ok fs
evaluate_fs_block_ops fs (tx ∷ bcs) create_confirmed append_confirmed =
    evaluate_op tx create_confirmed append_confirmed fs >>= λ fs'.
    evaluate_fs_block_ops fs' bcs create_confirmed append_confirmed

abbrev pub is_genesis : BlockType → Bool
is_genesis genesis_block = true
is_genesis _ = false

module _ (confirms_per_file_create confirms_per_file_append : ℕ) where
  -- One round of the `for` of `generateFilesystem`, for the block at `idx` of `count`.
  unfoldable pub evaluate_block : ℕ → ℕ → Block → Dict FileInfo → Result FsError (Dict FileInfo)
  evaluate_block count idx bae res = elim bae.block_type [
    | genesis_block ↦ if idx == 0 then ok res else err (late_genesis_block idx)
    | regular_block ↦
        let in_front = count - idx - 1 in
        evaluate_fs_block_ops res bae.records (leb confirms_per_file_create in_front)
          (leb confirms_per_file_append in_front)
    | no_op_block ↦ ok res
  ]

  unfoldable pub evaluate_blocks :
      ℕ → ℕ → List Block → Dict FileInfo → Result FsError (Dict FileInfo)
  evaluate_blocks count idx [] res = ok res
  evaluate_blocks count idx (bae ∷ nodes) res =
      evaluate_block count idx bae res >>= λ res'. evaluate_blocks count (suc idx) nodes res'

  -- `generateFilesystem`
  unfoldable pub generate_filesystem : List Block → Result FsError (Dict FileInfo)
  generate_filesystem [] = ok []
  generate_filesystem (first ∷ nodes) =
      fail_if (not (is_genesis first.block_type)) no_genesis_block
      >> evaluate_blocks (length (first ∷ nodes)) 0 (first ∷ nodes) []

  -- `NewFilesystemState`; `none` is a panic of `transverseChain`.
  unfoldable pub new_filesystem_state :
      MRootTree Block → Option (Node Block) → Option (Result FsError FilesystemState)
  new_filesystem_state t none = some (ok (record { fs = [] }))
  new_filesystem_state t (some nd) = elim (transverse_chain t nd) [
    | none ↦ none
    | some nds ↦ some (generate_filesystem (map Node.value nds) >>= λ fs. ok (record { fs = fs }))
  ]

-- `update`: writes the new files, then removes the deleted ones.
unfoldable pub write_files : Dict FileInfo → Dict FileInfo → Dict FileInfo
write_files [] fs = fs
write_files ((k, v) ∷ new_data) fs = write_files new_data (insert k v fs)

unfoldable pub remove_files : Dict Bool → Dict FileInfo → Dict FileInfo
remove_files [] fs = fs
remove_files ((k, _) ∷ deleted) fs = remove_files deleted (erase k fs)

unfoldable pub update : FilesystemState → Dict FileInfo → Dict Bool → FilesystemState
unfolding write_files remove_files
update b new_data deleted_files = record b {
  fs = remove_files deleted_files (write_files new_data b.fs);
}
