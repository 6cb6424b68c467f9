-- ===== src/State/Tests/Scans.antt =====
-- A block with a file and its first record, and a file that is one record short of full.
use blockafile.Base.{Bytes, ◌≡◌, refl, true, some, List, [], ◌∷◌, arith, codes, bytes_eq}
use blockafile.Base.Dict.{Dict, lookup, insert}
use blockafile.Base.Result.{ok, err}
use blockafile.Shared.{FileInfo}
use blockafile.Crypto.Block.{BlockOp}
use blockafile.State.Filesystem.{FilesystemState, update, evaluate_fs_block_ops, max_capacity}
use blockafile.State.Validator.{
  validate_new_fs_block_ops, fs_scan, fs_step, create_step, append_step, append_new_step,
}
use blockafile.State.Validator.Counts.{HasRoom, count_of}
use blockafile.State.Validator.Follows.{scan-overfull}
use blockafile.State.Validator.Caches.{update-follows}
use blockafile.State.Tests.{creation, first_append}

abbrev ops : List BlockOp
ops = creation ∷ first_append ∷ []

empty-HasRoom : HasRoom 2 []
unfolding lookup
empty-HasRoom x f e = absurd (ground arith)

quiet : (validate_new_fs_block_ops [] ops []).errors ≡ []
unfolding validate_new_fs_block_ops fs_scan fs_step create_step append_step append_new_step lookup
    insert bytes_eq
quiet = refl

abbrev no_files : FilesystemState
no_files = record { fs = [] }

update-follows_example :
    let s = validate_new_fs_block_ops [] ops [] in
    (cur : Dict FileInfo) × (evaluate_fs_block_ops [] ops true true ≡ ok cur)
    × ((x : Bytes)
        → count_of (lookup x (update no_files s.res s.deleted_files).fs) ≡ count_of (lookup x cur))
update-follows_example = update-follows no_files ops empty-HasRoom (omega arith) quiet

abbrev nearly_full : FileInfo
nearly_full = record { creator = codes "ann"; number_of_records = 65534; data_bytes = [] }

abbrev files : Dict FileInfo
files = (codes "notes", nearly_full) ∷ []

files_has : lookup (codes "notes") files ≡ some nearly_full
unfolding lookup bytes_eq
files_has = refl

scan-overfull_example :
    let last = record first_append { record_number = 65534 } in
    let too_many = record first_append { record_number = 65535 } in
    ((validate_new_fs_block_ops files (last ∷ too_many ∷ []) []).errors ≡ [])
    × (evaluate_fs_block_ops files (last ∷ too_many ∷ []) true true
        ≡ err (max_capacity (codes "notes")))
scan-overfull_example = scan-overfull files nearly_full first_append refl files_has refl
