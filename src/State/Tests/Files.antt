-- ===== src/State/Tests/Files.antt =====
-- The filesystem of the two blocks.
use blockafile.Base.{ℕ, ◌≡◌, refl, true, none, [], ◌∷◌, arith, codes, bytes_eq}
use blockafile.Base.Dict.{Dict, lookup, insert}
use blockafile.Base.Result.{ok, err}
use blockafile.Shared.{FileInfo}
use blockafile.State.Filesystem.{
  generate_filesystem, evaluate_blocks, evaluate_block, evaluate_fs_block_ops, evaluate_op,
  create_op, append_op, missing_file,
}
use blockafile.State.Filesystem.Sizes.{IsSized, generate_filesystem-IsSized}
use blockafile.State.Filesystem.Confirm.{
  SameNames, generate_filesystem_confirmed, append_confirmed_first,
}
use blockafile.State.Filesystem.Records.{
  Represents, Agrees, Files, apply_ops, evaluate_fs_block_ops-Agrees,
}
use blockafile.State.Tests.{genesis, first_block, creation, first_append, removal, result_or}

abbrev files : Dict FileInfo
files = result_or [] (generate_filesystem 0 0 (genesis ∷ first_block ∷ []))

generated : generate_filesystem 0 0 (genesis ∷ first_block ∷ []) ≡ ok files
unfolding generate_filesystem evaluate_blocks evaluate_block evaluate_fs_block_ops evaluate_op
    create_op append_op lookup insert bytes_eq
generated = refl

generate_filesystem-IsSized_example : IsSized files
generate_filesystem-IsSized_example =
    generate_filesystem-IsSized 0 0 (genesis ∷ first_block ∷ []) files
      (tt, ((refl, (refl, tt)), tt)) generated

generate_filesystem_confirmed_example :
    (part : Dict FileInfo) × (generate_filesystem 0 1 (genesis ∷ first_block ∷ []) ≡ ok part)
    × (◌≡◌ {A = ℕ} 0 0 → SameNames files part)
generate_filesystem_confirmed_example =
    generate_filesystem_confirmed 0 1 (omega arith) (genesis ∷ first_block ∷ []) files generated

append_confirmed_first_example :
    (generate_filesystem 3 0 (genesis ∷ first_block ∷ []) ≡ err (missing_file (codes "notes")))
    × ((fs : Dict FileInfo) × (generate_filesystem 0 0 (genesis ∷ first_block ∷ []) ≡ ok fs))
append_confirmed_first_example =
    append_confirmed_first 2 genesis first_block creation first_append refl refl refl refl refl refl
      refl (omega arith)

abbrev no_files : Files
no_files _ = none

nothing : Represents [] no_files
unfolding lookup
nothing k = refl

evaluate_fs_block_ops-Agrees_example :
    Agrees
      (evaluate_fs_block_ops [] (creation ∷ first_append ∷ removal ∷ []) true true)
      (apply_ops (creation ∷ first_append ∷ removal ∷ []) no_files)
evaluate_fs_block_ops-Agrees_example =
    evaluate_fs_block_ops-Agrees (creation ∷ first_append ∷ removal ∷ []) [] no_files nothing
