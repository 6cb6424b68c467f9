-- ===== src/State/Validator/Errors.antt =====
-- The errors of the validator and their codes, and the part of `Config` that it reads.
use blockafile.Base.{ℕ, List, [], ◌∷◌, Bytes}
use blockafile.Base.Int.{ℤ}
use blockafile.Shared.{
  FailureType, bad_filename, file_does_not_exist, file_exists, max_len_reached, not_enough_money,
  append_duplicate, no_error,
}
use blockafile.State.Filesystem.{FsError}
use blockafile.State.Accounts.{AccountsError}

-- The fields of `Config` that the validator and the block tree read.
pub record Config : Type 0 where
  pub append_fee : ℤ
  pub create_fee : ℤ
  pub op_reward : ℤ
  pub no_op_reward : ℤ
  pub op_number_of_zeros : ℕ
  pub no_op_number_of_zeros : ℕ
  pub confirms_per_file_create : ℕ
  pub confirms_per_file_append : ℕ

-- The types that implement `BlockChainValidatorError`, but `CompositeError`.
pub data ValidationError : Type 0 where
  file_already_exists_error file_does_not_exist_error : Bytes → ValidationError
  append_duplicate_error : ℕ → Bytes → ValidationError
  max_length_reached_error bad_file_name_error : Bytes → ValidationError
  not_enough_money_error : Bytes → ℤ → ℤ → ValidationError
  no_parent_error invalid_fs_op_error : ValidationError

-- The `GetErrorCode` methods; the last two errors are an `UnspecifiedValidationError`.
unfoldable pub error_code : ValidationError → FailureType
error_code (file_already_exists_error _) = file_exists
error_code (file_does_not_exist_error _) = file_does_not_exist
error_code (append_duplicate_error _ _) = append_duplicate
error_code (max_length_reached_error _) = max_len_reached
error_code (bad_file_name_error _) = bad_filename
error_code (not_enough_money_error _ _ _) = not_enough_money
error_code no_parent_error = no_error
error_code invalid_fs_op_error = no_error

-- `CompositeError`: a scan wraps its error so far as `Prev` and the new one as `Current`, which is
-- never nil. The list has the last `Current` first; the empty list is nil.
abbrev pub CompositeError : Type 0
CompositeError = List ValidationError

-- `CompositeError.GetErrorCode`
unfoldable pub composite_code : CompositeError → FailureType
unfolding error_code
composite_code [] = no_error
composite_code (current ∷ _) = error_code current

-- What the account scan can return as its error: nothing, a `CompositeError`, or the plain error for
-- an operation of an unknown type.
pub data ScanError : Type 0 where
  composite : CompositeError → ScanError
  not_a_valid_file_op : ScanError

-- Why the states before a block cannot be generated.
pub data HistoryError : Type 0 where
  accounts_history : AccountsError → HistoryError
  files_history : FsError → HistoryError

-- The second and third results of `ValidateJobSet`.
pub data AccountsFailure : Type 0 where
  accounts_unknown : AccountsError → AccountsFailure
  accounts_scan : ScanError → AccountsFailure

pub data FilesFailure : Type 0 where
  files_unknown : FsError → FilesFailure
  files_scan : CompositeError → FilesFailure

-- The errors of `Validate`.
pub data ValidateError : Type 0 where
  already_on_blockchain more_than_one_genesis corrupt_node parent_not_in_tree : ValidateError
  not_a_valid_block_type : ValidateError
  bad_history : HistoryError → ValidateError
  files_rejected : CompositeError → ValidateError
  accounts_rejected : ScanError → ValidateError
