-- ===== src/Instance.antt =====
-- miner/instance/miner_instance.go: the answers to a client. A handler that
-- loops until the chain has changed is one round of its loop here; `disconnected` and the file
-- system are what the miner's state answers in that round.
mod Reads
pub mod Stored
mod Listener
pub mod Service
mod Tests
use blockafile.Base.{
  ℕ, zero, suc, ◌+◌, ◌*◌, ◌%◌, ◌≡◌, Bool, true, false, not, ◌&&◌, Option, none, some, List, [], ◌∷◌,
  ◌++◌, map, Bytes, leb, ltb, ◌==◌, if◌then◌else◌, length, take, drop, present,
}
use blockafile.Base.Dict.{Dict}
use blockafile.Shared.{
  FileInfo, FailureType, bad_filename, disconnected, file_does_not_exist, file_exists,
  max_len_reached, not_enough_money, append_duplicate, no_error, uint16_size,
}
use blockafile.Crypto.Block.{BlockOp, BlockOpType, create_file, append_file, delete_file}
use blockafile.State.Filesystem.{FilesystemState, get_file}
use blockafile.State.Validator.{
  ScanError, composite, not_a_valid_file_op, ValidationError, CompositeError, AccountsFailure,
  accounts_unknown, accounts_scan, FilesFailure, files_unknown, files_scan, not_enough_money_error,
  composite_code,
}

-- What a round of a handler comes to: an answer, a panic, or another round after a sleep.
pub data Round (A : Type 0) : Type 0 where
  answer : A → Round A
  panicked again : Round A

-- The names of a Go map in some order; the order that the model keeps is one of them.
abbrev pub keys : {A : Type 0} → Dict A → List Bytes
keys d = map (λ p. p.0) d

-- `ListFilesHandler`
unfoldable pub list_files_handler : Bool → FilesystemState → List Bytes × FailureType
list_files_handler is_disconnected fs =
    if is_disconnected then ([], disconnected) else (keys fs.fs, no_error)

-- `TotalRecsHandler`
unfoldable pub total_recs_handler : Bool → FilesystemState → Bytes → ℕ × FailureType
total_recs_handler is_disconnected fs fname =
    if is_disconnected then (0, disconnected) else elim (get_file fs fname) [
      | none ↦ (0, file_does_not_exist)
      | some file ↦ (file.number_of_records, no_error)
    ]

-- The size of a record, and of the buffer that an answer holds it in.
abbrev pub record_size : ℕ
record_size = 512

abbrev zeros : ℕ → Bytes
zeros = elim [ zero ↦ [] | suc (n → ih) ↦ 0 ∷ ih ]

abbrev pub no_record : Bytes
no_record = zeros record_size

-- `file.Data[offset:offset+512]`, with both bounds in uint16; bounds out of order are a panic.
-- A slice that ends past the data is one too; the spare capacity of the slice is left out.
abbrev pub record_slice : Bytes → ℕ → Option Bytes
record_slice bytes offset =
    let last = (offset + record_size) % uint16_size in
    if leb offset last && leb last (length bytes)
    then some (drop offset (take last bytes))
    else none

-- A round of `ReadRecHandler`; `offset := recordNum * 512` is a uint16.
unfoldable pub read_rec_handler : Bool → FilesystemState → Bytes → ℕ → Round (Bytes × FailureType)
read_rec_handler is_disconnected fs fname record_num =
    if is_disconnected then answer (no_record, disconnected) else elim (get_file fs fname) [
      | none ↦ answer (no_record, file_does_not_exist)
      | some file ↦
          if leb file.number_of_records record_num
          then again
          else elim (record_slice file.data_bytes ((record_num * 512) % uint16_size)) [
            | none ↦ panicked
            | some record_bytes ↦ answer (record_bytes, no_error)
          ]
    ]

-- `getSingleFilesError`: only a `CompositeError` has a code.
unfoldable pub get_single_files_error : FilesFailure → FailureType
get_single_files_error (files_unknown e) = no_error
get_single_files_error (files_scan e) = composite_code e

abbrev money_error : ValidationError → FailureType
money_error (not_enough_money_error _ _ _) = not_enough_money
money_error _ = no_error

-- `getSingleAccountsError`: whether the last error of the scan is the want of money.
unfoldable pub get_single_accounts_error : AccountsFailure → FailureType
get_single_accounts_error (accounts_unknown e) = no_error
get_single_accounts_error (accounts_scan (composite [])) = no_error
get_single_accounts_error (accounts_scan (composite (current ∷ _))) = money_error current
get_single_accounts_error (accounts_scan not_a_valid_file_op) = no_error

-- What a round of a handler that changes files comes to: an answer, another round, or a job for
-- the calculators and a listener that waits for its confirmation.
pub data JobRound : Type 0 where
  refuse : FailureType → JobRound
  retry : JobRound
  submit : BlockOp → JobRound

abbrev pub is_money : FailureType → Bool
is_money not_enough_money = true
is_money _ = false

abbrev pub wants_money : Option AccountsFailure → Bool
wants_money none = false
wants_money (some e) = is_money (get_single_accounts_error e)

abbrev pub make_job : BlockOpType → Bytes → Bytes → ℕ → Bytes → BlockOp
make_job ty creator fname number bytes = record {
  op_type = ty;
  creator = creator;
  filename = fname;
  record_number = number;
  data_bytes = bytes;
}

module _ (validate_job : BlockOp → Option AccountsFailure × Option FilesFailure) (miner_id : Bytes)
    (is_disconnected : Bool) (fname : Bytes) where
  abbrev pub create_verdict : BlockOp → Option FilesFailure → JobRound
  create_verdict job none = submit job
  create_verdict job (some e) = elim (get_single_files_error e) [
    | file_exists ↦ refuse file_exists
    | bad_filename ↦ refuse bad_filename
    | _ ↦ submit job
  ]

  -- A round of `CreateFileHandler`; `validate_job` is `ValidateJobSet` on the one job.
  unfoldable pub create_file_handler : JobRound
  unfolding get_single_files_error get_single_accounts_error
  create_file_handler =
      let job = make_job create_file miner_id fname 0 no_record in
      let (accounts, files) = validate_job job in
      if is_disconnected
      then refuse disconnected
      else if wants_money accounts
      then retry
      else create_verdict job files

  abbrev pub append_verdict : BlockOp → Option FilesFailure → JobRound
  append_verdict job none = submit job
  append_verdict job (some e) = elim (get_single_files_error e) [
    | file_does_not_exist ↦ refuse file_does_not_exist
    | max_len_reached ↦ refuse max_len_reached
    | append_duplicate ↦ retry
    | _ ↦ submit job
  ]

  -- A round of `AppendRecHandler`
  unfoldable pub append_rec_handler : FilesystemState → Bytes → JobRound
  unfolding get_single_files_error get_single_accounts_error
  append_rec_handler fs record_bytes =
      if is_disconnected then refuse disconnected else elim (get_file fs fname) [
        | none ↦ refuse file_does_not_exist
        | some file ↦
            let job = make_job append_file miner_id fname file.number_of_records record_bytes in
            let (accounts, files) = validate_job job in
            if wants_money accounts then retry else append_verdict job files
      ]

  abbrev pub delete_verdict : BlockOp → Option FilesFailure → JobRound
  delete_verdict job none = submit job
  delete_verdict job (some e) = elim (get_single_files_error e) [
    | file_does_not_exist ↦ refuse file_does_not_exist
    | _ ↦ submit job
  ]

  -- A round of `DeleteRecHandler`, which does not ask for the accounts.
  unfoldable pub delete_rec_handler : JobRound
  unfolding get_single_files_error
  delete_rec_handler =
      let job = make_job delete_file miner_id fname 0 no_record in
      if is_disconnected then refuse disconnected else delete_verdict job (validate_job job).1
