-- ===== src/State/Validator/Scan.antt =====
-- The scans of a block's operations. A rejected operation adds an error and is left out; the scan
-- goes on with the next.
use blockafile.Base.{
  ℕ, suc, ◌+◌, ◌-◌, ◌%◌, Bool, true, not, ◌&&◌, Option, none, some, List, [], ◌∷◌, ◌++◌, map, Bytes,
  ltb, leb, ◌==◌, present, if◌then◌else◌, length, copy,
}
use blockafile.Base.Int.{ℤ, pos, int64, ◌+ℤ◌, ◌-ℤ◌, ltb_ℤ}
use blockafile.Base.Dict.{Dict, lookup, insert, erase}
use blockafile.Shared.{FileInfo, max_filename_length, max_record_count, uint16_size}
use blockafile.Crypto.Block.{
  Block, BlockOp, create_file, append_file, delete_file, other_op, regular_block,
}
use blockafile.DataStruct.MRootTree.{Node, MRootTree, find}
use blockafile.State.Chain.{transverse_chain}
use blockafile.State.Filesystem.{new_file}
use blockafile.State.Accounts.{AccountsState, balance_of, get_account_balance, refund}
use blockafile.State.Validator.Errors.{
  Config, ValidationError, file_already_exists_error, file_does_not_exist_error,
  append_duplicate_error, max_length_reached_error, bad_file_name_error, not_enough_money_error,
  no_parent_error, invalid_fs_op_error, CompositeError, ScanError, composite, not_a_valid_file_op,
}

-- The variables of `validateNewFSBlockOps`.
pub record FsScan : Type 0 where
  pub res : Dict FileInfo
  pub valid_ops : List BlockOp
  pub deleted_files : Dict Bool
  pub errors : CompositeError

abbrev pub reject : ValidationError → FsScan → FsScan
reject e s = record s { errors = e ∷ s.errors }

abbrev pub is_deleted : BlockOp → FsScan → Bool
is_deleted tx s = present (lookup tx.filename s.deleted_files)

unfoldable pub create_step : Dict FileInfo → BlockOp → FsScan → FsScan
create_step fs tx s =
    if ltb max_filename_length (length tx.filename)
    then reject (bad_file_name_error tx.filename) s
    else if present (lookup tx.filename fs) && not (is_deleted tx s)
    then reject (file_already_exists_error tx.filename) s
    else if present (lookup tx.filename s.res) && not (is_deleted tx s)
    then reject (file_already_exists_error tx.filename) s
    else record s {
      res = insert tx.filename (new_file tx) s.res;
      valid_ops = s.valid_ops ++ tx ∷ [];
      deleted_files =
          if is_deleted tx s then erase tx.filename s.deleted_files else s.deleted_files;
    }

-- The entry that an append writes: `copy(fi.Data, f.Data)` copies into a slice of length 0, so it
-- copies nothing, and the new data follow.
abbrev pub grown_file : BlockOp → ℕ → FileInfo → FileInfo
grown_file tx number f = record {
  creator = f.creator;
  number_of_records = number;
  data_bytes = copy [] f.data_bytes ++ tx.data_bytes;
}

abbrev pub add_record : BlockOp → ℕ → FileInfo → FsScan → FsScan
add_record tx number f s = record s {
  res = insert tx.filename (grown_file tx number f) s.res;
  valid_ops = s.valid_ops ++ tx ∷ [];
}

-- An append to a file of the cached state, with the entry of this block if there is one.
unfoldable pub append_cached_step : BlockOp → FileInfo → Option FileInfo → FsScan → FsScan
append_cached_step tx f in_res s =
    if leb max_record_count f.number_of_records
    then reject (max_length_reached_error tx.filename) s
    else elim in_res [
      | some fi ↦
          if not (tx.record_number == fi.number_of_records)
          then reject (append_duplicate_error tx.record_number tx.filename) s
          else add_record tx ((fi.number_of_records + 1) % uint16_size) f s
      | none ↦
          if not (tx.record_number == f.number_of_records)
          then reject (append_duplicate_error tx.record_number tx.filename) s
          else add_record tx ((f.number_of_records + 1) % uint16_size) f s
    ]

-- An append to a file that only this block has, or to no file.
unfoldable pub append_new_step : BlockOp → Option FileInfo → FsScan → FsScan
append_new_step tx in_res s = elim in_res [
  | some donkey ↦
      if not (tx.record_number == donkey.number_of_records)
      then reject (append_duplicate_error tx.record_number tx.filename) s
      else add_record tx ((donkey.number_of_records + 1) % uint16_size) donkey s
  | none ↦ reject (file_does_not_exist_error tx.filename) s
]

unfoldable pub append_step : Dict FileInfo → BlockOp → FsScan → FsScan
append_step fs tx s =
    if is_deleted tx s
    then reject (file_does_not_exist_error tx.filename) s
    else elim (lookup tx.filename fs) [
      | some f ↦ append_cached_step tx f (lookup tx.filename s.res) s
      | none ↦ append_new_step tx (lookup tx.filename s.res) s
    ]

unfoldable pub delete_step : Dict FileInfo → BlockOp → FsScan → FsScan
delete_step fs tx s =
    if is_deleted tx s
    then reject (file_does_not_exist_error tx.filename) s
    else if not (present (lookup tx.filename s.res)) && not (present (lookup tx.filename fs))
    then reject (file_does_not_exist_error tx.filename) s
    else record s {
      valid_ops = s.valid_ops ++ tx ∷ [];
      deleted_files = insert tx.filename true s.deleted_files;
    }

-- One round of the `for` of `validateNewFSBlockOps`.
unfoldable pub fs_step : Dict FileInfo → BlockOp → FsScan → FsScan
fs_step fs tx s = elim tx.op_type [
  | create_file ↦ create_step fs tx s
  | append_file ↦ append_step fs tx s
  | delete_file ↦ delete_step fs tx s
  | other_op _ ↦ reject invalid_fs_op_error s
]

unfoldable pub fs_scan : Dict FileInfo → List BlockOp → FsScan → FsScan
fs_scan fs [] s = s
fs_scan fs (tx ∷ bcs) s = fs_scan fs bcs (fs_step fs tx s)

-- `validateNewFSBlockOps`, over the cached files `fs`
unfoldable pub validate_new_fs_block_ops : Dict FileInfo → List BlockOp → Dict FileInfo → FsScan
validate_new_fs_block_ops fs bcs res =
    fs_scan fs bcs (record { res = res; valid_ops = []; deleted_files = []; errors = [] })

-- The error that the account scan returns: nil, or what it has gathered.
abbrev pub scan_error : CompositeError → Option ScanError
scan_error [] = none
scan_error (e ∷ es) = some (composite (e ∷ es))

-- The variables of `validateNewAccountBlockOps`.
pub record AccountScan : Type 0 where
  pub changes : Dict ℤ
  pub kept_ops : List BlockOp
  pub faults : CompositeError

module _ (cnf : Config) (t : MRootTree Block) (accs : AccountsState) (parent_block : Bytes) where
  -- The fee of a creation or an append, against the cached balance and the changes so far.
  unfoldable pub charge_step : BlockOp → ℤ → AccountScan → AccountScan
  charge_step tx fee s =
      let res =
        if present (lookup tx.creator s.changes)
        then s.changes
        else insert tx.creator (pos 0) s.changes in
      let b = int64 (get_account_balance accs tx.creator +ℤ balance_of tx.creator res) in
      if ltb_ℤ b fee
      then record s { changes = res; faults = not_enough_money_error tx.creator b fee ∷ s.faults }
      else record s {
        changes = insert tx.creator (int64 (balance_of tx.creator res -ℤ fee)) res;
        kept_ops = s.kept_ops ++ tx ∷ [];
      }

  -- The block that holds the operations of the scan, for `refund`.
  abbrev pub fake_block : List BlockOp → Block
  fake_block bcs = record {
    block_type = regular_block;
    prev_block = [];
    records = bcs;
    miner_id = [];
    nonce = 0;
  }

  -- A deletion: the refund is read off the chain of the parent block and the scanned operations.
  unfoldable pub refund_step : List BlockOp → ℕ → BlockOp → AccountScan → Option AccountScan
  refund_step bcs idx tx s = elim (find t parent_block) [
    | none ↦ some (record s { faults = no_parent_error ∷ s.faults })
    | some parent ↦ elim (transverse_chain t parent) [
      | none ↦ none
      | some nds ↦
          let blocks = map Node.value nds ++ fake_block bcs ∷ [] in
          some (record s {
            changes =
                refund cnf.append_fee cnf.create_fee s.changes tx.filename blocks
                  (length blocks - 1) idx;
            kept_ops = s.kept_ops ++ tx ∷ [];
          })
    ]
  ]

  -- The rounds of the `for` from the operation at `idx` on: the changes, the operations that are
  -- kept, and the error if there is one.
  unfoldable pub account_scan :
      List BlockOp
      → ℕ
      → List BlockOp
      → AccountScan
      → Option (Dict ℤ × List BlockOp × Option ScanError)
  account_scan bcs idx [] s = some (s.changes, s.kept_ops, scan_error s.faults)
  account_scan bcs idx (tx ∷ rest) s =
      let created = account_scan bcs (suc idx) rest (charge_step tx cnf.create_fee s) in
      let grown = account_scan bcs (suc idx) rest (charge_step tx cnf.append_fee s) in
      let go_on = account_scan bcs (suc idx) rest in
      elim tx.op_type [
        | create_file ↦ created
        | append_file ↦ grown
        | delete_file ↦ elim (refund_step bcs idx tx s) [ none ↦ none | some s' ↦ go_on s' ]
        | other_op _ ↦ some (s.changes, [], some not_a_valid_file_op)
      ]

  -- `validateNewAccountBlockOps`
  unfoldable pub validate_new_account_block_ops :
      List BlockOp → Dict ℤ → Option (Dict ℤ × List BlockOp × Option ScanError)
  validate_new_account_block_ops bcs res =
      account_scan bcs 0 bcs (record { changes = res; kept_ops = []; faults = [] })
