-- ===== src/State/Validator.antt =====
-- miner/state/block_chain_validator.go: the errors, the scans of a block's operations and the cached
-- states. The lock is held through each operation, which is one step here. `none` stands for a
-- panic of `transverseChain`. The tree is the tree manager's, passed as an argument.
mod Errors
mod Scan
mod Kept
mod Charges
pub mod Accepts
pub mod Returns
pub mod Jobs
pub mod Counts
pub mod Follows
pub mod Caches
pub mod Balances
pub mod Payments
pub mod Agrees
pub mod Free
pub use Errors.*
unfoldable pub use Scan.*
use blockafile.Base.{
  ℕ, zero, suc, ◌+◌, ◌≡◌, Bool, true, false, not, Option, none, some, List, [], ◌∷◌, Bytes, ltb,
  ◌==◌, present, if◌then◌else◌, length, bytes_eq,
}
use blockafile.Base.Int.{ℤ, pos}
use blockafile.Base.Dict.{Dict}
use blockafile.Base.Result.{Result, ok, err}
use blockafile.Shared.{FileInfo}
use blockafile.Crypto.Block.{Block, BlockOp, BlockType, no_op_block, regular_block, genesis_block}
use blockafile.Crypto.Block as Crypto
use blockafile.DataStruct.MRootTree.{Node, MRootTree, find, get_roots, get_longest_chain}
use blockafile.State.Filesystem
use blockafile.State.Filesystem.{FilesystemState, FsError, new_filesystem_state}
use blockafile.State.Accounts
use blockafile.State.Accounts.{AccountsState, AccountsError, new_accounts_state, award}

-- `BlockChainValidator`, without the tree and the lock.
pub record Validator : Type 0 where
  pub cnf : Config
  pub last_state_account : AccountsState
  pub last_filesystem_state : FilesystemState
  pub generating_node_id : Bytes

-- `NewBlockChainValidator`: the cached states are zero values.
abbrev pub new_validator : Config → Validator
new_validator config = record {
  cnf = config;
  last_state_account = record {
    append_fee = pos 0;
    create_fee = pos 0;
    op_reward = pos 0;
    no_op_reward = pos 0;
    accounts = [];
  };
  last_filesystem_state = record { fs = [] };
  generating_node_id = [];
}

-- What `ValidateJobSet` returns: the operations, the accounts error and the files error.
abbrev pub JobSet : Type 0
JobSet = List BlockOp × Option AccountsFailure × Option FilesFailure

-- An error of a round replaces that of the rounds before.
abbrev latest_files : CompositeError → Option FilesFailure → Option FilesFailure
latest_files [] before = before
latest_files (e ∷ es) before = some (files_scan (e ∷ es))

abbrev latest_accounts : Option ScanError → Option AccountsFailure → Option AccountsFailure
latest_accounts none before = before
latest_accounts (some e) before = some (accounts_scan e)

module _ (t : MRootTree Block) where
  abbrev regenerated :
      Validator
      → Node Block
      → Result AccountsError AccountsState
      → Option (Result FsError FilesystemState)
      → Option (Validator × Result HistoryError (Unit {0}))
  regenerated bcv root (err e) fss = some (bcv, err (accounts_history e))
  regenerated bcv root (ok bcas) none = none
  regenerated bcv root (ok bcas) (some (err e)) = some (bcv, err (files_history e))
  regenerated bcv root (ok bcas) (some (ok fss)) = some (
    record bcv {
      generating_node_id = root.id;
      last_state_account = bcas;
      last_filesystem_state = fss;
    },
    ok tt,
  )

  -- "generate history if need be": the cached states become those of `root`'s chain, unless they were
  -- made for `root`.
  unfoldable pub refresh :
      Validator → Node Block → Option (Validator × Result HistoryError (Unit {0}))
  refresh bcv root =
      let accounts =
        new_accounts_state bcv.cnf.append_fee bcv.cnf.create_fee bcv.cnf.op_reward
          bcv.cnf.no_op_reward t (some root) in
      let files =
        new_filesystem_state bcv.cnf.confirms_per_file_create bcv.cnf.confirms_per_file_append t
          (some root) in
      if bytes_eq bcv.generating_node_id root.id
      then some (bcv, ok tt)
      else elim accounts [ none ↦ none | some bcas ↦ regenerated bcv root bcas files ]

  -- `validateNewFSState`
  unfoldable pub validate_new_fs_state : Validator → Block → FsScan
  validate_new_fs_state bcv b = validate_new_fs_block_ops bcv.last_filesystem_state.fs b.records []

  -- `validateNewAccountState`
  unfoldable pub validate_new_account_state :
      Validator → Block → Bytes → Option (Result ValidateError (Dict ℤ × Option ScanError))
  validate_new_account_state bcv b parent_block =
      let scan = λ (reward : ℤ).
        elim (validate_new_account_block_ops bcv.cnf t bcv.last_state_account parent_block b.records
            (award [] b.miner_id reward))
          as (λ _. Option (Result ValidateError (Dict ℤ × Option ScanError))) [
            | none ↦ none
            | some (res, _, e) ↦ some (ok (res, e))
          ] in
      elim b.block_type [
        | no_op_block ↦ scan bcv.cnf.no_op_reward
        | regular_block ↦ scan bcv.cnf.op_reward
        | genesis_block ↦ some (err not_a_valid_block_type)
      ]

  -- The last lines of `Validate`: the cached states become those after the block.
  abbrev pub accepted : Validator → Bytes → FsScan → Dict ℤ → Validator
  accepted bcv block_id files acc_up = record bcv {
    generating_node_id = block_id;
    last_state_account = Accounts.update bcv.last_state_account acc_up;
    last_filesystem_state =
        Filesystem.update bcv.last_filesystem_state files.res files.deleted_files;
  }

  abbrev judged_accounts :
      Validator
      → Node Block
      → Bytes
      → FsScan
      → Result ValidateError (Dict ℤ × Option ScanError)
      → Validator × Result ValidateError (Option (Node Block))
  judged_accounts bcv root block_id files (err e) = (bcv, err e)
  judged_accounts bcv root block_id files (ok (acc_up, some e)) = (bcv, err (accounts_rejected e))
  judged_accounts bcv root block_id files (ok (acc_up, none)) =
      (accepted bcv block_id files acc_up, ok (some root))

  module _ (md5 : Bytes → Bytes) where
    -- `Validate` once the history is there.
    unfoldable pub validate_on :
        Validator
        → Node Block
        → Block
        → Option (Validator × Result ValidateError (Option (Node Block)))
    validate_on bcv root b =
        let files = validate_new_fs_state bcv b in
        let accounts = validate_new_account_state bcv b root.id in
        elim files.errors [
          | e ∷ es ↦ some (bcv, err (files_rejected (e ∷ es)))
          | [] ↦ elim accounts [
            | none ↦ none
            | some r ↦ some (judged_accounts bcv root (Crypto.id md5 b) files r)
          ]
        ]

    abbrev pub after_refresh :
        Node Block
        → Block
        → Option (Validator × Result HistoryError (Unit {0}))
        → Option (Validator × Result ValidateError (Option (Node Block)))
    after_refresh root b none = none
    after_refresh root b (some (bcv, err e)) = some (bcv, err (bad_history e))
    after_refresh root b (some (bcv, ok _)) = validate_on bcv root b

    -- `Validate`: the parent node, nil for the genesis block, or an error.
    unfoldable pub validate :
        Validator → Block → Option (Validator × Result ValidateError (Option (Node Block)))
    validate bcv b =
        let hash_valid =
          Crypto.valid md5 b bcv.cnf.op_number_of_zeros bcv.cnf.no_op_number_of_zeros in
        let beside =
          elim (find t (Crypto.parent_id b))
            as (λ _. Option (Validator × Result ValidateError (Option (Node Block)))) [
              | none ↦ some (bcv, err parent_not_in_tree)
              | some root ↦ after_refresh root b (refresh bcv root)
            ] in
        let other = if not hash_valid then some (bcv, err corrupt_node) else beside in
        if present (find t (Crypto.id md5 b))
        then some (bcv, err already_on_blockchain)
        else elim b.block_type [
          | genesis_block ↦
              if ltb 0 (length (get_roots t))
              then some (bcv, err more_than_one_genesis)
              else some (bcv, ok none)
          | regular_block ↦ other
          | no_op_block ↦ other
        ]

  -- `bcv.mTree.GetLongestChain().Id`
  abbrev pub head_id : Bytes
  head_id = elim (get_longest_chain t) [ none ↦ [] | some n ↦ n.id ]

  -- One round of the `for` of `ValidateJobSet`: both scans, the second on what the first keeps.
  unfoldable pub job_round : Validator → JobSet → Option JobSet
  job_round bcv (ops, accounts_error, files_error) =
      let files = validate_new_fs_block_ops bcv.last_filesystem_state.fs ops [] in
      elim (validate_new_account_block_ops bcv.cnf t bcv.last_state_account head_id files.valid_ops
          [])
        as (λ _. Option JobSet) [
          | none ↦ none
          | some (_, kept, e) ↦
              some (kept, latest_accounts e accounts_error, latest_files files.errors files_error)
        ]

  -- The `for`, on fuel: rounds until one drops no operation. `none` also stands for fuel that ran out.
  unfoldable pub job_rounds : ℕ → Validator → JobSet → Option JobSet
  job_rounds zero bcv job = none
  job_rounds (suc fuel) bcv job = elim (job_round bcv job) [
    | none ↦ none
    | some job' ↦
        let more = job_rounds fuel bcv job' in
        if length job.0 == length job'.0 then some job' else more
  ]

  abbrev job_set_after :
      List BlockOp
      → Option (Validator × Result HistoryError (Unit {0}))
      → Option (Validator × JobSet)
  job_set_after ops none = none
  job_set_after ops (some (bcv, err (accounts_history e))) =
      some (bcv, ([], some (accounts_unknown e), none))
  job_set_after ops (some (bcv, err (files_history e))) =
      some (bcv, ([], none, some (files_unknown e)))
  job_set_after ops (some (bcv, ok _)) = elim (job_rounds (length ops + 1) bcv (ops, none, none)) [
    | none ↦ none
    | some job ↦ some (bcv, job)
  ]

  -- `ValidateJobSet`; each round but the last drops an operation, so that the fuel is enough.
  unfoldable pub validate_job_set :
      Validator → List BlockOp → Node Block → Option (Validator × JobSet)
  validate_job_set bcv ops root_node =
      let work = job_set_after ops (refresh bcv root_node) in
      if length ops == 0 then some (bcv, (ops, none, none)) else work
