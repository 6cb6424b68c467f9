-- ===== src/State/Validator/Returns.antt =====
-- `Validate` does not panic on a well-formed tree.
use blockafile.Base.{
  ℕ, suc, ◌<◌, ◌≡◌, refl, inl, inr, Option, some, List, [], Bytes, arith, Option-cases, reverse,
}
use blockafile.Base.Int.{ℤ}
use blockafile.Base.Dict.{Dict}
use blockafile.Base.Result.{Result, ok, err}
use blockafile.Crypto.Block.{
  Block, BlockOp, BlockType, no_op_block, regular_block, genesis_block, parent_id,
}
use blockafile.DataStruct.MRootTree.{Node, MRootTree, find, uint64_size}
use blockafile.DataStruct.MRootTree.WellFormed.{IsWellFormed}
use blockafile.State.Chain.{transverse_chain, transverse_chain-IsChain}
use blockafile.State.Filesystem.{FsError, FilesystemState, new_filesystem_state}
use blockafile.State.Accounts.{AccountsState, AccountsError, new_accounts_state, award}
use blockafile.State.Validator.{
  Validator, ValidateError, HistoryError, ScanError, refresh, validate, validate_on, after_refresh,
  validate_new_account_state, validate_new_account_block_ops, regenerated,
}
use blockafile.State.Validator.Charges.{account_scan_returns}

module _ (t : MRootTree Block) (w : IsWellFormed t) (room : suc t.height < uint64_size) where
  module _ (i : Bytes) (n : Node Block) (found : find t i ≡ some n) where
    chain_returns : (ns : List (Node Block)) × (transverse_chain t n ≡ some ns)
    chain_returns =
        let low = w.highest i n found in
        let (ns, chain, _, _) = transverse_chain-IsChain t i n w found (omega arith) in
        (reverse ns, chain)

    accounts_return :
        (append_fee create_fee op_reward no_op_reward : ℤ)
        → (r : Result AccountsError AccountsState) × (new_accounts_state append_fee create_fee
              op_reward no_op_reward t
              (some n)
            ≡ some r)
    unfolding new_accounts_state
    accounts_return append_fee create_fee op_reward no_op_reward =
        let (ns, chain) = chain_returns in
        elim (Option-cases
          (new_accounts_state append_fee create_fee op_reward no_op_reward t (some n))) [
            | inl nothing ↦ absurd (ground arith)
            | inr there ↦ there
          ]

    files_return :
        (create append : ℕ)
        → (r : Result FsError FilesystemState) × (new_filesystem_state create append t (some n)
            ≡ some r)
    unfolding new_filesystem_state
    files_return create append =
        let (ns, chain) = chain_returns in
        elim (Option-cases (new_filesystem_state create append t (some n))) [
          | inl nothing ↦ absurd (ground arith)
          | inr there ↦ there
        ]

    regenerated_returns :
        (bcv : Validator) (a : Result AccountsError AccountsState)
        (f : Result FsError FilesystemState)
        → (r : Validator × Result HistoryError (Unit {0})) × (regenerated t bcv n a (some f)
            ≡ some r)
    regenerated_returns bcv (err e) f = (_, refl)
    regenerated_returns bcv (ok a) (err e) = (_, refl)
    regenerated_returns bcv (ok a) (ok f) = (_, refl)

    refresh_returns :
        (bcv : Validator)
        → (r : Validator × Result HistoryError (Unit {0})) × (refresh t bcv n ≡ some r)
    unfolding refresh
    refresh_returns bcv =
        let (a, there) =
          accounts_return bcv.cnf.append_fee bcv.cnf.create_fee bcv.cnf.op_reward
            bcv.cnf.no_op_reward in
        let (f, here) =
          files_return bcv.cnf.confirms_per_file_create bcv.cnf.confirms_per_file_append in
        let (r, e) = regenerated_returns bcv a f in
        elim (Option-cases (refresh t bcv n)) [
          | inl nothing ↦ absurd (ground arith)
          | inr back ↦ back
        ]

  account_ops_returns :
      (bcv : Validator) (parent : Bytes) (ops : List BlockOp) (res : Dict ℤ)
      → (r : Dict ℤ × List BlockOp × Option ScanError) × (validate_new_account_block_ops bcv.cnf t
            bcv.last_state_account parent ops res
          ≡ some r)
  unfolding validate_new_account_block_ops
  account_ops_returns bcv parent ops res =
      account_scan_returns bcv.cnf t bcv.last_state_account parent w room ops 0 ops _

  account_state_returns :
      (bcv : Validator) (b : Block) (parent : Bytes) (ty : BlockType)
      → (r : Result ValidateError (Dict ℤ × Option ScanError)) × (validate_new_account_state t bcv
            (record b { block_type = ty })
            parent
          ≡ some r)
  unfolding validate_new_account_state
  account_state_returns bcv b parent no_op_block =
      let (r, e) =
        account_ops_returns bcv parent b.records (award [] b.miner_id bcv.cnf.no_op_reward) in
      (ok (r.0, r.2), ground arith)
  account_state_returns bcv b parent regular_block =
      let (r, e) =
        account_ops_returns bcv parent b.records (award [] b.miner_id bcv.cnf.op_reward) in
      (ok (r.0, r.2), ground arith)
  account_state_returns bcv b parent genesis_block = (_, refl)

  module _ (md5 : Bytes → Bytes) where
    validate_on_returns :
        (bcv : Validator) (root : Node Block) (b : Block)
        → (r : Validator × Result ValidateError (Option (Node Block))) × (validate_on t md5 bcv root
              b
            ≡ some r)
    unfolding validate_on
    validate_on_returns bcv root b =
        let (a, e) = account_state_returns bcv b root.id b.block_type in
        elim (Option-cases (validate_on t md5 bcv root b)) [
          | inl nothing ↦ absurd (ground arith)
          | inr back ↦ back
        ]

    beside_returns :
        (bcv : Validator) (b : Block) (i : Bytes) (root : Node Block)
        → find t i ≡ some root
        → (r : Validator × Result ValidateError (Option (Node Block))) × (after_refresh t md5 root b
              (refresh t bcv root)
            ≡ some r)
    beside_returns bcv b i root found = by_history (refresh_returns i root found bcv)
      where
        by_history :
            ((r : Validator × Result HistoryError (Unit {0})) × (refresh t bcv root ≡ some r))
            → (r : Validator × Result ValidateError (Option (Node Block))) × (after_refresh t md5
                  root b
                  (refresh t bcv root)
                ≡ some r)
        by_history ((mid, err e), h) = rw h (_, refl)
        by_history ((mid, ok u), h) = rw h (validate_on_returns mid root b)

    -- In a well-formed tree whose height has room for one more block, Validate returns, whatever the
    -- block and the cached states: it accepts the block or gives an error, and never panics.
    pub validate_returns :
        (bcv : Validator) (b : Block)
        → (r : Validator × Result ValidateError (Option (Node Block))) × (validate t md5 bcv b
            ≡ some r)
    unfolding validate
    validate_returns bcv b = elim (Option-cases (validate t md5 bcv b)) [
      | inr back ↦ back
      | inl nothing ↦ elim (Option-cases (find t (parent_id b))) [
        | inl orphan ↦ absurd (ground arith)
        | inr (root, found) ↦
            let (r, e) = beside_returns bcv b (parent_id b) root found in absurd (ground arith)
      ]
    ]
