-- ===== src/State/Validator/Free.antt =====
-- A block that creates a file for nothing: the account scan against the evaluation.
use blockafile.Base.{
  ℕ, ◌≡◌, false, none, some, [], ◌∷◌, List, Bytes, arith, bytes_eq, bytes_eq_refl, Option-cases,
  inl, inr, refl,
}
use blockafile.Base.Int.{ℤ, pos, int64, ◌+ℤ◌}
use blockafile.Base.Dict.{Dict, lookup, insert, lookup-insert}
use blockafile.Base.Result.{ok, err}
use blockafile.Crypto.Block.{Block, BlockOp, create_file, regular_block}
use blockafile.DataStruct.MRootTree.{MRootTree}
use blockafile.State.Accounts.{
  award, balance_of, spend, unknown_account, evaluate_balance_op, evaluate_balance_block,
  evaluate_balance_block_ops,
}
use blockafile.State.Validator.{
  Validator, validate_new_account_state, validate_new_account_block_ops, account_scan, charge_step,
  AccountScan,
}

module _ (t : MRootTree Block) (bcv : Validator) (b : Block) (tx : BlockOp)
    (free : bcv.cnf.create_fee ≡ pos 0) (regular : b.block_type ≡ regular_block)
    (records : b.records ≡ tx ∷ []) (creates : tx.op_type ≡ create_file)
    (other : bytes_eq b.miner_id tx.creator ≡ false)
    (unknown : lookup tx.creator bcv.last_state_account.accounts ≡ none) where
  -- The reward of the miner does not open the creator's account.
  not_opened :
      (accs : Dict ℤ) (reward : ℤ)
      → lookup tx.creator accs ≡ none
      → lookup tx.creator (award accs b.miner_id reward) ≡ none
  unfolding award
  not_opened accs reward h = elim (Option-cases (lookup b.miner_id accs)) [
    | inl absent ↦ ground (arith, lookup-insert b.miner_id tx.creator reward accs)
    | inr (v, found) ↦
        ground (arith, lookup-insert b.miner_id tx.creator (int64 (v +ℤ reward)) accs)
  ]

  not_paid :
      (accs : Dict ℤ)
      → lookup tx.creator accs ≡ none
      → spend accs tx.creator bcv.cnf.create_fee ≡ err (unknown_account tx.creator (pos 0))
  unfolding spend
  not_paid accs h = ground arith

  not_charged :
      (parent_block : Bytes) (s : AccountScan)
      → s.faults ≡ []
      → lookup tx.creator s.changes ≡ none
      → (charge_step bcv.cnf t bcv.last_state_account parent_block tx bcv.cnf.create_fee s).faults
        ≡ []
  unfolding charge_step balance_of ◌+ℤ◌
  not_charged parent_block s quiet h =
      let opened = lookup-insert tx.creator tx.creator (pos 0) s.changes in
      let zero_change : balance_of tx.creator (insert tx.creator (pos 0) s.changes) ≡ pos 0 =
        ground (arith, opened, bytes_eq_refl tx.creator) in
      let zero_cached : balance_of tx.creator bcv.last_state_account.accounts ≡ pos 0 =
        ground arith in
      rw (free, h, zero_change, zero_cached) quiet

  -- If a creation costs nothing, and a regular block has one operation, a creation by someone who is
  -- not its miner and has no account, then the account scan of the block reports no error, but the
  -- evaluation of the block on the same accounts fails, because there is no such account.
  pub free_creation-refused :
      (parent_block : Bytes) (nodes : List Block) (idx : ℕ)
      → ((changes : Dict ℤ) × (validate_new_account_state t bcv b parent_block
            ≡ some (ok (changes, none))))
        × (evaluate_balance_block bcv.cnf.append_fee bcv.cnf.create_fee bcv.cnf.op_reward
              bcv.cnf.no_op_reward nodes idx b bcv.last_state_account.accounts
            ≡ err (unknown_account tx.creator (pos 0)))
  unfolding validate_new_account_state validate_new_account_block_ops account_scan
      evaluate_balance_block evaluate_balance_block_ops evaluate_balance_op lookup
  free_creation-refused parent_block nodes idx =
      let start = award [] b.miner_id bcv.cnf.op_reward in
      let first : AccountScan = record { changes = start; kept_ops = []; faults = [] } in
      let scanned = not_charged parent_block first refl (not_opened [] bcv.cnf.op_reward refl) in
      let after =
        charge_step bcv.cnf t bcv.last_state_account parent_block tx bcv.cnf.create_fee first in
      let accs = bcv.last_state_account.accounts in
      let run =
        not_paid (award accs b.miner_id bcv.cnf.op_reward)
          (not_opened accs bcv.cnf.op_reward unknown) in
      ((after.changes, ground arith), ground arith)
