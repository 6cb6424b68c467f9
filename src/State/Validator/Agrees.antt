-- ===== src/State/Validator/Agrees.antt =====
-- What `Validate` accepts and caches against what the chain with the block generates.
use blockafile.Base.{
  ℕ, ◌≤◌, ◌≡◌, sym, ap, subst, ◌∙◌, inl, inr, true, false, Option, none, some, List, [], ◌∷◌, ◌++◌,
  map, Bytes, arith, length, Option-cases,
}
use blockafile.Base.Int.{ℤ, pos, int64, leb_ℤ, ◌+ℤ◌}
use blockafile.Base.Dict.{Dict, lookup, insert}
use blockafile.Base.Result.{ok}
use blockafile.Shared.{FileInfo, max_record_count}
use blockafile.Crypto.Block.{Block, BlockOp, regular_block, parent_id}
use blockafile.Crypto.Block as Crypto
use blockafile.DataStruct.MRootTree.{Node, MRootTree, find}
use blockafile.State.Chain.{transverse_chain}
use blockafile.State.Filesystem.{evaluate_fs_block_ops}
use blockafile.State.Accounts.{
  AccountsState, award, balance_of, evaluate_balance_block, evaluate_balance_block_ops,
}
use blockafile.State.Accounts as Accounts
use blockafile.State.Accounts.Refund.{IsInt, share, award-IsInt, balance_of-award}
use blockafile.State.Accounts.Inserts.{award-keeps, balance_of-award_all}
use blockafile.State.Validator.{
  Validator, validate, validate_on, refresh, accepted, validate_new_account_state,
  validate_new_account_block_ops, validate_new_fs_state, AccountScan,
}
use blockafile.State.Validator.Accepts.{validate-beside, after_refresh-ok, validate_on-ok}
use blockafile.State.Validator.Counts.{count_of, HasRoom}
use blockafile.State.Validator.Caches.{IsUnique, IsUnique-insert, update-follows}
use blockafile.State.Validator.Balances.{Sums}
use blockafile.State.Validator.Payments.{account_scan-evaluates, account_scan-IsUnique}

award-first :
    (x miner : Bytes) (reward : ℤ) → balance_of x (award [] miner reward) ≡ share x miner reward
unfolding award balance_of lookup insert
award-first x miner reward = ground arith

-- The reward of a block, before its operations.
Sums-start :
    (accounts : Dict ℤ) (miner : Bytes) (reward : ℤ)
    → IsInt reward
    → ((x : Bytes) → IsInt (balance_of x accounts))
    → Sums accounts (award [] miner reward) (award accounts miner reward)
Sums-start accounts miner reward small ints x =
    sym (award-IsInt x accounts miner reward small (ints x))
    ∙ balance_of-award x accounts miner reward
    ∙ ap (λ v. int64 (balance_of x accounts +ℤ v)) (sym (award-first x miner reward))

evaluate_balance_block-regular :
    (append_fee create_fee op_reward no_op_reward : ℤ) (nodes : List Block) (idx : ℕ) (b : Block)
    (accs : Dict ℤ)
    → b.block_type ≡ regular_block
    → evaluate_balance_block append_fee create_fee op_reward no_op_reward nodes idx b accs
      ≡ evaluate_balance_block_ops append_fee create_fee
          (award accs b.miner_id op_reward)
          b.records
          nodes
          idx
          0
unfolding evaluate_balance_block
evaluate_balance_block-regular append_fee create_fee op_reward no_op_reward nodes idx b accs h =
    ground arith

module _ (t : MRootTree Block) (md5 : Bytes → Bytes) where
  -- The account scan of a regular block, which `Validate` has found without an error.
  validate_on-accounts :
      (mid bcv' : Validator) (root : Node Block) (b : Block) (r : Option (Node Block))
      → b.block_type ≡ regular_block
      → validate_on t md5 mid root b ≡ some (bcv', ok r)
      → (acc_up : Dict ℤ) × (kept : List BlockOp) × (validate_new_account_block_ops mid.cnf t
            mid.last_state_account root.id b.records
            (award [] b.miner_id mid.cnf.op_reward)
          ≡ some (acc_up, kept, none))
        × (bcv' ≡ accepted t mid (Crypto.id md5 b) (validate_new_fs_state t mid b) acc_up)
  unfolding validate_on validate_new_account_state
  validate_on-accounts mid bcv' root b r regular h =
      let scan =
        validate_new_account_block_ops mid.cnf t mid.last_state_account root.id b.records
          (award [] b.miner_id mid.cnf.op_reward) in
      elim (Option-cases scan) [
        | inl e ↦ absurd (ground arith)
        | inr ((acc_up, kept, none), e) ↦ (acc_up, kept, ground arith, ground arith)
        | inr ((acc_up, kept, some fault), e) ↦ absurd (ground arith)
      ]

  -- The block is new, its parent there and its hash valid, its evaluation on the states of `mid`
  -- fails neither for the accounts nor for the files, and the cached states agree with it.
  abbrev pub Agrees :
      Validator → Validator → Validator → Block → Node Block → List (Node Block) → Type 0
  Agrees bcv mid bcv' b root nds =
      (find t (Crypto.id md5 b) ≡ none)
      × (find t (parent_id b) ≡ some root)
      × (Crypto.valid md5 b bcv.cnf.op_number_of_zeros bcv.cnf.no_op_number_of_zeros ≡ true)
      × (bcv'.generating_node_id ≡ Crypto.id md5 b)
      × ((accs : Dict ℤ) × (evaluate_balance_block mid.cnf.append_fee mid.cnf.create_fee
              mid.cnf.op_reward mid.cnf.no_op_reward (map Node.value nds ++ b ∷ [])
              (length (map Node.value nds)) b mid.last_state_account.accounts
            ≡ ok accs)
          × ((x : Bytes)
              → balance_of x accs ≡ int64 (balance_of x bcv'.last_state_account.accounts)))
      × ((fs : Dict FileInfo) × (evaluate_fs_block_ops mid.last_filesystem_state.fs b.records true
              true
            ≡ ok fs)
          × ((x : Bytes)
              → count_of (lookup x bcv'.last_filesystem_state.fs) ≡ count_of (lookup x fs)))

  module _ (bcv mid bcv' : Validator) (b : Block) (root : Node Block) (nds : List (Node Block))
      (regular : b.block_type ≡ regular_block)
      (passes : validate t md5 bcv b ≡ some (bcv', ok (some root)))
      (ready : refresh t bcv root ≡ some (mid, ok tt)) (stored : find t root.id ≡ some root)
      (chain : transverse_chain t root ≡ some nds) (append_IsInt : IsInt mid.cnf.append_fee)
      (create_IsInt : IsInt mid.cnf.create_fee) (reward_IsInt : IsInt mid.cnf.op_reward)
      (append_positive : leb_ℤ mid.cnf.append_fee (pos 0) ≡ false)
      (create_positive : leb_ℤ mid.cnf.create_fee (pos 0) ≡ false)
      (ints : (x : Bytes) → IsInt (balance_of x mid.last_state_account.accounts))
      (room : HasRoom (length b.records) mid.last_filesystem_state.fs)
      (few : length b.records ≤ max_record_count) where
    accounts_agree :
        (acc_up : Dict ℤ) (kept : List BlockOp)
        → validate_new_account_block_ops mid.cnf t mid.last_state_account root.id b.records
            (award [] b.miner_id mid.cnf.op_reward)
          ≡ some (acc_up, kept, none)
        → (accs : Dict ℤ) × (evaluate_balance_block mid.cnf.append_fee mid.cnf.create_fee
              mid.cnf.op_reward mid.cnf.no_op_reward
              (map Node.value nds ++ b ∷ [])
              (length (map Node.value nds))
              b
              mid.last_state_account.accounts
            ≡ ok accs)
          × ((x : Bytes)
              → balance_of x accs
                ≡ int64 (balance_of x (Accounts.update mid.last_state_account acc_up).accounts))
    unfolding validate_new_account_block_ops Accounts.update
    accounts_agree acc_up kept h =
        let accounts = mid.last_state_account.accounts in
        let start = award [] b.miner_id mid.cnf.op_reward in
        let first : AccountScan = record { changes = start; kept_ops = []; faults = [] } in
        let (accs, done, sums) =
          account_scan-evaluates mid.cnf t mid.last_state_account root.id append_IsInt create_IsInt
            root nds stored chain b acc_up kept append_positive create_positive b.records 0 first
            (award accounts b.miner_id mid.cnf.op_reward)
            (Sums-start accounts b.miner_id mid.cnf.op_reward reward_IsInt ints) h in
        let unique =
          account_scan-IsUnique mid.cnf t mid.last_state_account root.id append_IsInt create_IsInt
            root nds stored chain b acc_up kept b.records 0 first
            (award-keeps IsUnique IsUnique-insert [] b.miner_id mid.cnf.op_reward tt) h in
        (
          accs,
          evaluate_balance_block-regular mid.cnf.append_fee mid.cnf.create_fee mid.cnf.op_reward
                mid.cnf.no_op_reward (map Node.value nds ++ b ∷ []) (length (map Node.value nds)) b
                accounts regular
              ∙ done,
          λ x. sums x ∙ sym (balance_of-award_all x acc_up accounts unique),
        )

    -- Take a regular block, which Validate accepts on its parent node; the states that it has for the
    -- parent, cached or generated, of which each balance is in the range of an int of 64 bits and no
    -- file is within as many records of the limit as the block has operations, at most 65535; and
    -- positive fees, which with the reward are in that range too. Then no node of the tree has the
    -- block's id, its hash is valid for its type, and the evaluation of the block on those states,
    -- as the next of the chain, fails neither for the accounts nor, with every operation confirmed,
    -- for the files. The validator's cached states are then labelled with the block's id, and agree
    -- with the evaluated ones: each account has the same balance, as an int of 64 bits, and there
    -- are the same files, each with as many records.
    pub validate-Agrees : Agrees bcv mid bcv' b root nds
    unfolding validate_new_fs_state
    validate-Agrees =
        let (fresh, hash_ok, parent, found, later) =
          validate-beside t md5 bcv bcv' b (some root) (inl regular) passes in
        let (mid', ready', judged) = after_refresh-ok t md5 bcv bcv' parent b (some root) _ later in
        let (is, label, clean) = validate_on-ok t md5 mid' bcv' parent b (some root) judged in
        let same : parent ≡ root = cc in
        let same_mid : mid' ≡ mid = cc in
        let judged_mid : validate_on t md5 mid root b ≡ some (bcv', ok (some root)) = cc in
        let clean_mid : (validate_new_fs_state t mid b).errors ≡ [] =
          subst (λ (v : Validator). (validate_new_fs_state t v b).errors ≡ []) same_mid clean in
        let (acc_up, kept, scan, after) =
          validate_on-accounts mid bcv' root b (some root) regular judged_mid in
        let files = update-follows mid.last_filesystem_state b.records room few clean_mid in
        (
          fresh,
          subst (λ n. find t (parent_id b) ≡ some n) same found,
          hash_ok,
          label,
          rw after (accounts_agree acc_up kept scan),
          rw after files,
        )
