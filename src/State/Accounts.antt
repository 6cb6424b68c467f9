-- ===== src/State/Accounts.antt =====
-- miner/state/block_chain_state.go: the balances that a chain of blocks generates. `Balance` is an int,
-- whose sums and differences wrap around at 64 bits.
pub mod Refund
pub mod Inserts
use blockafile.Base.{
  ℕ, zero, suc, ◌+◌, ◌-◌, Bool, true, false, Option, none, some, List, [], ◌∷◌, map, reverse, Bytes,
  ◌==◌, not, present, if◌then◌else◌, length, take, get_elem?, bytes_eq,
}
use blockafile.Base.Int.{ℤ, pos, int64, ◌+ℤ◌, ◌-ℤ◌, leb_ℤ}
use blockafile.Base.Dict.{Dict, lookup, insert}
use blockafile.Base.Result.{Result, ok, err, ◌>>=◌, ◌>>◌, fail_if}
use blockafile.Crypto.Block.{
  Block, BlockOp, create_file, append_file, delete_file, other_op, BlockType, no_op_block,
  regular_block, genesis_block,
}
use blockafile.DataStruct.MRootTree.{Node, MRootTree}
use blockafile.State.Chain.{transverse_chain}
use blockafile.State.Filesystem.{is_genesis}

-- The errors of the functions, by their messages.
pub data AccountsError : Type 0 where
  no_genesis_block invalid_op : AccountsError
  late_genesis_block : ℕ → AccountsError
  low_balance : Bytes → ℤ → ℤ → AccountsError
  unknown_account : Bytes → ℤ → AccountsError

pub record AccountsState : Type 0 where
  pub append_fee : ℤ
  pub create_fee : ℤ
  pub op_reward : ℤ
  pub no_op_reward : ℤ
  pub accounts : Dict ℤ

unfoldable pub balance_of : Bytes → Dict ℤ → ℤ
balance_of act accs = elim (lookup act accs) [ none ↦ pos 0 | some v ↦ v ]

-- `GetAccountBalance`
abbrev pub get_account_balance : AccountsState → Bytes → ℤ
get_account_balance b acc = balance_of acc b.accounts

unfoldable pub award : Dict ℤ → Bytes → ℤ → Dict ℤ
award accs act reward = elim (lookup act accs) [
  | some v ↦ insert act (int64 (v +ℤ reward)) accs
  | none ↦ insert act reward accs
]

unfoldable pub spend : Dict ℤ → Bytes → ℤ → Result AccountsError (Dict ℤ)
spend accs act fee = elim (lookup act accs) [
  | some v ↦
      if leb_ℤ fee v then ok (insert act (int64 (v -ℤ fee)) accs) else err (low_balance act v fee)
  | none ↦ err (unknown_account act fee)
]

-- `AccountsState.update`
unfoldable pub award_all : Dict ℤ → Dict ℤ → Dict ℤ
award_all accs [] = accs
award_all accs ((k, v) ∷ acc_up) = award_all (award accs k v) acc_up

unfoldable pub update : AccountsState → Dict ℤ → AccountsState
unfolding award_all
update b acc_up = record b { accounts = award_all b.accounts acc_up }

abbrev pub is_regular : BlockType → Bool
is_regular regular_block = true
is_regular _ = false

abbrev pub records_at : List Block → ℕ → List BlockOp
records_at nds i = elim (get_elem? nds i) [ none ↦ [] | some b ↦ b.records ]

module _ (append_fee create_fee : ℤ) where
  -- `fnApplyTx` of `refund`: the accounts, and whether the search is over.
  unfoldable pub apply_tx : Bytes → BlockOp → Dict ℤ → Dict ℤ × Bool
  apply_tx filename tx accs =
      let known =
        if present (lookup tx.creator accs) then accs else insert tx.creator (pos 0) accs in
      if bytes_eq tx.filename filename
      then elim tx.op_type [
        | create_file ↦ (award known tx.creator create_fee, true)
        | delete_file ↦ (known, true)
        | append_file ↦ (award known tx.creator append_fee, false)
        | other_op _ ↦ (known, false)
      ]
      else (accs, false)

  -- The `for` over `j`: the operations from the last on.
  unfoldable pub refund_ops : Bytes → List BlockOp → Dict ℤ → Dict ℤ × Bool
  refund_ops filename [] accs = (accs, false)
  refund_ops filename (tx ∷ ops) accs =
      let (accs', over) = apply_tx filename tx accs in
      let rest = refund_ops filename ops accs' in if over then (accs', true) else rest

  -- The `for` over `i`: the blocks from the last on.
  unfoldable pub refund_blocks : Bytes → List Block → Dict ℤ → Dict ℤ
  refund_blocks filename [] accs = accs
  refund_blocks filename (bae ∷ blocks) accs =
      let (accs', over) = refund_ops filename (reverse bae.records) accs in
      let rest = refund_blocks filename blocks accs' in
      let others = refund_blocks filename blocks accs in
      if is_regular bae.block_type then (if over then accs' else rest) else others

  -- `refund`; `curr_block_idx` is always the index of a node.
  unfoldable pub refund : Dict ℤ → Bytes → List Block → ℕ → ℕ → Dict ℤ
  refund accs filename nds curr_block_idx cur_tnx_id =
      let (accs', over) =
        refund_ops filename (reverse (take cur_tnx_id (records_at nds curr_block_idx))) accs in
      let rest = refund_blocks filename (reverse (take curr_block_idx nds)) accs' in
      if over then accs' else rest

  -- One round of the `for` of `evaluateBalanceBlockOps`.
  unfoldable pub evaluate_balance_op :
      BlockOp → List Block → ℕ → ℕ → Dict ℤ → Result AccountsError (Dict ℤ)
  evaluate_balance_op tx nds curr_block_idx idx accs = elim tx.op_type [
    | create_file ↦ spend accs tx.creator create_fee
    | append_file ↦ spend accs tx.creator append_fee
    | delete_file ↦ ok (refund accs tx.filename nds curr_block_idx idx)
    | other_op _ ↦ err invalid_op
  ]

  -- `evaluateBalanceBlockOps`, from the operation at `idx` on
  unfoldable pub evaluate_balance_block_ops :
      Dict ℤ → List BlockOp → List Block → ℕ → ℕ → Result AccountsError (Dict ℤ)
  evaluate_balance_block_ops accs [] nds curr_block_idx idx = ok accs
  evaluate_balance_block_ops accs (tx ∷ bcs) nds curr_block_idx idx =
      evaluate_balance_op tx nds curr_block_idx idx accs >>= λ accs'.
      evaluate_balance_block_ops accs' bcs nds curr_block_idx (suc idx)

  module _ (op_reward no_op_reward : ℤ) where
    -- One round of the `for` of `generateState`, for the block at `idx`.
    unfoldable pub evaluate_balance_block :
        List Block → ℕ → Block → Dict ℤ → Result AccountsError (Dict ℤ)
    evaluate_balance_block nodes idx bae res = elim bae.block_type [
      | genesis_block ↦ if idx == 0 then ok res else err (late_genesis_block idx)
      | regular_block ↦
          evaluate_balance_block_ops (award res bae.miner_id op_reward) bae.records nodes idx 0
      | no_op_block ↦ ok (award res bae.miner_id no_op_reward)
    ]

    unfoldable pub evaluate_balance_blocks :
        List Block → ℕ → List Block → Dict ℤ → Result AccountsError (Dict ℤ)
    evaluate_balance_blocks nodes idx [] res = ok res
    evaluate_balance_blocks nodes idx (bae ∷ rest) res =
        evaluate_balance_block nodes idx bae res >>= λ res'.
        evaluate_balance_blocks nodes (suc idx) rest res'

    -- `generateState`
    unfoldable pub generate_state : List Block → Result AccountsError (Dict ℤ)
    generate_state [] = ok []
    generate_state (first ∷ nodes) =
        fail_if (not (is_genesis first.block_type)) no_genesis_block
        >> evaluate_balance_blocks (first ∷ nodes) 0 (first ∷ nodes) []

    -- `NewAccountsState`; `none` is a panic of `transverseChain`.
    unfoldable pub new_accounts_state :
        MRootTree Block → Option (Node Block) → Option (Result AccountsError AccountsState)
    new_accounts_state t none = some (
        ok (record {
          append_fee = pos 0;
          create_fee = pos 0;
          op_reward = pos 0;
          no_op_reward = pos 0;
          accounts = [];
        }))
    new_accounts_state t (some nd) = elim (transverse_chain t nd) [
      | none ↦ none
      | some nds ↦ some (do
        st ← generate_state (map Node.value nds)
        ok (record {
          append_fee = append_fee;
          create_fee = create_fee;
          op_reward = op_reward;
          no_op_reward = no_op_reward;
          accounts = st;
        }))
    ]
