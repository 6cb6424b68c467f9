-- ===== src/Calculators/Rounds.antt =====
-- The loops of `NoOpCalculator` and `JobsCalculator`, one round each. What the listener answers and
-- what the other goroutines do to the calculator in the meantime are arguments.
use blockafile.Base.{
  ℕ, zero, suc, ◌+◌, Bool, true, false, Option, none, some, List, [], Bytes, bytes_eq, ◌==◌,
  if◌then◌else◌, length, copy, replicate,
}
use blockafile.Base.Int.{ℤ, pos, ltb_ℤ}
use blockafile.Crypto.Block.{
  BlockOp, Block, BlockType, regular_block, no_op_block, get_zeros_for_type, hash,
  find_nonce_with_stop_signal,
}
use blockafile.Calculators.{BlockCalculator, get_block_ops, add_jobs}

-- What a call of `generateNewBlock` reads: the longest chain's head, or none for a nil pointer; the
-- stop signal at each test; and the random number that the search starts from. `fuel` bounds it.
pub record Mining : Type 0 where
  pub root : Option Block
  pub stop_sig : ℕ → Bool
  pub start : ℕ
  pub fuel : ℕ

-- `md5.Size`
abbrev pub md5_size : ℕ
md5_size = 16

-- A try of `JobsCalculator`'s inner loop: the search, and what is read after it.
pub record Attempt : Type 0 where
  pub mining : Mining
  pub root_after : Option Block
  pub op_suspended : Bool

-- How the inner loop ends.
pub data Mined : Type 0 where
  found put_back : Block → Mined

module _ (md5 : Bytes → Bytes) (miner_id : Bytes) where
  -- `generateNewBlock`
  unfoldable pub generate_new_block :
      BlockCalculator → Mining → List BlockOp → BlockType → Option Block
  generate_new_block bc s ops block_type = elim s.root [
    | none ↦ none
    | some root ↦
        let bk : Block = record {
          block_type = block_type;
          prev_block = copy (replicate md5_size 0) (hash md5 root);
          records = ops;
          miner_id = miner_id;
          nonce = 0;
        } in
        let zeros = get_zeros_for_type bk bc.op_number_of_zeros bc.no_op_number_of_zeros in
        find_nonce_with_stop_signal md5 s.stop_sig s.fuel s.start bk zeros
  ]

  -- Whether the block still is for the head of the longest chain; none is a nil pointer.
  abbrev pub is_for_head : Option Block → Block → Option Bool
  is_for_head none b = none
  is_for_head (some root) b = some (bytes_eq (hash md5 root) b.prev_block)

  abbrev pub kept_if : Option Bool → Block → Option (Option Block)
  kept_if none b = none
  kept_if (some true) b = some (some b)
  kept_if (some false) b = some none

  -- A round of `NoOpCalculator`: the block that it adds, if any. `suspended` is `noopSuspended` after
  -- the search.
  unfoldable pub no_op_round :
      BlockCalculator → Mining → Bool → Option Block → Option (Option Block)
  unfolding generate_new_block
  no_op_round bc s suspended root_after = elim (generate_new_block bc s [] no_op_block) [
    | none ↦ none
    | some b ↦ if suspended then some none else kept_if (is_for_head root_after b) b
  ]

  -- What follows a try: the block is found, or put back, or there is another try.
  abbrev pub tried : Option Bool → Bool → Block → Option Mined → Option Mined
  tried none suspended b later = none
  tried (some true) suspended b later = some (found b)
  tried (some false) suspended b later = if suspended then some (put_back b) else later

  -- The inner loop of `JobsCalculator`, on fuel.
  unfoldable pub mine : ℕ → BlockCalculator → (ℕ → Attempt) → ℕ → List BlockOp → Option Mined
  unfolding generate_new_block
  mine zero bc attempts i ops = none
  mine (suc fuel) bc attempts i ops =
      let later = mine fuel bc attempts (i + 1) ops in
      let a = attempts i in
      elim (generate_new_block bc a.mining ops regular_block) [
        | none ↦ none
        | some b ↦ tried (is_for_head a.root_after b) a.op_suspended b later
      ]

  -- `addedToLongestChainValidation`, on fuel: the depth of the block in each round.
  unfoldable pub added_to_longest_chain : ℕ → ℤ → (ℕ → ℤ) → ℕ → Option Bool
  added_to_longest_chain zero max_confirm depths i = none
  added_to_longest_chain (suc fuel) max_confirm depths i =
      let later = added_to_longest_chain fuel max_confirm depths (i + 1) in
      if ltb_ℤ (depths i) (pos 0)
      then some false
      else if ltb_ℤ max_confirm (depths i)
      then some true
      else later

  -- What `JobsCalculator` does with what it mined; `meanwhile` is what others do to the calculator
  -- until then, the calls made by the tree for the added block among it.
  abbrev pub after_mining :
      (BlockCalculator → BlockCalculator)
      → BlockCalculator
      → Option Bool
      → Mined
      → Option (BlockCalculator × Option Block)
  after_mining meanwhile bc confirmed (put_back b) = elim (add_jobs (meanwhile bc) b.records) [
    | none ↦ none
    | some bc' ↦ some (bc', none)
  ]
  after_mining meanwhile bc none (found b) = none
  after_mining meanwhile bc (some true) (found b) =
      some (record (meanwhile bc) { noop_suspended = true }, some b)
  after_mining meanwhile bc (some false) (found b) =
      elim (add_jobs (record (meanwhile bc) { noop_suspended = true }) b.records) [
        | none ↦ none
        | some bc' ↦ some (bc', some b)
      ]

  -- A round of `JobsCalculator`: the block that it adds, if any.
  unfoldable pub jobs_round :
      (BlockCalculator → BlockCalculator)
      → (List BlockOp → List BlockOp)
      → ℕ
      → (ℕ → Attempt)
      → (BlockCalculator → BlockCalculator)
      → (ℕ → ℤ)
      → BlockCalculator
      → Option (BlockCalculator × Option Block)
  unfolding mine added_to_longest_chain
  jobs_round slept validate fuel attempts meanwhile depths bc =
      elim (get_block_ops slept validate bc) [
        | none ↦ none
        | some (block_ops, taken) ↦
            if length block_ops == 0
            then some (record taken { noop_suspended = false }, none)
            else let mining = record taken { noop_suspended = true; op_suspended = false } in
              elim (mine fuel mining attempts 0 block_ops) [
                | none ↦ none
                | some mined ↦
                    after_mining meanwhile mining
                      (added_to_longest_chain fuel bc.max_confirm depths 0) mined
              ]
      ]
