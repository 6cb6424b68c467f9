-- ===== src/State/Tests/Money.antt =====
-- The accounts of the two blocks.
use blockafile.Base.{◌≡◌, refl, ◌++◌, [], ◌∷◌, codes, reverse, take, bytes_eq}
use blockafile.Base.Dict.{Dict, lookup, insert}
use blockafile.Base.Int.{ℤ, pos, int64, ◌+ℤ◌, ◌-ℤ◌}
use blockafile.State.Accounts.{
  generate_state, evaluate_balance_blocks, evaluate_balance_block, evaluate_balance_block_ops,
  evaluate_balance_op, award, spend, balance_of, refund, records_at,
}
use blockafile.State.Accounts.Refund.{IsInt, owed, history, refund-owed}
use blockafile.State.Tests.{genesis, first_block, result_or}

abbrev balances : Dict ℤ
balances =
    result_or [] (generate_state (pos 1) (pos 2) (pos 9) (pos 1) (genesis ∷ first_block ∷ []))

balance-IsInt : IsInt (balance_of (codes "ann") balances)
unfolding generate_state evaluate_balance_blocks evaluate_balance_block evaluate_balance_block_ops
    evaluate_balance_op award spend lookup insert bytes_eq balance_of ◌+ℤ◌ ◌-ℤ◌
balance-IsInt = refl

refund-owed_example :
    balance_of
      (codes "ann")
      (refund (pos 1) (pos 2) balances (codes "notes") (genesis ∷ first_block ∷ []) 1 2)
    ≡ int64 (
        balance_of (codes "ann") balances
        +ℤ owed (codes "ann") (pos 1) (pos 2) (codes "notes") (
            reverse (take 2 (records_at (genesis ∷ first_block ∷ []) 1))
            ++ history
                (codes "ann")
                (pos 1)
                (pos 2)
                (codes "notes")
                (reverse (take 1 (genesis ∷ first_block ∷ [])))))
refund-owed_example =
    refund-owed (codes "ann") (pos 1) (pos 2) (codes "notes") refl refl balances
      (genesis ∷ first_block ∷ []) 1 2 balance-IsInt
