-- ===== src/State/Tests/Fees.antt =====
-- A creation that costs nothing.
use blockafile.Base.{◌≡◌, refl, false, none, some, [], ◌∷◌, codes, bytes_eq}
use blockafile.Base.Int.{ℤ, pos}
use blockafile.Base.Dict.{Dict, lookup}
use blockafile.Base.Result.{ok, err}
use blockafile.Crypto.Block.{Block}
use blockafile.State.Accounts.{unknown_account, evaluate_balance_block}
use blockafile.State.Validator.{Validator, new_validator, validate_new_account_state}
use blockafile.State.Validator.Free.{free_creation-refused}
use blockafile.State.Tests.{config, creation, first_block, genesis, root, one_block}

abbrev bcv : Validator
bcv = new_validator (record config { create_fee = pos 0 })

abbrev block : Block
block = record first_block { records = creation ∷ []; miner_id = codes "bob" }

someone_else : bytes_eq (codes "bob") (codes "ann") ≡ false
unfolding bytes_eq
someone_else = refl

no_account : lookup (codes "ann") bcv.last_state_account.accounts ≡ none
unfolding lookup
no_account = refl

free_creation-refused_example :
    ((changes : Dict ℤ) × (validate_new_account_state one_block bcv block root.id
        ≡ some (ok (changes, none))))
    × (evaluate_balance_block bcv.cnf.append_fee
          (pos 0)
          bcv.cnf.op_reward
          bcv.cnf.no_op_reward
          (genesis ∷ block ∷ [])
          1
          block
          bcv.last_state_account.accounts
        ≡ err (unknown_account (codes "ann") (pos 0)))
free_creation-refused_example =
    free_creation-refused one_block bcv block creation refl refl refl refl someone_else no_account
      root.id (genesis ∷ block ∷ []) 1
