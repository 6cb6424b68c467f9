-- ===== src/State/Validator/Payments.antt =====
-- The account scan of a block that reports no error against the evaluation of the block.
use blockafile.Base.{
  ℕ, suc, ◌-◌, ◌≡◌, ◌⊎◌, refl, subst, inl, inr, false, none, some, List, [], ◌∷◌, ◌++◌, map, Bytes,
  arith, length, Bool-cases, Option-cases, present, if◌then◌else◌,
}
use blockafile.Base.Int.{ℤ, pos, int64, ◌+ℤ◌, ltb_ℤ, leb_ℤ}
use blockafile.Base.Dict.{Dict, lookup, insert}
use blockafile.Base.Result.{Result, ok}
use blockafile.Crypto.Block.{
  Block, BlockOp, BlockOpType, create_file, append_file, delete_file, other_op,
}
use blockafile.DataStruct.MRootTree.{Node, MRootTree, find}
use blockafile.State.Chain.{transverse_chain}
use blockafile.State.Accounts.{
  AccountsState, AccountsError, balance_of, get_account_balance, refund, evaluate_balance_op,
  evaluate_balance_block_ops,
}
use blockafile.State.Accounts.Refund.{IsInt}
use blockafile.State.Validator.Caches.{IsUnique, IsUnique-insert}
use blockafile.State.Accounts.Inserts.{opened-keeps, refund-keeps}
use blockafile.State.Validator.Errors.{Config, CompositeError}
use blockafile.State.Validator.Scan.{
  AccountScan, scan_error, charge_step, refund_step, account_scan, fake_block,
}
use blockafile.State.Validator.Balances.{
  Sums, charge_step-spend, charge_step-faults, refund_step-faults, refund_step-refund,
}

module _ (cnf : Config) (t : MRootTree Block) (accs : AccountsState) (parent_block : Bytes) where
  module _ (append_IsInt : IsInt cnf.append_fee) (create_IsInt : IsInt cnf.create_fee)
      (parent : Node Block) (nds : List (Node Block)) (found : find t parent_block ≡ some parent)
      (chain : transverse_chain t parent ≡ some nds) (b : Block) where
    module _ (changes : Dict ℤ) (kept : List BlockOp) where
      -- The scan of operations from `idx` on reports no error.
      abbrev IsQuiet : ℕ → List BlockOp → AccountScan → Type 0
      IsQuiet idx rest s =
          account_scan cnf t accs parent_block b.records idx rest s ≡ some (changes, kept, none)

      -- What it has done with the first one.
      abbrev Begun : ℕ → BlockOp → List BlockOp → AccountScan → AccountScan → Type 0
      Begun idx tx rest s s' =
          ((tx.op_type ≡ create_file)
            × (s' ≡ charge_step cnf t accs parent_block tx cnf.create_fee s))
          ⊎ ((tx.op_type ≡ append_file)
              × (s' ≡ charge_step cnf t accs parent_block tx cnf.append_fee s))
          ⊎ ((tx.op_type ≡ delete_file)
              × (refund_step cnf t accs parent_block b.records idx tx s ≡ some s'))

      begun :
          (idx : ℕ) (tx : BlockOp) (rest : List BlockOp) (s : AccountScan)
          → IsQuiet idx (tx ∷ rest) s
          → (s' : AccountScan) × IsQuiet (suc idx) rest s' × Begun idx tx rest s s'
      unfolding account_scan
      begun idx tx rest s h = by_type tx.op_type refl
        where
          by_type :
              (ty : BlockOpType)
              → tx.op_type ≡ ty
              → (s' : AccountScan) × IsQuiet (suc idx) rest s' × Begun idx tx rest s s'
          by_type create_file e =
              (charge_step cnf t accs parent_block tx cnf.create_fee s, ground arith, inl (e, refl))
          by_type append_file e = (
            charge_step cnf t accs parent_block tx cnf.append_fee s,
            ground arith,
            inr (inl (e, refl)),
          )
          by_type delete_file e =
              elim (Option-cases (refund_step cnf t accs parent_block b.records idx tx s)) [
                | inl nothing ↦ absurd (ground arith)
                | inr (s', done) ↦ (s', ground arith, inr (inr (e, done)))
              ]
          by_type (other_op n) e = absurd (ground arith)

      faults-before :
          (idx : ℕ) (rest : List BlockOp) (s : AccountScan) → IsQuiet idx rest s → s.faults ≡ []
      unfolding account_scan
      faults-before idx [] s h = no_fault s.faults cc
        where
          no_fault : (es : CompositeError) → scan_error es ≡ none → es ≡ []
          no_fault [] e = refl
          no_fault (x ∷ es) e = absurd cc
      faults-before idx (tx ∷ rest) s h =
          let (s', later, first) = begun idx tx rest s h in
          let quiet = faults-before (suc idx) rest s' later in
          elim first [
            | inl (_, is) ↦
                charge_step-faults cnf t accs parent_block tx cnf.create_fee s
                  (subst (λ (q : AccountScan). q.faults ≡ []) is quiet)
            | inr (inl (_, is)) ↦
                charge_step-faults cnf t accs parent_block tx cnf.append_fee s
                  (subst (λ (q : AccountScan). q.faults ≡ []) is quiet)
            | inr (inr (_, done)) ↦
                refund_step-faults cnf t accs parent_block b.records idx tx s s' done quiet
          ]

      module _ (append_positive : leb_ℤ cnf.append_fee (pos 0) ≡ false)
          (create_positive : leb_ℤ cnf.create_fee (pos 0) ≡ false) where
        abbrev evaluated_op : ℕ → BlockOp → Dict ℤ → Result AccountsError (Dict ℤ)
        evaluated_op idx tx cur =
            evaluate_balance_op cnf.append_fee cnf.create_fee tx (map Node.value nds ++ b ∷ [])
              (length (map Node.value nds)) idx cur

        Begun-evaluates :
            (idx : ℕ) (tx : BlockOp) (rest : List BlockOp) (s s' : AccountScan) (cur : Dict ℤ)
            → Sums accs.accounts s.changes cur
            → s'.faults ≡ []
            → Begun idx tx rest s s'
            → (cur' : Dict ℤ) × (evaluated_op idx tx cur ≡ ok cur')
              × Sums accs.accounts s'.changes cur'
        unfolding evaluate_balance_op
        Begun-evaluates idx tx rest s s' cur sums quiet (inl (e, is)) =
            let (cur', done, sums') =
              charge_step-spend cnf t accs parent_block tx cnf.create_fee s cur create_positive sums
                (subst (λ (q : AccountScan). q.faults ≡ []) is quiet) in
            (cur', rw e done, rw is sums')
        Begun-evaluates idx tx rest s s' cur sums quiet (inr (inl (e, is))) =
            let (cur', done, sums') =
              charge_step-spend cnf t accs parent_block tx cnf.append_fee s cur append_positive sums
                (subst (λ (q : AccountScan). q.faults ≡ []) is quiet) in
            (cur', rw e done, rw is sums')
        Begun-evaluates idx tx rest s s' cur sums quiet (inr (inr (e, done))) = (
          _,
          rw e refl,
          refund_step-refund cnf t accs parent_block append_IsInt create_IsInt parent nds found
              chain b idx tx s s' cur sums done,
        )

        pub account_scan-evaluates :
            (rest : List BlockOp) (idx : ℕ) (s : AccountScan) (cur : Dict ℤ)
            → Sums accs.accounts s.changes cur
            → IsQuiet idx rest s
            → (cur' : Dict ℤ) × (evaluate_balance_block_ops cnf.append_fee cnf.create_fee cur rest
                  (map Node.value nds ++ b ∷ [])
                  (length (map Node.value nds))
                  idx
                ≡ ok cur')
              × Sums accs.accounts changes cur'
        unfolding evaluate_balance_block_ops account_scan
        account_scan-evaluates [] idx s cur sums h =
            let same : s.changes ≡ changes = cc in (cur, refl, rw (← same) sums)
        account_scan-evaluates (tx ∷ rest) idx s cur sums h =
            let (s', later, first) = begun idx tx rest s h in
            let quiet = faults-before (suc idx) rest s' later in
            let (mid, done, sums') = Begun-evaluates idx tx rest s s' cur sums quiet first in
            let (cur', more, sums'') = account_scan-evaluates rest (suc idx) s' mid sums' later in
            (cur', rw done more, sums'')

      IsUnique-charge_step :
          (tx : BlockOp) (fee : ℤ) (s : AccountScan)
          → IsUnique s.changes
          → IsUnique (charge_step cnf t accs parent_block tx fee s).changes
      unfolding charge_step
      IsUnique-charge_step tx fee s unique =
          let known = opened-keeps IsUnique IsUnique-insert s.changes tx.creator unique in
          let res =
            if present (lookup tx.creator s.changes)
            then s.changes
            else insert tx.creator (pos 0) s.changes in
          let b = int64 (get_account_balance accs tx.creator +ℤ balance_of tx.creator res) in
          elim (Bool-cases (ltb_ℤ b fee)) [
            | inl short ↦ rw short known
            | inr covered ↦ rw covered (IsUnique-insert res tx.creator _ known)
          ]

      IsUnique-refund_step :
          (idx : ℕ) (tx : BlockOp) (s s' : AccountScan)
          → IsUnique s.changes
          → refund_step cnf t accs parent_block b.records idx tx s ≡ some s'
          → IsUnique s'.changes
      unfolding refund_step
      IsUnique-refund_step idx tx s s' unique h =
          let kept_unique = λ (blocks : List Block) (i : ℕ).
            refund-keeps IsUnique IsUnique-insert cnf.append_fee cnf.create_fee tx.filename
              s.changes blocks i idx unique in
          let blocks = map Node.value nds ++ fake_block cnf t accs parent_block b.records ∷ [] in
          let is : s'.changes
              ≡ refund cnf.append_fee cnf.create_fee s.changes tx.filename blocks
                  (length blocks - 1) idx =
            ground arith in
          rw is (kept_unique blocks (length blocks - 1))

      pub account_scan-IsUnique :
          (rest : List BlockOp) (idx : ℕ) (s : AccountScan)
          → IsUnique s.changes
          → IsQuiet idx rest s
          → IsUnique changes
      unfolding account_scan
      account_scan-IsUnique [] idx s unique h =
          let same : s.changes ≡ changes = cc in rw (← same) unique
      account_scan-IsUnique (tx ∷ rest) idx s unique h =
          let (s', later, first) = begun idx tx rest s h in
          let unique' : IsUnique s'.changes = elim first [
            | inl (_, is) ↦ rw is (IsUnique-charge_step tx cnf.create_fee s unique)
            | inr (inl (_, is)) ↦ rw is (IsUnique-charge_step tx cnf.append_fee s unique)
            | inr (inr (_, done)) ↦ IsUnique-refund_step idx tx s s' unique done
          ] in
          account_scan-IsUnique rest (suc idx) s' unique' later
