-- ===== src/State/Validator/Charges.antt =====
-- The account scan returns for every well-formed tree, and keeps some of its operations.
use blockafile.Base.{
  ℕ, suc, ◌<◌, ◌≡◌, refl, subst, ◌⊎◌, inl, inr, Option, some, List, [], ◌∷◌, ◌++◌, Bytes, arith,
  Option-cases,
}
use blockafile.Base.Int.{ℤ}
use blockafile.Base.Dict.{Dict}
use blockafile.Crypto.Block.{
  Block, BlockOp, BlockOpType, create_file, append_file, delete_file, other_op,
}
use blockafile.DataStruct.MRootTree.{MRootTree, find, uint64_size}
use blockafile.DataStruct.MRootTree.WellFormed.{IsWellFormed}
use blockafile.State.Chain.{transverse_chain-IsChain}
use blockafile.State.Accounts.{AccountsState}
use blockafile.State.Validator.{
  Config, ScanError, AccountScan, scan_error, not_a_valid_file_op, charge_step, refund_step,
  account_scan,
}
use blockafile.State.Validator.Kept.{Filters, Filters-keep, Filters-drop, Filters-none}

-- A round of the account scan keeps the operation and adds no error, or drops it.
abbrev Judges : BlockOp → AccountScan → AccountScan → Type 0
Judges tx s s' =
    ((s'.faults ≡ s.faults) × (s'.kept_ops ≡ s.kept_ops ++ tx ∷ [])) ⊎ (s'.kept_ops ≡ s.kept_ops)

-- What the account scan of `rest` returns, beside what it has kept before.
abbrev pub Keeps :
    List BlockOp
    → List BlockOp
    → Option ScanError
    → Dict ℤ × List BlockOp × Option ScanError
    → Type 0
Keeps rest kept e (changes, kept', e') = Filters rest kept e kept' e'

module _ (cnf : Config) (t : MRootTree Block) (accs : AccountsState) (parent_block : Bytes) where
  charge_step-Judges :
      (tx : BlockOp) (fee : ℤ) (s : AccountScan)
      → Judges tx s (charge_step cnf t accs parent_block tx fee s)
  unfolding charge_step
  charge_step-Judges tx fee s = ground arith

  refund_step-Judges :
      (bcs : List BlockOp) (idx : ℕ) (tx : BlockOp) (s s' : AccountScan)
      → refund_step cnf t accs parent_block bcs idx tx s ≡ some s'
      → Judges tx s s'
  unfolding refund_step
  refund_step-Judges bcs idx tx s s' h = ground arith

  refund_step_returns :
      (bcs : List BlockOp) (idx : ℕ) (tx : BlockOp) (s : AccountScan)
      → IsWellFormed t
      → suc t.height < uint64_size
      → (s' : AccountScan) × (refund_step cnf t accs parent_block bcs idx tx s ≡ some s')
  unfolding refund_step
  refund_step_returns bcs idx tx s w room = elim (Option-cases (find t parent_block)) [
    | inl e ↦ rw (e, refund_step) (_, refl)
    | inr (n, e) ↦
        let low = w.highest parent_block n e in
        let (ns, chain, _, _) = transverse_chain-IsChain t parent_block n w e (omega arith) in
        rw (e, refund_step, chain) (_, refl)
  ]

  kept-Keeps :
      (rest : List BlockOp) (tx : BlockOp) (s s' : AccountScan)
      (r : Dict ℤ × List BlockOp × Option ScanError)
      → Judges tx s s'
      → Keeps rest s'.kept_ops (scan_error s'.faults) r
      → Keeps (tx ∷ rest) s.kept_ops (scan_error s.faults) r
  kept-Keeps rest tx s s' (changes, kept', e') (inl (clean, kept)) h =
      Filters-keep tx rest s.kept_ops kept' (scan_error s.faults) e' (
        subst (λ es. Filters rest (s.kept_ops ++ tx ∷ []) (scan_error es) kept' e') clean
          (subst (λ ks. Filters rest ks (scan_error s'.faults) kept' e') kept h))
  kept-Keeps rest tx s s' (changes, kept', e') (inr same) h =
      Filters-drop tx rest s.kept_ops kept' (scan_error s.faults) (scan_error s'.faults) e'
        (subst (λ ks. Filters rest ks (scan_error s'.faults) kept' e') same h)

  -- One round of the account scan, by the operation's type.
  abbrev scan_by :
      List BlockOp
      → ℕ
      → BlockOp
      → List BlockOp
      → AccountScan
      → BlockOpType
      → Option (Dict ℤ × List BlockOp × Option ScanError)
  scan_by bcs idx tx rest s ty =
      account_scan cnf t accs parent_block bcs idx (record tx { op_type = ty } ∷ rest) s

  module _ (bcs : List BlockOp) (idx : ℕ) (rest : List BlockOp)
      (r : Dict ℤ × List BlockOp × Option ScanError)
      (ih : (s : AccountScan)
        → account_scan cnf t accs parent_block bcs (suc idx) rest s ≡ some r
        → Keeps rest s.kept_ops (scan_error s.faults) r)
      (s : AccountScan) where
    scan_by-Keeps :
        (ty : BlockOpType) (tx : BlockOp)
        → scan_by bcs idx tx rest s ty ≡ some r
        → Keeps (record tx { op_type = ty } ∷ rest) s.kept_ops (scan_error s.faults) r
    unfolding account_scan
    scan_by-Keeps create_file tx h =
        let tx' = record tx { op_type = create_file } in
        kept-Keeps rest tx' s (charge_step cnf t accs parent_block tx' cnf.create_fee s) r
          (charge_step-Judges tx' cnf.create_fee s) (ih _ h)
    scan_by-Keeps append_file tx h =
        let tx' = record tx { op_type = append_file } in
        kept-Keeps rest tx' s (charge_step cnf t accs parent_block tx' cnf.append_fee s) r
          (charge_step-Judges tx' cnf.append_fee s) (ih _ h)
    scan_by-Keeps delete_file tx h =
        elim (Option-cases
          (refund_step cnf t accs parent_block bcs idx (record tx { op_type = delete_file }) s)) [
            | inl e ↦ absurd (ground arith)
            | inr (s', e) ↦
                kept-Keeps rest _ s s' r (refund_step-Judges bcs idx _ s s' e)
                  (ih s' (ground arith))
          ]
    scan_by-Keeps (other_op n) tx h =
        let nothing : some (s.changes, [], some not_a_valid_file_op) ≡ some r = h in
        let same : (s.changes, [], some not_a_valid_file_op) ≡ r = cc in
        subst (Keeps _ s.kept_ops (scan_error s.faults)) same
          (omega arith, λ e. absurd (omega arith))

  pub account_scan-Keeps :
      (bcs : List BlockOp) (idx : ℕ) (rest : List BlockOp) (s : AccountScan)
      (r : Dict ℤ × List BlockOp × Option ScanError)
      → account_scan cnf t accs parent_block bcs idx rest s ≡ some r
      → Keeps rest s.kept_ops (scan_error s.faults) r
  unfolding account_scan
  account_scan-Keeps bcs idx [] s r h =
      let same : (s.changes, s.kept_ops, scan_error s.faults) ≡ r = cc in
      subst (Keeps [] s.kept_ops (scan_error s.faults)) same
        (Filters-none s.kept_ops (scan_error s.faults))
  account_scan-Keeps bcs idx (tx ∷ rest) s r h =
      let ih = λ (s' : AccountScan). account_scan-Keeps bcs (suc idx) rest s' r in
      scan_by-Keeps bcs idx rest r ih s tx.op_type tx h

  module _ (w : IsWellFormed t) (room : suc t.height < uint64_size) where
    scan_by_returns :
        (bcs : List BlockOp) (idx : ℕ) (rest : List BlockOp)
        (ih : (s : AccountScan)
          → (r : Dict ℤ × List BlockOp × Option ScanError) × (account_scan cnf t accs parent_block
                bcs
                (suc idx)
                rest
                s
              ≡ some r))
        (s : AccountScan) (ty : BlockOpType) (tx : BlockOp)
        → (r : Dict ℤ × List BlockOp × Option ScanError) × (scan_by bcs idx tx rest s ty ≡ some r)
    unfolding account_scan
    scan_by_returns bcs idx rest ih s create_file tx = ih _
    scan_by_returns bcs idx rest ih s append_file tx = ih _
    scan_by_returns bcs idx rest ih s delete_file tx =
        let (s', e) = refund_step_returns bcs idx (record tx { op_type = delete_file }) s w room in
        let (r, e') = ih s' in (r, ground arith)
    scan_by_returns bcs idx rest ih s (other_op n) tx = (_, refl)

    pub account_scan_returns :
        (bcs : List BlockOp) (idx : ℕ) (rest : List BlockOp) (s : AccountScan)
        → (r : Dict ℤ × List BlockOp × Option ScanError) × (account_scan cnf t accs parent_block bcs
              idx rest s
            ≡ some r)
    unfolding account_scan
    account_scan_returns bcs idx [] s = (_, refl)
    account_scan_returns bcs idx (tx ∷ rest) s =
        let ih = λ (s' : AccountScan). account_scan_returns bcs (suc idx) rest s' in
        scan_by_returns bcs idx rest ih s tx.op_type tx
