-- ===== src/State/Validator/Balances.antt =====
-- The scan of a block's fees and refunds against their evaluation on the accounts.
use blockafile.Base.{
  ℕ, ◌-◌, ◌≡◌, refl, sym, ap, subst, ◌∙◌, inl, inr, true, false, some, List, [], ◌∷◌, ◌++◌, map,
  reverse, take, Bytes, arith, length, length-append, bytes_eq, bytes_eq_iff, Bool-cases,
  Option-cases, present, if◌then◌else◌,
}
use blockafile.Base.Int.{
  ℤ, pos, int64, int64-cong, int64-int64, int64-+ℤ, int64--ℤ, ◌+ℤ◌, ◌-ℤ◌, ltb_ℤ, leb_ℤ, int_laws,
}
use blockafile.Base.Dict.{Dict, lookup, insert, lookup-insert}
use blockafile.Base.Result.{ok}
use blockafile.Crypto.Block.{Block, BlockOp}
use blockafile.DataStruct.MRootTree.{Node, MRootTree, find}
use blockafile.State.Chain.{transverse_chain}
use blockafile.State.Accounts.{
  AccountsState, balance_of, get_account_balance, spend, refund, records_at,
}
use blockafile.State.Accounts.Refund.{
  IsInt, balance_of-opened, history, owed, int64-refund, refund-owed,
}
use blockafile.State.Validator.Errors.{Config}
use blockafile.State.Validator.Scan.{AccountScan, charge_step, refund_step, fake_block}

-- The last block of a chain.
length-last : (xs : List Block) (y : Block) → length (xs ++ y ∷ []) - 1 ≡ length xs
length-last [] y = refl
length-last (x ∷ xs) y = omega (arith, length-append xs (y ∷ []))

records_at-last : (xs : List Block) (y : Block) → records_at (xs ++ y ∷ []) (length xs) ≡ y.records
records_at-last [] y = refl
records_at-last (x ∷ xs) y = records_at-last xs y

take-last : (xs : List Block) (y : Block) → take (length xs) (xs ++ y ∷ []) ≡ xs
take-last [] y = refl
take-last (x ∷ xs) y = ap (◌∷◌ x) (take-last xs y)

-- Each balance of `cur` is the cached one with the changes of the scan.
abbrev pub Sums : Dict ℤ → Dict ℤ → Dict ℤ → Type 0
Sums cached changes cur =
    (x : Bytes) → balance_of x cur ≡ int64 (balance_of x cached +ℤ balance_of x changes)

Sums-cong : (c r r' : ℤ) → int64 r ≡ int64 r' → int64 (c +ℤ r) ≡ int64 (c +ℤ r')
Sums-cong c r r' h = ap int64 (swap r) ∙ int64-cong r r' c h ∙ ap int64 (sym (swap r'))
  where
    swap : (x : ℤ) → c +ℤ x ≡ x +ℤ c
    swap x = omega int_laws

less_fee : (c r fee : ℤ) → int64 (int64 (c +ℤ r) -ℤ fee) ≡ int64 (c +ℤ int64 (r -ℤ fee))
less_fee c r fee =
    int64--ℤ (c +ℤ r) fee
    ∙ ap int64 (sum c r fee)
    ∙ sym (Sums-cong c (int64 (r -ℤ fee)) (r -ℤ fee) (int64-int64 (r -ℤ fee)))
  where
    sum : (x y z : ℤ) → x +ℤ y -ℤ z ≡ x +ℤ (y -ℤ z)
    sum x y z = omega int_laws

balance_of-insert :
    (x act : Bytes) (v : ℤ) (accs : Dict ℤ)
    → balance_of x (insert act v accs) ≡ (if bytes_eq act x then v else balance_of x accs)
unfolding balance_of
balance_of-insert x act v accs = ground (arith, lookup-insert act x v accs)

-- A payment of a positive fee that the balance covers.
paid :
    (cur : Dict ℤ) (act : Bytes) (fee : ℤ)
    → leb_ℤ fee (pos 0) ≡ false
    → ltb_ℤ (balance_of act cur) fee ≡ false
    → spend cur act fee ≡ ok (insert act (int64 (balance_of act cur -ℤ fee)) cur)
unfolding spend balance_of
paid cur act fee positive covered = elim (Option-cases (lookup act cur)) [
  | inl absent ↦ absurd (ground arith)
  | inr (v, found) ↦
      let enough : leb_ℤ fee v ≡ true = ground arith in rw (found, spend, balance_of, enough) refl
]

paid-Sums :
    (cached changes cur : Dict ℤ) (act : Bytes) (fee : ℤ)
    → Sums cached changes cur
    → Sums cached
        (insert act (int64 (balance_of act changes -ℤ fee)) changes)
        (insert act (int64 (balance_of act cur -ℤ fee)) cur)
paid-Sums cached changes cur act fee sums x =
    let was = sums act in
    let after = balance_of-insert x act (int64 (balance_of act cur -ℤ fee)) cur in
    let before = balance_of-insert x act (int64 (balance_of act changes -ℤ fee)) changes in
    let new = less_fee (balance_of act cached) (balance_of act changes) fee in
    elim (Bool-cases (bytes_eq act x)) [
      | inl here ↦
          let same : act ≡ x = ground (arith, bytes_eq_iff act x) in
          rw (after, before, here, ← same, was) new
      | inr there ↦ rw (after, before, there) (sums x)
    ]

module _ (cnf : Config) (t : MRootTree Block) (accs : AccountsState) (parent_block : Bytes) where
  -- A charge that adds no error is a payment that succeeds.
  pub charge_step-spend :
      (tx : BlockOp) (fee : ℤ) (s : AccountScan) (cur : Dict ℤ)
      → leb_ℤ fee (pos 0) ≡ false
      → Sums accs.accounts s.changes cur
      → (charge_step cnf t accs parent_block tx fee s).faults ≡ []
      → (cur' : Dict ℤ) × (spend cur tx.creator fee ≡ ok cur')
        × Sums accs.accounts (charge_step cnf t accs parent_block tx fee s).changes cur'
  unfolding charge_step
  charge_step-spend tx fee s cur positive sums quiet =
      let act = tx.creator in
      let res =
        if present (lookup act s.changes) then s.changes else insert act (pos 0) s.changes in
      let opened : Sums accs.accounts res cur = λ x.
        sums x
        ∙ ap (λ v. int64 (balance_of x accs.accounts +ℤ v))
            (sym (balance_of-opened x s.changes act)) in
      let b = int64 (get_account_balance accs act +ℤ balance_of act res) in
      elim (Bool-cases (ltb_ℤ b fee)) [
        | inl short ↦ absurd (ground arith)
        | inr covered ↦
            let enough : ltb_ℤ (balance_of act cur) fee ≡ false =
              subst (λ v. ltb_ℤ v fee ≡ false) (sym (opened act)) covered in
            (
              insert act (int64 (balance_of act cur -ℤ fee)) cur,
              paid cur act fee positive enough,
              rw covered (paid-Sums accs.accounts res cur act fee opened),
            )
      ]

  pub charge_step-faults :
      (tx : BlockOp) (fee : ℤ) (s : AccountScan)
      → (charge_step cnf t accs parent_block tx fee s).faults ≡ []
      → s.faults ≡ []
  unfolding charge_step
  charge_step-faults tx fee s quiet = ground arith

  pub refund_step-faults :
      (bcs : List BlockOp) (idx : ℕ) (tx : BlockOp) (s s' : AccountScan)
      → refund_step cnf t accs parent_block bcs idx tx s ≡ some s'
      → s'.faults ≡ []
      → s.faults ≡ []
  unfolding refund_step
  refund_step-faults bcs idx tx s s' h quiet = ground arith

  module _ (append_IsInt : IsInt cnf.append_fee) (create_IsInt : IsInt cnf.create_fee)
      (parent : Node Block) (nds : List (Node Block)) (found : find t parent_block ≡ some parent)
      (chain : transverse_chain t parent ≡ some nds) (b : Block) where
    abbrev pub earlier : List Block
    earlier = map Node.value nds

    -- A refund read off two chains with the same operations raises both sides by the same.
    refund-Sums :
        (idx : ℕ) (filename : Bytes) (changes cur : Dict ℤ)
        → Sums accs.accounts changes cur
        → (blocks : List Block) → records_at blocks (length earlier) ≡ b.records
        → take (length earlier) blocks ≡ earlier
        → Sums accs.accounts
            (refund cnf.append_fee cnf.create_fee changes filename blocks (length earlier) idx)
            (refund cnf.append_fee cnf.create_fee cur filename
              (earlier ++ b ∷ [])
              (length earlier)
              idx)
    refund-Sums idx filename changes cur sums blocks same_records same_blocks x =
        let c = balance_of x accs.accounts in
        let r = balance_of x changes in
        let debt = owed x cnf.append_fee cnf.create_fee filename (
          reverse (take idx b.records)
          ++ history x cnf.append_fee cnf.create_fee filename (reverse earlier)) in
        let fits : IsInt (balance_of x cur) = subst IsInt (sym (sums x)) (int64-int64 (c +ℤ r)) in
        let evaluated =
          refund-owed x cnf.append_fee cnf.create_fee filename append_IsInt create_IsInt cur
            (earlier ++ b ∷ []) (length earlier) idx fits in
        let scanned =
          int64-refund x cnf.append_fee cnf.create_fee filename changes blocks (length earlier)
            idx in
        let evaluated' : balance_of x (
              refund cnf.append_fee cnf.create_fee cur filename (earlier ++ b ∷ []) (length earlier)
                idx)
            ≡ int64 (balance_of x cur +ℤ debt) =
          rw (records_at-last earlier b, take-last earlier b) at evaluated in
        let scanned' : int64 (
              balance_of x
                (refund cnf.append_fee cnf.create_fee changes filename blocks (length earlier) idx))
            ≡ int64 (r +ℤ debt) =
          rw (same_records, same_blocks) at scanned in
        evaluated'
        ∙ ap (λ v. int64 (v +ℤ debt)) (sums x)
        ∙ int64-+ℤ (c +ℤ r) debt
        ∙ ap int64 (three c r debt)
        ∙ sym (Sums-cong c _ (r +ℤ debt) scanned')
      where
        three : (u v w : ℤ) → u +ℤ v +ℤ w ≡ u +ℤ (v +ℤ w)
        three u v w = omega int_laws

    -- A refund that adds no error is the refund of the evaluation.
    pub refund_step-refund :
        (idx : ℕ) (tx : BlockOp) (s s' : AccountScan) (cur : Dict ℤ)
        → Sums accs.accounts s.changes cur
        → refund_step cnf t accs parent_block b.records idx tx s ≡ some s'
        → Sums accs.accounts s'.changes (
            refund cnf.append_fee cnf.create_fee cur tx.filename
              (earlier ++ b ∷ [])
              (length earlier)
              idx)
    unfolding refund_step
    refund_step-refund idx tx s s' cur sums h x =
        let blocks = earlier ++ fake_block cnf t accs parent_block b.records ∷ [] in
        let raised : s'.changes
            ≡ refund cnf.append_fee cnf.create_fee s.changes tx.filename blocks (length blocks - 1)
                idx =
          ground arith in
        let fake = fake_block cnf t accs parent_block b.records in
        rw (raised, length-last earlier fake)
          (refund-Sums idx tx.filename s.changes cur sums blocks (records_at-last earlier fake)
            (take-last earlier fake) x)
