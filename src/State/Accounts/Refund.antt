-- ===== src/State/Accounts/Refund.antt =====
-- What a deletion pays back: to each creator the fees of the operations on the file, back to its
-- creation or to an earlier deletion.
use blockafile.Base.{
  ℕ, ◌≡◌, refl, sym, ap, subst, true, ◌∙◌, inl, inr, Bool, List, [], ◌∷◌, ◌++◌, reverse, Bytes,
  arith, present, if◌then◌else◌, bytes_eq, bytes_eq_iff, Bool-cases, Option-cases, take,
}
use blockafile.Base.Int.{ℤ, pos, int64, int64-cong, int64-int64, ◌+ℤ◌, int_laws}
use blockafile.Base.Dict.{Dict, lookup, insert, lookup-insert}
use blockafile.Crypto.Block.{
  Block, BlockOp, BlockOpType, create_file, append_file, delete_file, other_op,
}
use blockafile.State.Accounts.{
  balance_of, award, apply_tx, refund_ops, refund_blocks, refund, is_regular, records_at,
}

-- `v` is in the range of an int of 64 bits.
abbrev pub IsInt : ℤ → Type 0
IsInt v = int64 v ≡ v

+ℤ_zero : (v : ℤ) → v +ℤ pos 0 ≡ v
+ℤ_zero v = omega int_laws

zero-+ℤ : (v : ℤ) → pos 0 +ℤ v ≡ v
zero-+ℤ v = omega int_laws

module _ (a : Bytes) where
  -- The part of a payment to `act` that goes to `a`.
  abbrev pub share : Bytes → ℤ → ℤ
  share act reward = if bytes_eq act a then reward else pos 0

  pub balance_of-award :
      (accs : Dict ℤ) (act : Bytes) (reward : ℤ)
      → int64 (balance_of a (award accs act reward)) ≡ int64 (balance_of a accs +ℤ share act reward)
  unfolding award balance_of
  balance_of-award accs act reward = elim (Option-cases (lookup act accs)) [
    | inl absent ↦ ground (
      arith,
      lookup-insert act a reward accs,
      bytes_eq_iff act a,
      +ℤ_zero (balance_of a accs),
      zero-+ℤ reward,
    )
    | inr (v, found) ↦ ground (
      arith,
      lookup-insert act a (int64 (v +ℤ reward)) accs,
      bytes_eq_iff act a,
      +ℤ_zero (balance_of a accs),
      int64-int64 (v +ℤ reward),
    )
  ]

  pub award-IsInt :
      (accs : Dict ℤ) (act : Bytes) (reward : ℤ)
      → IsInt reward
      → IsInt (balance_of a accs)
      → IsInt (balance_of a (award accs act reward))
  unfolding award balance_of
  award-IsInt accs act reward p h = elim (Option-cases (lookup act accs)) [
    | inl absent ↦ ground (arith, lookup-insert act a reward accs, p, h)
    | inr (v, found) ↦
        ground (arith, lookup-insert act a (int64 (v +ℤ reward)) accs, int64-int64 (v +ℤ reward), h)
  ]

  pub balance_of-opened :
      (accs : Dict ℤ) (act : Bytes)
      → balance_of a (if present (lookup act accs) then accs else insert act (pos 0) accs)
        ≡ balance_of a accs
  unfolding balance_of
  balance_of-opened accs act = ground (arith, lookup-insert act a (pos 0) accs, bytes_eq_iff act a)

  -- An award to an account that is opened for it, with more to come.
  awarded :
      (accs : Dict ℤ) (act : Bytes) (reward more : ℤ)
      → let known = if present (lookup act accs) then accs else insert act (pos 0) accs in
        int64 (balance_of a (award known act reward) +ℤ more)
        ≡ int64 (balance_of a accs +ℤ (share act reward +ℤ more))
  awarded accs act reward more =
      let known = if present (lookup act accs) then accs else insert act (pos 0) accs in
      let one = share act reward in
      let sum = balance_of-award known act reward in
      int64-cong (balance_of a (award known act reward)) (balance_of a known +ℤ one) more sum
      ∙ ap int64 (moved _ _ (share act reward) more (balance_of-opened accs act))
    where
      moved : (v w x y : ℤ) → v ≡ w → v +ℤ x +ℤ y ≡ w +ℤ (x +ℤ y)
      moved v w x y h = ap (λ u. u +ℤ x +ℤ y) h ∙ omega int_laws

  module _ (append_fee create_fee : ℤ) (filename : Bytes) where
    -- What `a` has paid for the file, over operations from the last on.
    unfoldable pub owed : List BlockOp → ℤ
    owed [] = pos 0
    owed (tx ∷ ops) =
        let rest = owed ops in
        if bytes_eq tx.filename filename
        then elim tx.op_type [
          | create_file ↦ share tx.creator create_fee
          | delete_file ↦ pos 0
          | append_file ↦ share tx.creator append_fee +ℤ rest
          | other_op _ ↦ rest
        ]
        else rest

    abbrev rest_owed : Bool → List BlockOp → ℤ
    rest_owed over more = if over then pos 0 else owed more

    applied-owed :
        (ty : BlockOpType) (tx : BlockOp) (accs : Dict ℤ) (more : List BlockOp)
        → let r = apply_tx append_fee create_fee filename (record tx { op_type = ty }) accs in
          int64 (balance_of a r.0 +ℤ rest_owed r.1 more)
          ≡ int64 (balance_of a accs +ℤ owed (record tx { op_type = ty } ∷ more))
    unfolding apply_tx owed
    applied-owed create_file tx accs more = elim (Bool-cases (bytes_eq tx.filename filename)) [
      | inr other ↦ rw other
      | inl same ↦ rw same (
          awarded accs tx.creator create_fee (pos 0)
          ∙ ap (λ x. int64 (balance_of a accs +ℤ x)) (+ℤ_zero _))
    ]
    applied-owed append_file tx accs more = elim (Bool-cases (bytes_eq tx.filename filename)) [
      | inr other ↦ rw other
      | inl same ↦ rw same (awarded accs tx.creator append_fee (owed more))
    ]
    applied-owed delete_file tx accs more = elim (Bool-cases (bytes_eq tx.filename filename)) [
      | inr other ↦ rw other
      | inl same ↦ rw (same, balance_of-opened)
    ]
    applied-owed (other_op n) tx accs more = elim (Bool-cases (bytes_eq tx.filename filename)) [
      | inr other ↦ rw other
      | inl same ↦ rw (same, balance_of-opened)
    ]

    refund_ops-owed :
        (ops : List BlockOp) (accs : Dict ℤ) (more : List BlockOp)
        → let r = refund_ops append_fee create_fee filename ops accs in
          int64 (balance_of a r.0 +ℤ rest_owed r.1 more)
          ≡ int64 (balance_of a accs +ℤ owed (ops ++ more))
    unfolding refund_ops
    refund_ops-owed [] accs more = refl
    refund_ops-owed (tx ∷ ops) accs more =
        let r = apply_tx append_fee create_fee filename tx accs in
        let here = applied-owed tx.op_type tx accs (ops ++ more) in
        elim (Bool-cases r.1) [
          | inl over ↦ rw over (rw over at here)
          | inr on ↦ rw on (refund_ops-owed ops r.0 more ∙ (rw on at here))
        ]

    -- The operations of the regular blocks, in the order in which `refund` reads them.
    abbrev pub history : List Block → List BlockOp
    history [] = []
    history (b ∷ blocks) =
        if is_regular b.block_type then reverse b.records ++ history blocks else history blocks

    refund_blocks-owed :
        (blocks : List Block) (accs : Dict ℤ)
        → int64 (balance_of a (refund_blocks append_fee create_fee filename blocks accs))
          ≡ int64 (balance_of a accs +ℤ owed (history blocks))
    unfolding refund_blocks
    refund_blocks-owed [] accs = unfold owed in ap int64 (sym (+ℤ_zero _))
    refund_blocks-owed (b ∷ blocks) accs =
        let r = refund_ops append_fee create_fee filename (reverse b.records) accs in
        let here = refund_ops-owed (reverse b.records) accs (history blocks) in
        elim (Bool-cases (is_regular b.block_type)) [
          | inr other ↦ rw other (refund_blocks-owed blocks accs)
          | inl regular ↦ elim (Bool-cases r.1) [
            | inl over ↦ rw (regular, over) (ap int64 (sym (+ℤ_zero _)) ∙ (rw over at here))
            | inr on ↦ rw (regular, on) (refund_blocks-owed blocks r.0 ∙ (rw on at here))
          ]
        ]

    pub int64-refund :
        (accs : Dict ℤ) (nds : List Block) (curr_block_idx cur_tnx_id : ℕ)
        → int64 (
            balance_of a (refund append_fee create_fee accs filename nds curr_block_idx cur_tnx_id))
          ≡ int64 (
              balance_of a accs
              +ℤ owed (
                  reverse (take cur_tnx_id (records_at nds curr_block_idx))
                  ++ history (reverse (take curr_block_idx nds))))
    unfolding refund
    int64-refund accs nds curr_block_idx cur_tnx_id =
        let ops = reverse (take cur_tnx_id (records_at nds curr_block_idx)) in
        let earlier = reverse (take curr_block_idx nds) in
        let r = refund_ops append_fee create_fee filename ops accs in
        let here = refund_ops-owed ops accs (history earlier) in
        elim (Bool-cases r.1) [
          | inl over ↦ rw over (ap int64 (sym (+ℤ_zero _)) ∙ (rw over at here))
          | inr on ↦ rw on (refund_blocks-owed earlier r.0 ∙ (rw on at here))
        ]

    module _ (append_IsInt : IsInt append_fee) (create_IsInt : IsInt create_fee) where
      applied-IsInt :
          (ty : BlockOpType) (tx : BlockOp) (accs : Dict ℤ)
          → bytes_eq tx.filename filename ≡ true
          → IsInt (balance_of a accs)
          → IsInt (
              balance_of a
                (apply_tx append_fee create_fee filename (record tx { op_type = ty }) accs).0)
      unfolding apply_tx
      applied-IsInt create_file tx accs same h = rw same (
          award-IsInt _ tx.creator create_fee create_IsInt
            (subst IsInt (sym (balance_of-opened accs tx.creator)) h))
      applied-IsInt append_file tx accs same h = rw same (
          award-IsInt _ tx.creator append_fee append_IsInt
            (subst IsInt (sym (balance_of-opened accs tx.creator)) h))
      applied-IsInt delete_file tx accs same h =
          rw same (subst IsInt (sym (balance_of-opened accs tx.creator)) h)
      applied-IsInt (other_op n) tx accs same h =
          rw same (subst IsInt (sym (balance_of-opened accs tx.creator)) h)

      apply_tx-IsInt :
          (tx : BlockOp) (accs : Dict ℤ)
          → IsInt (balance_of a accs)
          → IsInt (balance_of a (apply_tx append_fee create_fee filename tx accs).0)
      unfolding apply_tx
      apply_tx-IsInt tx accs h = elim (Bool-cases (bytes_eq tx.filename filename)) [
        | inr other ↦ rw other h
        | inl same ↦ applied-IsInt tx.op_type tx accs same h
      ]

      refund_ops-IsInt :
          (ops : List BlockOp) (accs : Dict ℤ)
          → IsInt (balance_of a accs)
          → IsInt (balance_of a (refund_ops append_fee create_fee filename ops accs).0)
      unfolding refund_ops
      refund_ops-IsInt [] accs h = h
      refund_ops-IsInt (tx ∷ ops) accs h =
          let r = apply_tx append_fee create_fee filename tx accs in
          let h' = apply_tx-IsInt tx accs h in
          elim (Bool-cases r.1) [
            | inl over ↦ rw over h'
            | inr on ↦ rw on (refund_ops-IsInt ops r.0 h')
          ]

      refund_blocks-IsInt :
          (blocks : List Block) (accs : Dict ℤ)
          → IsInt (balance_of a accs)
          → IsInt (balance_of a (refund_blocks append_fee create_fee filename blocks accs))
      unfolding refund_blocks
      refund_blocks-IsInt [] accs h = h
      refund_blocks-IsInt (b ∷ blocks) accs h =
          let r = refund_ops append_fee create_fee filename (reverse b.records) accs in
          let h' = refund_ops-IsInt (reverse b.records) accs h in
          elim (Bool-cases (is_regular b.block_type)) [
            | inr other ↦ rw other (refund_blocks-IsInt blocks accs h)
            | inl regular ↦ elim (Bool-cases r.1) [
              | inl over ↦ rw (regular, over) h'
              | inr on ↦ rw (regular, on) (refund_blocks-IsInt blocks r.0 h')
            ]
          ]

      pub refund-IsInt :
          (accs : Dict ℤ) (nds : List Block) (curr_block_idx cur_tnx_id : ℕ)
          → IsInt (balance_of a accs)
          → IsInt (
              balance_of a
                (refund append_fee create_fee accs filename nds curr_block_idx cur_tnx_id))
      unfolding refund
      refund-IsInt accs nds curr_block_idx cur_tnx_id h =
          let ops = reverse (take cur_tnx_id (records_at nds curr_block_idx)) in
          let r = refund_ops append_fee create_fee filename ops accs in
          let h' = refund_ops-IsInt ops accs h in
          elim (Bool-cases r.1) [
            | inl over ↦ rw over h'
            | inr on ↦ rw on (refund_blocks-IsInt (reverse (take curr_block_idx nds)) r.0 h')
          ]

      -- With fees and a balance in the range of an int of 64 bits, a deletion raises each account by
      -- exactly what its owner paid for the file, as a sum of such ints, which wraps around: the
      -- fees of the appends and of the creation, read back from the deletion through its own block
      -- and then the earlier regular blocks, up to the creation or to an earlier deletion of the
      -- file.
      pub refund-owed :
          (accs : Dict ℤ) (nds : List Block) (curr_block_idx cur_tnx_id : ℕ)
          → IsInt (balance_of a accs)
          → balance_of a (refund append_fee create_fee accs filename nds curr_block_idx cur_tnx_id)
            ≡ int64 (
                balance_of a accs
                +ℤ owed (
                    reverse (take cur_tnx_id (records_at nds curr_block_idx))
                    ++ history (reverse (take curr_block_idx nds))))
      refund-owed accs nds curr_block_idx cur_tnx_id h =
          sym (refund-IsInt accs nds curr_block_idx cur_tnx_id h)
          ∙ int64-refund accs nds curr_block_idx cur_tnx_id
