-- ===== src/State/Accounts/Inserts.antt =====
-- `refund` and `update` change the accounts by awards, and those by entries that they write.
use blockafile.Base.{
  ℕ, ◌≡◌, ap, subst, ◌∙◌, inl, inr, true, List, [], ◌∷◌, reverse, take, Bytes, arith, present,
  bytes_eq, bytes_eq_iff, Bool-cases, Option-cases, if◌then◌else◌, none,
}
use blockafile.Base.Int.{ℤ, pos, int64, int64-cong, ◌+ℤ◌, int_laws}
use blockafile.Base.Dict.{Dict, lookup, insert}
use blockafile.Crypto.Block.{
  Block, BlockOp, BlockOpType, create_file, append_file, delete_file, other_op,
}
use blockafile.State.Accounts.{
  award, award_all, balance_of, apply_tx, refund_ops, refund_blocks, refund, is_regular, records_at,
}
use blockafile.State.Accounts.Refund.{share, balance_of-award}
use blockafile.State.Validator.Caches.{IsUnique}

module _ (P : Dict ℤ → Type 0)
    (keep : (accs : Dict ℤ) (k : Bytes) (v : ℤ) → P accs → P (insert k v accs)) where
  pub award-keeps : (accs : Dict ℤ) (act : Bytes) (reward : ℤ) → P accs → P (award accs act reward)
  unfolding award
  award-keeps accs act reward h = elim (Option-cases (lookup act accs)) [
    | inl absent ↦ rw (absent, award) (keep accs act reward h)
    | inr (v, found) ↦ rw (found, award) (keep accs act _ h)
  ]

  pub opened-keeps :
      (accs : Dict ℤ) (act : Bytes)
      → P accs
      → P (if present (lookup act accs) then accs else insert act (pos 0) accs)
  opened-keeps accs act h = elim (Bool-cases (present (lookup act accs))) [
    | inl there ↦ rw there h
    | inr absent ↦ rw absent (keep accs act (pos 0) h)
  ]

  module _ (append_fee create_fee : ℤ) (filename : Bytes) where
    applied-keeps :
        (ty : BlockOpType) (tx : BlockOp) (accs : Dict ℤ)
        → bytes_eq tx.filename filename ≡ true
        → P accs
        → P (apply_tx append_fee create_fee filename (record tx { op_type = ty }) accs).0
    unfolding apply_tx
    applied-keeps create_file tx accs same h =
        rw same (award-keeps _ tx.creator create_fee (opened-keeps accs tx.creator h))
    applied-keeps append_file tx accs same h =
        rw same (award-keeps _ tx.creator append_fee (opened-keeps accs tx.creator h))
    applied-keeps delete_file tx accs same h = rw same (opened-keeps accs tx.creator h)
    applied-keeps (other_op n) tx accs same h = rw same (opened-keeps accs tx.creator h)

    apply_tx-keeps :
        (tx : BlockOp) (accs : Dict ℤ)
        → P accs
        → P (apply_tx append_fee create_fee filename tx accs).0
    unfolding apply_tx
    apply_tx-keeps tx accs h = elim (Bool-cases (bytes_eq tx.filename filename)) [
      | inr other ↦ rw other h
      | inl same ↦ applied-keeps tx.op_type tx accs same h
    ]

    refund_ops-keeps :
        (ops : List BlockOp) (accs : Dict ℤ)
        → P accs
        → P (refund_ops append_fee create_fee filename ops accs).0
    unfolding refund_ops
    refund_ops-keeps [] accs h = h
    refund_ops-keeps (tx ∷ ops) accs h =
        let r = apply_tx append_fee create_fee filename tx accs in
        let h' = apply_tx-keeps tx accs h in
        elim (Bool-cases r.1) [
          | inl over ↦ rw over h'
          | inr on ↦ rw on (refund_ops-keeps ops r.0 h')
        ]

    refund_blocks-keeps :
        (blocks : List Block) (accs : Dict ℤ)
        → P accs
        → P (refund_blocks append_fee create_fee filename blocks accs)
    unfolding refund_blocks
    refund_blocks-keeps [] accs h = h
    refund_blocks-keeps (b ∷ blocks) accs h =
        let r = refund_ops append_fee create_fee filename (reverse b.records) accs in
        let h' = refund_ops-keeps (reverse b.records) accs h in
        elim (Bool-cases (is_regular b.block_type)) [
          | inr other ↦ rw other (refund_blocks-keeps blocks accs h)
          | inl regular ↦ elim (Bool-cases r.1) [
            | inl over ↦ rw (regular, over) h'
            | inr on ↦ rw (regular, on) (refund_blocks-keeps blocks r.0 h')
          ]
        ]

    pub refund-keeps :
        (accs : Dict ℤ) (nds : List Block) (curr_block_idx cur_tnx_id : ℕ)
        → P accs
        → P (refund append_fee create_fee accs filename nds curr_block_idx cur_tnx_id)
    unfolding refund
    refund-keeps accs nds curr_block_idx cur_tnx_id h =
        let ops = reverse (take cur_tnx_id (records_at nds curr_block_idx)) in
        let r = refund_ops append_fee create_fee filename ops accs in
        let h' = refund_ops-keeps ops accs h in
        elim (Bool-cases r.1) [
          | inl over ↦ rw over h'
          | inr on ↦ rw on (refund_blocks-keeps (reverse (take curr_block_idx nds)) r.0 h')
        ]

-- What `update` adds to an account is its entry among the changes.
pub balance_of-award_all :
    (x : Bytes) (up accs : Dict ℤ)
    → IsUnique up
    → int64 (balance_of x (award_all accs up)) ≡ int64 (balance_of x accs +ℤ balance_of x up)
unfolding award_all balance_of lookup
balance_of-award_all x [] accs unique =
    let nothing : balance_of x accs ≡ balance_of x accs +ℤ pos 0 = omega int_laws in
    ap int64 nothing
balance_of-award_all x ((k, v) ∷ up) accs (once, unique) =
    let later = balance_of-award_all x up (award accs k v) unique in
    let first =
      int64-cong (balance_of x (award accs k v)) (balance_of x accs +ℤ share x k v)
        (balance_of x up) (balance_of-award x accs k v) in
    let entry : balance_of x accs +ℤ share x k v +ℤ balance_of x up
        ≡ balance_of x accs +ℤ balance_of x ((k, v) ∷ up) =
      elim (Bool-cases (bytes_eq k x)) [
        | inl here ↦
            let same : k ≡ x = ground (arith, bytes_eq_iff k x) in
            let gone : lookup x up ≡ none = subst (λ q. lookup q up ≡ none) same once in
            let zero_up : balance_of x up ≡ pos 0 = ground arith in
            let value : balance_of x ((k, v) ∷ up) ≡ v = ground arith in
            rw (here, zero_up, value) (added (balance_of x accs) v)
        | inr there ↦
            let value : balance_of x ((k, v) ∷ up) ≡ balance_of x up = ground arith in
            rw (there, value) (kept (balance_of x accs) (balance_of x up))
      ] in
    later ∙ first ∙ ap int64 entry
  where
    added : (u w : ℤ) → u +ℤ w +ℤ pos 0 ≡ u +ℤ w
    added u w = omega int_laws

    kept : (u w : ℤ) → u +ℤ pos 0 +ℤ w ≡ u +ℤ w
    kept u w = omega int_laws
