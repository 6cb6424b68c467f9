-- ===== src/State/Filesystem/Ops.antt =====
-- When an operation succeeds, and what it then does.
use blockafile.Base.{
  ℕ, ◌-◌, ◌≤◌, ◌<◌, ◌≡◌, refl, ◌⊎◌, inl, inr, Bool, true, false, none, some, arith, length, present,
  Option-cases, leb,
}
use blockafile.Base.Dict.{Dict, lookup, insert, erase}
use blockafile.Base.Result.{Result, ok, ◌>>◌, fail_if}
use blockafile.Shared.{FileInfo, max_filename_length, max_record_count}
use blockafile.Crypto.Block.{
  Block, BlockOp, BlockOpType, create_file, append_file, delete_file, other_op, BlockType,
  no_op_block, regular_block, genesis_block,
}
use blockafile.State.Filesystem.{
  new_file, appended, create_op, append_op, delete_op, evaluate_op, evaluate_fs_block_ops,
  evaluate_block,
}

pub create_op-ok :
    (tx : BlockOp) (fs fs' : Dict FileInfo)
    → create_op tx fs ≡ ok fs'
    → (length tx.filename ≤ max_filename_length)
      × (lookup tx.filename fs ≡ none)
      × (fs' ≡ insert tx.filename (new_file tx) fs)
unfolding create_op
create_op-ok tx fs fs' e = ground arith

pub append_op-ok :
    (tx : BlockOp) (fs fs' : Dict FileInfo)
    → append_op tx fs ≡ ok fs'
    → (f : FileInfo) × (lookup tx.filename fs ≡ some f)
      × (f.number_of_records < max_record_count)
      × (tx.record_number ≡ f.number_of_records)
      × (fs' ≡ insert tx.filename (appended tx f) fs)
unfolding append_op
append_op-ok tx fs fs' e = elim (Option-cases (lookup tx.filename fs)) [
  | inl absent ↦ absurd (ground arith)
  | inr (f, found) ↦ (f, found, ground arith, ground arith, ground arith)
]

pub delete_op-ok :
    (tx : BlockOp) (fs fs' : Dict FileInfo)
    → delete_op tx fs ≡ ok fs'
    → (present (lookup tx.filename fs) ≡ true) × (fs' ≡ erase tx.filename fs)
unfolding delete_op
delete_op-ok tx fs fs' e = ground arith

pub create_op_runs :
    (tx : BlockOp) (fs : Dict FileInfo)
    → length tx.filename ≤ max_filename_length
    → lookup tx.filename fs ≡ none
    → create_op tx fs ≡ ok (insert tx.filename (new_file tx) fs)
unfolding create_op
create_op_runs tx fs fits absent = ground arith

pub append_op_runs :
    (tx : BlockOp) (fs : Dict FileInfo) (f : FileInfo)
    → lookup tx.filename fs ≡ some f
    → f.number_of_records < max_record_count
    → tx.record_number ≡ f.number_of_records
    → append_op tx fs ≡ ok (insert tx.filename (appended tx f) fs)
unfolding append_op
append_op_runs tx fs f found room next = ground arith

pub delete_op_runs :
    (tx : BlockOp) (fs : Dict FileInfo)
    → present (lookup tx.filename fs) ≡ true
    → delete_op tx fs ≡ ok (erase tx.filename fs)
unfolding delete_op
delete_op_runs tx fs found = ground arith

by_type :
    (ty : BlockOpType) (tx : BlockOp) (created appending : Bool) (fs fs' : Dict FileInfo)
    → evaluate_op (record tx { op_type = ty }) created appending fs ≡ ok fs'
    → (fs' ≡ fs)
      ⊎ (create_op tx fs ≡ ok fs')
      ⊎ (append_op tx fs ≡ ok fs')
      ⊎ (delete_op tx fs ≡ ok fs')
unfolding evaluate_op create_op append_op delete_op
by_type create_file tx true appending fs fs' e = inr (inl e)
by_type create_file tx false appending fs fs' e = inl (ground arith)
by_type append_file tx created true fs fs' e = inr (inr (inl e))
by_type append_file tx created false fs fs' e = inl (ground arith)
by_type delete_file tx true appending fs fs' e = inr (inr (inr e))
by_type delete_file tx false appending fs fs' e = inl (ground arith)
by_type (other_op n) tx created appending fs fs' e = cc

-- An evaluation that succeeds skips the operation or runs it.
pub evaluate_op-cases :
    (tx : BlockOp) (created appending : Bool) (fs fs' : Dict FileInfo)
    → evaluate_op tx created appending fs ≡ ok fs'
    → (fs' ≡ fs)
      ⊎ (create_op tx fs ≡ ok fs')
      ⊎ (append_op tx fs ≡ ok fs')
      ⊎ (delete_op tx fs ≡ ok fs')
evaluate_op-cases tx = by_type tx.op_type tx

by_block :
    (ty : BlockType) (create append count idx : ℕ) (b : Block) (fs fs' : Dict FileInfo)
    → evaluate_block create append count idx (record b { block_type = ty }) fs ≡ ok fs'
    → (fs' ≡ fs)
      ⊎ (evaluate_fs_block_ops fs b.records
            (leb create (count - idx - 1))
            (leb append (count - idx - 1))
          ≡ ok fs')
unfolding evaluate_block
by_block genesis_block create append count idx b fs fs' e = inl (ground arith)
by_block regular_block create append count idx b fs fs' e = inr e
by_block no_op_block create append count idx b fs fs' e = inl (ground arith)

pub evaluate_block-cases :
    (create append count idx : ℕ) (b : Block) (fs fs' : Dict FileInfo)
    → evaluate_block create append count idx b fs ≡ ok fs'
    → (fs' ≡ fs)
      ⊎ (evaluate_fs_block_ops fs b.records
            (leb create (count - idx - 1))
            (leb append (count - idx - 1))
          ≡ ok fs')
evaluate_block-cases create append count idx b = by_block b.block_type create append count idx b

pub guarded-parts :
    {E A : Type 0} (c : Bool) (e : E) (r : Result E A) {a : A}
    → (fail_if c e >> r) ≡ ok a
    → (c ≡ false) × (r ≡ ok a)
guarded-parts true e r h = cc
guarded-parts false e r h = (refl, h)
