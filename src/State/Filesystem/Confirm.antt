-- ===== src/State/Filesystem/Confirm.antt =====
-- Leaving out the operations that are not confirmed. If appends need at least as many confirmations
-- as creations and deletions, a chain whose operations are all valid in order still generates a
-- filesystem; if they need fewer, a valid chain can be refused.
use blockafile.Base.{
  ℕ, suc, ◌-◌, ◌≤◌, ◌≡◌, refl, sym, ◌∙◌, inl, inr, true, false, some, List, [], ◌∷◌, Bytes, arith,
  length, leb, present, bytes_eq_iff, bytes_eq_refl, Bool-cases, ◌==◌, not,
}
use blockafile.Base.Dict.{Dict, lookup, insert, erase, lookup-insert, lookup-erase}
use blockafile.Base.Result.{Result, ok, err, >>=-eq-ok}
use blockafile.Shared.{FileInfo, max_filename_length}
use blockafile.Crypto.Block.{
  Block, BlockOp, BlockOpType, create_file, append_file, delete_file, other_op, BlockType,
  no_op_block, regular_block, genesis_block,
}
use blockafile.State.Filesystem.{
  FsError, missing_file, new_file, appended, create_op, append_op, delete_op, evaluate_op,
  evaluate_fs_block_ops, evaluate_block, evaluate_blocks, generate_filesystem, is_genesis,
  no_genesis_block,
}
use blockafile.State.Filesystem.Ops.{
  create_op-ok, append_op-ok, delete_op-ok, create_op_runs, delete_op_runs, guarded-parts,
}

-- The same file names exist.
abbrev pub SameNames : Dict FileInfo → Dict FileInfo → Type 0
SameNames full part = (k : Bytes) → present (lookup k full) ≡ present (lookup k part)

insert-SameNames :
    (k : Bytes) (v w : FileInfo) (full part : Dict FileInfo)
    → SameNames full part
    → SameNames (insert k v full) (insert k w part)
insert-SameNames k v w full part h j =
    ground (arith, lookup-insert k j v full, lookup-insert k j w part, h j)

erase-SameNames :
    (k : Bytes) (full part : Dict FileInfo)
    → SameNames full part
    → SameNames (erase k full) (erase k part)
erase-SameNames k full part h j = ground (arith, lookup-erase k j full, lookup-erase k j part, h j)

overwrite-SameNames :
    (k : Bytes) (v f : FileInfo) (full part : Dict FileInfo)
    → lookup k full ≡ some f
    → SameNames full part
    → SameNames (insert k v full) part
overwrite-SameNames k v f full part found h j =
    ground (arith, lookup-insert k j v full, bytes_eq_iff k j, h j, h k)

-- An operation that is valid on the full state is valid where appends are left out.
without_appends :
    (ty : BlockOpType) (tx : BlockOp) (full full' part : Dict FileInfo)
    → SameNames full part
    → evaluate_op (record tx { op_type = ty }) true true full ≡ ok full'
    → (part' : Dict FileInfo) × (evaluate_op (record tx { op_type = ty }) true false part
        ≡ ok part')
      × SameNames full' part'
unfolding evaluate_op create_op append_op delete_op
without_appends create_file tx full full' part h e =
    let (fits, absent, is) = create_op-ok tx full full' e in
    (
      insert tx.filename (new_file tx) part,
      create_op_runs tx part fits (ground (arith, h tx.filename)),
      rw is (insert-SameNames tx.filename (new_file tx) (new_file tx) full part h),
    )
without_appends append_file tx full full' part h e =
    let (f, found, _, _, is) = append_op-ok tx full full' e in
    (part, refl, rw is (overwrite-SameNames tx.filename (appended tx f) f full part found h))
without_appends delete_file tx full full' part h e =
    let (found, is) = delete_op-ok tx full full' e in
    (
      erase tx.filename part,
      delete_op_runs tx part (sym (h tx.filename) ∙ found),
      rw is (erase-SameNames tx.filename full part h),
    )
without_appends (other_op n) tx full full' part h e = cc

-- With nothing confirmed, a valid operation changes nothing.
without_any :
    (ty : BlockOpType) (tx : BlockOp) (full full' part : Dict FileInfo)
    → evaluate_op (record tx { op_type = ty }) true true full ≡ ok full'
    → evaluate_op (record tx { op_type = ty }) false false part ≡ ok part
unfolding evaluate_op
without_any create_file tx full full' part e = refl
without_any append_file tx full full' part e = refl
without_any delete_file tx full full' part e = refl
without_any (other_op n) tx full full' part e = cc

ops_without_appends :
    (bcs : List BlockOp) (full full' part : Dict FileInfo)
    → SameNames full part
    → evaluate_fs_block_ops full bcs true true ≡ ok full'
    → (part' : Dict FileInfo) × (evaluate_fs_block_ops part bcs true false ≡ ok part')
      × SameNames full' part'
unfolding evaluate_fs_block_ops
ops_without_appends [] full full' part h e =
    let same : full ≡ full' = cc in (part, refl, rw (← same) h)
ops_without_appends (tx ∷ bcs) full full' part h e =
    let (mid, first, rest) = >>=-eq-ok (evaluate_op tx true true full) _ e in
    let (mid', first', h') = without_appends tx.op_type tx full mid part h first in
    let (part', rest', h'') = ops_without_appends bcs mid full' mid' h' rest in
    (part', rw first' rest', h'')

ops_without_any :
    (bcs : List BlockOp) (full full' part : Dict FileInfo)
    → evaluate_fs_block_ops full bcs true true ≡ ok full'
    → evaluate_fs_block_ops part bcs false false ≡ ok part
unfolding evaluate_fs_block_ops
ops_without_any [] full full' part e = refl
ops_without_any (tx ∷ bcs) full full' part e =
    let (mid, first, rest) = >>=-eq-ok (evaluate_op tx true true full) _ e in
    rw (without_any tx.op_type tx full mid part first) (ops_without_any bcs mid full' part rest)

leb_zero : (k : ℕ) → leb 0 k ≡ true
leb_zero k = ground arith

module _ (create append : ℕ) (ordered : create ≤ append) where
  -- How the state with everything confirmed and the state so far compare at a block with `front`
  -- blocks in front of it.
  record Follows (front : ℕ) (full part : Dict FileInfo) : Type 0 where
    same : append ≤ front → full ≡ part
    names : create ≤ front → SameNames full part

  Follows-later :
      (front later : ℕ) (full part : Dict FileInfo)
      → later ≤ front
      → Follows front full part
      → Follows later full part
  Follows-later front later full part le h = record {
    same = λ p. h.same (omega arith);
    names = λ p. h.names (omega arith);
  }

  abbrev Evaluates : ℕ → Dict FileInfo → Result FsError (Dict FileInfo) → Type 0
  Evaluates front full r = (part : Dict FileInfo) × (r ≡ ok part) × Follows front full part

  regular-Follows :
      (front : ℕ) (bcs : List BlockOp) (full full' part : Dict FileInfo)
      → Follows front full part
      → evaluate_fs_block_ops full bcs true true ≡ ok full'
      → Evaluates front full' (evaluate_fs_block_ops part bcs (leb create front) (leb append front))
  regular-Follows front bcs full full' part h e = elim (Bool-cases (leb append front)) [
    | inl all ↦
        let both : leb create front ≡ true = ground arith in
        let le : append ≤ front = ground arith in
        rw (all, both, ← h.same le) (full', e, record { same = λ _. refl; names = λ _ k. refl })
    | inr few ↦ elim (Bool-cases (leb create front)) [
      | inl created ↦
          let le : create ≤ front = ground arith in
          let (part', run, names') = ops_without_appends bcs full full' part (h.names le) e in
          rw (few, created)
            (part', run, record { same = λ p. absurd (ground arith); names = λ _. names' })
      | inr none_yet ↦
          rw (few, none_yet)
            (
              part,
              ops_without_any bcs full full' part e,
              record { same = λ p. absurd (ground arith); names = λ p. absurd (ground arith) },
            )
    ]
  ]

  block-Follows :
      (ty : BlockType) (count idx : ℕ) (b : Block) (full full' part : Dict FileInfo)
      → Follows (count - idx - 1) full part
      → evaluate_block 0 0 count idx (record b { block_type = ty }) full ≡ ok full'
      → Evaluates
          (count - idx - 1)
          full'
          (evaluate_block create append count idx (record b { block_type = ty }) part)
  unfolding evaluate_block
  block-Follows genesis_block count idx b full full' part h e = elim (Bool-cases (idx == 0)) [
    | inl first ↦ let same : full ≡ full' = ground arith in rw first (part, refl, rw (← same) h)
    | inr late ↦ absurd (ground arith)
  ]
  block-Follows regular_block count idx b full full' part h e =
      regular-Follows (count - idx - 1) b.records full full' part h (rw leb_zero at e)
  block-Follows no_op_block count idx b full full' part h e =
      let same : full ≡ full' = cc in (part, refl, rw (← same) h)

  blocks_follow :
      (count idx : ℕ) (nodes : List Block) (full full' part : Dict FileInfo)
      → Follows (count - idx - 1) full part
      → evaluate_blocks 0 0 count idx nodes full ≡ ok full'
      → (part' : Dict FileInfo) × (evaluate_blocks create append count idx nodes part ≡ ok part')
        × Follows 0 full' part'
  unfolding evaluate_blocks
  blocks_follow count idx [] full full' part h e =
      let same : full ≡ full' = cc in
      (part, refl, rw (← same) (Follows-later (count - idx - 1) 0 full part (omega arith) h))
  blocks_follow count idx (b ∷ nodes) full full' part h e =
      let (mid, first, rest) = >>=-eq-ok (evaluate_block 0 0 count idx b full) _ e in
      let (mid', first', h') = block-Follows b.block_type count idx b full mid part h first in
      let (part', rest', h'') =
        blocks_follow count (suc idx) nodes mid full' mid'
          (Follows-later (count - idx - 1) (count - suc idx - 1) mid mid' (omega arith) h') rest in
      (part', rw first' rest', h'')

  -- If appends need at least as many confirmations as creations do, then a chain that generates a
  -- filesystem with everything confirmed at once generates one with these confirmations too, and
  -- the files have the same names if creations need no confirmation.
  pub generate_filesystem_confirmed :
      (nodes : List Block) (full : Dict FileInfo)
      → generate_filesystem 0 0 nodes ≡ ok full
      → (part : Dict FileInfo) × (generate_filesystem create append nodes ≡ ok part)
        × (create ≡ 0 → SameNames full part)
  unfolding generate_filesystem
  generate_filesystem_confirmed [] full e =
      let same : [] ≡ full = cc in ([], refl, λ _. rw (← same) (λ k. refl))
  generate_filesystem_confirmed (first ∷ nodes) full e =
      let start : Follows (suc (length nodes) - 0 - 1) [] [] = record {
        same = λ _. refl;
        names = λ _ k. refl;
      } in
      let (genesis, run) = guarded-parts (not (is_genesis first.block_type)) no_genesis_block _ e in
      let (part, run', h) =
        blocks_follow (length (first ∷ nodes)) 0 (first ∷ nodes) [] full [] start run in
      (part, rw genesis run', λ z. h.names (omega arith))

created_then_appended :
    (op next : BlockOp)
    → op.op_type ≡ create_file
    → next.op_type ≡ append_file
    → next.filename ≡ op.filename
    → next.record_number ≡ 0
    → length op.filename ≤ max_filename_length
    → (evaluate_fs_block_ops [] (op ∷ next ∷ []) false true ≡ err (missing_file op.filename))
      × ((fs : Dict FileInfo) × (evaluate_fs_block_ops [] (op ∷ next ∷ []) true true ≡ ok fs))
unfolding evaluate_fs_block_ops evaluate_op create_op append_op lookup insert
created_then_appended op next c a f n fits = (
  rw (c, a, f),
  (
    (op.filename, appended next (new_file op)) ∷ [],
    rw (c, a, f) (ground (arith, bytes_eq_refl op.filename)),
  ),
)

-- If appends need no confirmation and creations need one or more, then a chain of a genesis block
-- and a block that creates a file and appends its first record is refused, because the append
-- counts and the creation does not; with no confirmations it generates a filesystem.
pub append_confirmed_first :
    (create : ℕ) (genesis block : Block) (op next : BlockOp)
    → genesis.block_type ≡ genesis_block
    → block.block_type ≡ regular_block
    → block.records ≡ op ∷ next ∷ []
    → op.op_type ≡ create_file
    → next.op_type ≡ append_file
    → next.filename ≡ op.filename
    → next.record_number ≡ 0
    → length op.filename ≤ max_filename_length
    → (generate_filesystem (suc create) 0 (genesis ∷ block ∷ []) ≡ err (missing_file op.filename))
      × ((fs : Dict FileInfo) × (generate_filesystem 0 0 (genesis ∷ block ∷ []) ≡ ok fs))
unfolding generate_filesystem evaluate_blocks evaluate_block
append_confirmed_first create genesis block op next g r recs c a f n fits =
    let (refused, both) = created_then_appended op next c a f n fits in
    let late : leb (suc create) 0 ≡ false = ground arith in
    (rw (g, r, recs, late, refused), (both.0, rw (g, r, recs, both.1)))
