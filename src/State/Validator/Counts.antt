-- ===== src/State/Validator/Counts.antt =====
-- A step of the scan of a block's file operations, and the numbers of records.
use blockafile.Base.{
  ℕ, suc, ◌+◌, ◌≤◌, ◌<◌, ◌≡◌, ◌≢◌, refl, subst, inl, inr, true, false, Option, none, some, [], ◌%◌,
  Bytes, arith, length, present, Option-cases, Bool-cases, bytes_eq, bytes_eq_iff, if◌then◌else◌,
}
use blockafile.Base.Dict.{Dict, lookup, insert, erase, lookup-insert, lookup-erase}
use blockafile.Shared.{FileInfo, max_filename_length, max_record_count, uint16_size}
use blockafile.Crypto.Block.{BlockOp, create_file, append_file, delete_file, other_op}
use blockafile.State.Filesystem.{new_file, appended, create_op, append_op, delete_op, evaluate_op}
use blockafile.State.Validator.Scan.{
  FsScan, create_step, append_step, append_cached_step, append_new_step, delete_step, fs_step,
  grown_file,
}

abbrev pub count_of : Option FileInfo → Option ℕ
count_of none = none
count_of (some f) = some f.number_of_records

-- A file of the scan: of this block, or else of the cached files, unless the block has deleted it.
abbrev pub after_scan : Dict FileInfo → FsScan → Bytes → Option FileInfo
after_scan fs s x =
    if present (lookup x s.deleted_files)
    then none
    else elim (lookup x s.res) as (λ _. Option FileInfo) [ none ↦ lookup x fs | some f ↦ some f ]

-- The scan and the files `cur` have the same files, with as many records.
abbrev pub SameCounts : Dict FileInfo → FsScan → Dict FileInfo → Type 0
SameCounts fs s cur = (x : Bytes) → count_of (after_scan fs s x) ≡ count_of (lookup x cur)

-- Each file has room for `n` more records.
abbrev pub HasRoom : ℕ → Dict FileInfo → Type 0
HasRoom n cur =
    (x : Bytes) (f : FileInfo) → lookup x cur ≡ some f → f.number_of_records + n ≤ max_record_count

pub fs_step-errors :
    (fs : Dict FileInfo) (tx : BlockOp) (s : FsScan) → (fs_step fs tx s).errors ≡ [] → s.errors ≡ []
unfolding fs_step create_step append_step append_cached_step append_new_step delete_step
fs_step-errors fs tx s h = ground arith

pub HasRoom-insert :
    (n : ℕ) (cur : Dict FileInfo) (k : Bytes) (g : FileInfo)
    → HasRoom (suc n) cur
    → g.number_of_records + n ≤ max_record_count
    → HasRoom n (insert k g cur)
HasRoom-insert n cur k g room fits x f e = elim (Bool-cases (bytes_eq k x)) [
  | inl here ↦
      let is_g : g ≡ f = ground (arith, lookup-insert k x g cur) in
      subst (λ q. q.number_of_records + n ≤ max_record_count) is_g fits
  | inr there ↦ let old = room x f (ground (arith, lookup-insert k x g cur)) in omega (arith, old)
]

pub HasRoom-erase :
    (n : ℕ) (cur : Dict FileInfo) (k : Bytes) → HasRoom (suc n) cur → HasRoom n (erase k cur)
HasRoom-erase n cur k room x f e =
    let old = room x f (ground (arith, lookup-erase k x cur)) in omega (arith, old)

-- The step of each type of operation, and its evaluation.
module _ (fs : Dict FileInfo) (tx : BlockOp) (s : FsScan) (cur : Dict FileInfo) where
  pub create_type :
      tx.op_type ≡ create_file
      → (fs_step fs tx s ≡ create_step fs tx s) × (evaluate_op tx true true cur ≡ create_op tx cur)
  unfolding fs_step evaluate_op
  create_type e = (ground arith, ground arith)

  pub append_type :
      tx.op_type ≡ append_file
      → (fs_step fs tx s ≡ append_step fs tx s) × (evaluate_op tx true true cur ≡ append_op tx cur)
  unfolding fs_step evaluate_op
  append_type e = (ground arith, ground arith)

  pub delete_type :
      tx.op_type ≡ delete_file
      → (fs_step fs tx s ≡ delete_step fs tx s) × (evaluate_op tx true true cur ≡ delete_op tx cur)
  unfolding fs_step evaluate_op
  delete_type e = (ground arith, ground arith)

  pub other_type : (k : ℕ) → tx.op_type ≡ other_op k → (fs_step fs tx s).errors ≢ []
  unfolding fs_step
  other_type k e h = absurd (ground arith)

module _ (fs : Dict FileInfo) (tx : BlockOp) (s : FsScan) (cur : Dict FileInfo)
    (same : SameCounts fs s cur) where
  pub create-fits :
      (create_step fs tx s).errors ≡ []
      → (length tx.filename ≤ max_filename_length) × (lookup tx.filename cur ≡ none)
  unfolding create_step
  create-fits h = (ground arith, ground (arith, same tx.filename))

  pub create-SameCounts :
      (create_step fs tx s).errors ≡ []
      → SameCounts fs (create_step fs tx s) (insert tx.filename (new_file tx) cur)
  unfolding create_step
  create-SameCounts h x = ground (
    arith,
    same x,
    lookup-insert tx.filename x (new_file tx) s.res,
    lookup-insert tx.filename x (new_file tx) cur,
    lookup-erase tx.filename x s.deleted_files,
    bytes_eq_iff tx.filename x,
  )

  pub delete-present : (delete_step fs tx s).errors ≡ [] → present (lookup tx.filename cur) ≡ true
  unfolding delete_step
  delete-present h = ground (arith, same tx.filename)

  pub delete-SameCounts :
      (delete_step fs tx s).errors ≡ []
      → SameCounts fs (delete_step fs tx s) (erase tx.filename cur)
  unfolding delete_step
  delete-SameCounts h x = ground (
    arith,
    same x,
    lookup-insert tx.filename x true s.deleted_files,
    lookup-erase tx.filename x cur,
    bytes_eq_iff tx.filename x,
  )

  module _ (f : FileInfo) (found : lookup tx.filename cur ≡ some f)
      (small : f.number_of_records < max_record_count) where
    pub append-next : (append_step fs tx s).errors ≡ [] → tx.record_number ≡ f.number_of_records
    unfolding append_step append_cached_step append_new_step
    append-next h = ground (arith, same tx.filename)

    -- The entry that an append writes.
    append-written :
        (append_step fs tx s).errors ≡ []
        → (g : FileInfo) × (g.number_of_records ≡ (f.number_of_records + 1) % uint16_size)
          × ((append_step fs tx s).res ≡ insert tx.filename g s.res)
          × ((append_step fs tx s).deleted_files ≡ s.deleted_files)
          × (present (lookup tx.filename s.deleted_files) ≡ false)
    unfolding append_step append_cached_step append_new_step
    append-written h =
        let next = append-next h in
        let number = (f.number_of_records + 1) % uint16_size in
        elim (Option-cases (lookup tx.filename fs)) [
          | inr (c, cached) ↦ (
            grown_file tx number c,
            refl,
            ground (arith, same tx.filename),
            ground arith,
            ground arith,
          )
          | inl only_here ↦ elim (Option-cases (lookup tx.filename s.res)) [
            | inr (d, here) ↦ (
              grown_file tx number d,
              refl,
              ground (arith, same tx.filename),
              ground arith,
              ground arith,
            )
            | inl nowhere ↦ absurd (ground arith)
          ]
        ]

    pub append-SameCounts :
        (append_step fs tx s).errors ≡ []
        → SameCounts fs (append_step fs tx s) (insert tx.filename (appended tx f) cur)
    append-SameCounts h x =
        let (g, number, res, deleted, kept) = append-written h in
        ground (
          arith,
          same x,
          lookup-insert tx.filename x g s.res,
          lookup-insert tx.filename x (appended tx f) cur,
          bytes_eq_iff tx.filename x,
        )

  pub append-present :
      (append_step fs tx s).errors ≡ [] → (f : FileInfo) × (lookup tx.filename cur ≡ some f)
  unfolding append_step append_cached_step append_new_step
  append-present h = elim (Option-cases (lookup tx.filename cur)) [
    | inl absent ↦ absurd (ground (arith, same tx.filename))
    | inr there ↦ there
  ]
