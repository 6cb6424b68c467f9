-- ===== src/State/Validator/Jobs.antt =====
-- `ValidateJobSet` ends, and what it returns passes both scans whole.
use blockafile.Base.{
  ℕ, zero, suc, ◌+◌, ◌≤◌, ◌<◌, ◌≡◌, refl, subst, ◌∙◌, ap, ◌⊎◌, inl, inr, Option, none, some, List,
  [], ◌∷◌, ◌++◌, arith, length, Bool-cases, Option-cases, ◌==◌,
}
use blockafile.Base.Int.{ℤ}
use blockafile.Base.Result.{ok}
use blockafile.Base.Dict.{Dict, lookup}
use blockafile.Shared.{FileInfo}
use blockafile.Crypto.Block.{
  Block, BlockOp, BlockOpType, create_file, append_file, delete_file, other_op,
}
use blockafile.DataStruct.MRootTree.{Node, MRootTree, uint64_size}
use blockafile.DataStruct.MRootTree.WellFormed.{IsWellFormed}
use blockafile.State.Validator.{
  Validator, ScanError, FsScan, reject, invalid_fs_op_error, fs_step, create_step, append_step,
  append_cached_step, append_new_step, delete_step, fs_scan, validate_new_fs_block_ops,
  validate_new_account_block_ops, JobSet, head_id, job_round, job_rounds, refresh, validate_job_set,
}
use blockafile.State.Validator.Kept.{Filters, Filters-keep, Filters-drop, Filters-none}
use blockafile.State.Validator.Charges.{Keeps, account_scan-Keeps, account_scan_returns}

-- A round of the file scan keeps the operation and adds no error, or drops it.
abbrev pub Judges : BlockOp → FsScan → FsScan → Type 0
Judges tx s s' =
    ((s'.errors ≡ s.errors) × (s'.valid_ops ≡ s.valid_ops ++ tx ∷ []))
    ⊎ (s'.valid_ops ≡ s.valid_ops)

module _ (fs : Dict FileInfo) (tx : BlockOp) (s : FsScan) where
  create_step-Judges : Judges tx s (create_step fs tx s)
  unfolding create_step
  create_step-Judges = ground arith

  append_cached_step-Judges :
      (f : FileInfo) (in_res : Option FileInfo) → Judges tx s (append_cached_step tx f in_res s)
  unfolding append_cached_step
  append_cached_step-Judges f none = ground arith
  append_cached_step-Judges f (some fi) = ground arith

  append_new_step-Judges : (in_res : Option FileInfo) → Judges tx s (append_new_step tx in_res s)
  unfolding append_new_step
  append_new_step-Judges none = ground arith
  append_new_step-Judges (some donkey) = ground arith

  append_step-Judges : Judges tx s (append_step fs tx s)
  unfolding append_step
  append_step-Judges = elim (Option-cases (lookup tx.filename fs)) [
    | inl e ↦ ground (arith, append_new_step-Judges (lookup tx.filename s.res))
    | inr (f, e) ↦ ground (arith, append_cached_step-Judges f (lookup tx.filename s.res))
  ]

  delete_step-Judges : Judges tx s (delete_step fs tx s)
  unfolding delete_step
  delete_step-Judges = ground arith

by_type :
    (ty : BlockOpType) (fs : Dict FileInfo) (tx : BlockOp) (s : FsScan)
    → Judges tx s (elim ty [
      | create_file ↦ create_step fs tx s
      | append_file ↦ append_step fs tx s
      | delete_file ↦ delete_step fs tx s
      | other_op _ ↦ reject invalid_fs_op_error s
    ])
by_type create_file fs tx s = create_step-Judges fs tx s
by_type append_file fs tx s = append_step-Judges fs tx s
by_type delete_file fs tx s = delete_step-Judges fs tx s
by_type (other_op n) fs tx s = inr refl

pub fs_step-Judges :
    (fs : Dict FileInfo) (tx : BlockOp) (s : FsScan) → Judges tx s (fs_step fs tx s)
unfolding fs_step
fs_step-Judges fs tx s = by_type tx.op_type fs tx s

fs_scan-Filters :
    (fs : Dict FileInfo) (bcs : List BlockOp) (s : FsScan)
    → Filters bcs s.valid_ops s.errors (fs_scan fs bcs s).valid_ops (fs_scan fs bcs s).errors
unfolding fs_scan
fs_scan-Filters fs [] s = Filters-none s.valid_ops s.errors
fs_scan-Filters fs (tx ∷ bcs) s =
    let s' = fs_step fs tx s in
    let rest = fs_scan-Filters fs bcs s' in
    let out = fs_scan fs bcs s' in
    elim (fs_step-Judges fs tx s) [
      | inl (clean, kept) ↦ Filters-keep tx bcs s.valid_ops out.valid_ops s.errors out.errors (
          subst (λ es. Filters bcs (s.valid_ops ++ tx ∷ []) es out.valid_ops out.errors) clean
            (subst (λ ks. Filters bcs ks s'.errors out.valid_ops out.errors) kept rest))
      | inr same ↦
          Filters-drop tx bcs s.valid_ops out.valid_ops s.errors s'.errors out.errors
            (subst (λ ks. Filters bcs ks s'.errors out.valid_ops out.errors) same rest)
    ]

-- `ValidateJobSet`'s scans both pass all the operations: each keeps every one and has no error.
pub record Passes (t : MRootTree Block) (bcv : Validator) (ops : List BlockOp) : Type 0 where
  pub files_clean : (validate_new_fs_block_ops bcv.last_filesystem_state.fs ops []).errors ≡ []
  pub files_all : (validate_new_fs_block_ops bcv.last_filesystem_state.fs ops []).valid_ops ≡ ops
  pub accounts_all :
      (changes : Dict ℤ) × (validate_new_account_block_ops bcv.cnf t bcv.last_state_account
          (head_id t)
          ops
          []
        ≡ some (changes, ops, none))

module _ (t : MRootTree Block) (bcv : Validator) where
  fs_ops-Filters :
      (ops : List BlockOp)
      → let s = validate_new_fs_block_ops bcv.last_filesystem_state.fs ops [] in
        Filters ops [] [] s.valid_ops s.errors
  unfolding validate_new_fs_block_ops
  fs_ops-Filters ops = fs_scan-Filters bcv.last_filesystem_state.fs ops _

  account_ops-Keeps :
      (ops : List BlockOp) (r : Dict ℤ × List BlockOp × Option ScanError)
      → validate_new_account_block_ops bcv.cnf t bcv.last_state_account (head_id t) ops [] ≡ some r
      → Keeps ops [] none r
  unfolding validate_new_account_block_ops
  account_ops-Keeps ops r h =
      account_scan-Keeps bcv.cnf t bcv.last_state_account (head_id t) ops 0 ops _ r h

  -- A round never adds an operation, and one that drops none passes them all.
  job_round-Passes :
      (job job' : JobSet)
      → job_round t bcv job ≡ some job'
      → (length job'.0 ≤ length job.0)
        × (length job'.0 ≡ length job.0 → (job'.0 ≡ job.0) × Passes t bcv job.0)
  unfolding job_round
  job_round-Passes (ops, ae, fe) job' h =
      let files = validate_new_fs_block_ops bcv.last_filesystem_state.fs ops [] in
      let (fewer, all_files) = fs_ops-Filters ops in
      elim (Option-cases (
        validate_new_account_block_ops bcv.cnf t bcv.last_state_account (head_id t) files.valid_ops
          [])) [
            | inl e ↦ absurd (ground arith)
            | inr ((changes, kept, err), e) ↦
                let (fewer', all_accounts) = account_ops-Keeps files.valid_ops _ e in
                let same : job'.0 ≡ kept = ground arith in
                (
                  omega (arith, ap length same),
                  λ level.
                      let (f, clean) = all_files (omega (arith, ap length same)) in
                      let (k, no_error) = all_accounts (omega (arith, ap length same)) in
                      (
                        same ∙ k ∙ f,
                        record {
                          files_clean = clean;
                          files_all = f;
                          accounts_all = (
                            changes,
                            subst
                                (λ os.
                                  validate_new_account_block_ops bcv.cnf t bcv.last_state_account
                                    (head_id t) os []
                                  ≡ some (changes, os, none))
                                f (e ∙ rw (k, no_error) refl),
                          );
                        },
                      ),
                )
          ]

  account_ops_returns :
      (ops : List BlockOp)
      → IsWellFormed t
      → suc t.height < uint64_size
      → (r : Dict ℤ × List BlockOp × Option ScanError) × (validate_new_account_block_ops bcv.cnf t
            bcv.last_state_account
            (head_id t)
            ops
            []
          ≡ some r)
  unfolding validate_new_account_block_ops
  account_ops_returns ops w room =
      account_scan_returns bcv.cnf t bcv.last_state_account (head_id t) w room ops 0 ops _

  job_round_returns :
      (job : JobSet)
      → IsWellFormed t
      → suc t.height < uint64_size
      → (job' : JobSet) × (job_round t bcv job ≡ some job')
  unfolding job_round
  job_round_returns (ops, ae, fe) w room =
      let files = validate_new_fs_block_ops bcv.last_filesystem_state.fs ops [] in
      let (r, e) = account_ops_returns files.valid_ops w room in
      elim (Option-cases (job_round t bcv (ops, ae, fe))) [
        | inl nothing ↦ absurd (ground arith)
        | inr found ↦ found
      ]

  -- Rounds on enough fuel end, with operations that pass.
  job_rounds-Passes :
      (fuel : ℕ) (job : JobSet)
      → IsWellFormed t
      → suc t.height < uint64_size
      → length job.0 < fuel
      → (job' : JobSet) × (job_rounds t fuel bcv job ≡ some job') × Passes t bcv job'.0
  unfolding job_rounds
  job_rounds-Passes zero job w room enough = absurd (omega arith)
  job_rounds-Passes (suc fuel) job w room enough =
      let (job', e) = job_round_returns job w room in
      let (fewer, pass) = job_round-Passes job job' e in
      elim (Bool-cases (length job.0 == length job'.0)) [
        | inl same ↦
            let (kept, passes) = pass (ground arith) in (job', ground arith, rw kept passes)
        | inr dropped ↦
            let (out, found, passes) = job_rounds-Passes fuel job' w room (ground arith) in
            (out, ground arith, passes)
      ]

  -- In a well-formed tree whose height has room for one more block, if the states before the block
  -- can be generated for the given root, then ValidateJobSet returns for a job with operations, and
  -- the operations that it returns pass both of its scans whole: every one of them is kept and
  -- there is no error.
  pub validate_job_set-Passes :
      (before : Validator) (ops : List BlockOp) (root : Node Block)
      → IsWellFormed t
      → suc t.height < uint64_size
      → 0 < length ops
      → refresh t before root ≡ some (bcv, ok tt)
      → (job : JobSet) × (validate_job_set t before ops root ≡ some (bcv, job)) × Passes t bcv job.0
  unfolding validate_job_set
  validate_job_set-Passes before ops root w room some_ops ready =
      let (job, found, passes) =
        job_rounds-Passes (length ops + 1) (ops, none, none) w room (omega arith) in
      (job, ground arith, passes)
