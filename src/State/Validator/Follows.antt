-- ===== src/State/Validator/Follows.antt =====
-- The scan of a block's file operations against their evaluation on the files.
use blockafile.Base.{
  ℕ, suc, ◌≤◌, ◌<◌, ◌≡◌, refl, sym, subst, ◌∙◌, true, some, List, [], ◌∷◌, arith, length,
  bytes_eq_refl,
}
use blockafile.Base.Dict.{Dict, lookup, insert, lookup-insert}
use blockafile.Base.Result.{ok, err}
use blockafile.Shared.{FileInfo, max_record_count}
use blockafile.Crypto.Block.{BlockOp, BlockOpType, create_file, append_file, delete_file, other_op}
use blockafile.State.Filesystem.{
  max_capacity, new_file, appended, append_op, evaluate_op, evaluate_fs_block_ops,
}
use blockafile.State.Filesystem.Ops.{create_op_runs, append_op_runs, delete_op_runs}
use blockafile.State.Validator.Scan.{
  FsScan, append_step, append_cached_step, fs_step, fs_scan, grown_file, validate_new_fs_block_ops,
}
use blockafile.State.Validator.Counts.{
  SameCounts, HasRoom, HasRoom-insert, HasRoom-erase, fs_step-errors, create_type, append_type,
  delete_type, other_type, create-fits, create-SameCounts, delete-present, delete-SameCounts,
  append-present, append-next, append-SameCounts,
}

-- What a step that reports nothing comes with.
Follows : ℕ → Dict FileInfo → BlockOp → FsScan → Dict FileInfo → Type 0
Follows n fs tx s cur =
    (cur' : Dict FileInfo) × (evaluate_op tx true true cur ≡ ok cur')
    × SameCounts fs (fs_step fs tx s) cur'
    × HasRoom n cur'

module _ (fs : Dict FileInfo) (tx : BlockOp) (s : FsScan) (cur : Dict FileInfo)
    (same : SameCounts fs s cur) where
  -- A step that reports nothing is an operation that succeeds.
  stepped :
      (n : ℕ) (cur' : Dict FileInfo) (next : FsScan)
      → fs_step fs tx s ≡ next
      → evaluate_op tx true true cur ≡ ok cur'
      → SameCounts fs next cur'
      → HasRoom n cur'
      → Follows n fs tx s cur
  unfolding Follows
  stepped n cur' next e done kept room =
      (cur', done, subst (λ q. SameCounts fs q cur') (sym e) kept, room)

  fs_step-Follows :
      (n : ℕ)
      → HasRoom (suc n) cur
      → n ≤ max_record_count
      → (fs_step fs tx s).errors ≡ []
      → Follows n fs tx s cur
  fs_step-Follows n room few h = by_type tx.op_type refl
    where
      quiet : (next : FsScan) → fs_step fs tx s ≡ next → next.errors ≡ []
      quiet next e = subst (λ (q : FsScan). q.errors ≡ []) e h

      by_type : (ty : BlockOpType) → tx.op_type ≡ ty → Follows n fs tx s cur
      by_type create_file e =
          let (step, run) = create_type fs tx s cur e in
          let (fits, absent) = create-fits fs tx s cur same (quiet _ step) in
          stepped n _ _ step (run ∙ create_op_runs tx cur fits absent)
            (create-SameCounts fs tx s cur same (quiet _ step))
            (HasRoom-insert n cur tx.filename (new_file tx) room (omega arith))
      by_type delete_file e =
          let (step, run) = delete_type fs tx s cur e in
          stepped n _ _ step
            (run ∙ delete_op_runs tx cur (delete-present fs tx s cur same (quiet _ step)))
            (delete-SameCounts fs tx s cur same (quiet _ step))
            (HasRoom-erase n cur tx.filename room)
      by_type append_file e =
          let (step, run) = append_type fs tx s cur e in
          let (f, found) = append-present fs tx s cur same (quiet _ step) in
          let small = room tx.filename f found in
          let low : f.number_of_records < max_record_count = omega (arith, small) in
          let next = append-next fs tx s cur same f found low (quiet _ step) in
          stepped n _ _ step (run ∙ append_op_runs tx cur f found low next)
            (append-SameCounts fs tx s cur same f found low (quiet _ step))
            (HasRoom-insert n cur tx.filename (appended tx f) room (omega (arith, small)))
      by_type (other_op k) e = absurd (other_type fs tx s cur k e h)

fs_scan-errors :
    (fs : Dict FileInfo) (ops : List BlockOp) (s : FsScan)
    → (fs_scan fs ops s).errors ≡ []
    → s.errors ≡ []
unfolding fs_scan
fs_scan-errors fs [] s h = h
fs_scan-errors fs (tx ∷ ops) s h =
    fs_step-errors fs tx s (fs_scan-errors fs ops (fs_step fs tx s) h)

fs_scan-follows :
    (fs : Dict FileInfo) (ops : List BlockOp) (s : FsScan) (cur : Dict FileInfo)
    → SameCounts fs s cur
    → HasRoom (length ops) cur
    → length ops ≤ max_record_count
    → (fs_scan fs ops s).errors ≡ []
    → (cur' : Dict FileInfo) × (evaluate_fs_block_ops cur ops true true ≡ ok cur')
      × SameCounts fs (fs_scan fs ops s) cur'
unfolding fs_scan evaluate_fs_block_ops Follows
fs_scan-follows fs [] s cur same room few h = (cur, refl, same)
fs_scan-follows fs (tx ∷ ops) s cur same room few h =
    let quiet = fs_scan-errors fs ops (fs_step fs tx s) h in
    let (cur', done, same', room') =
      fs_step-Follows fs tx s cur same (length ops) room (omega arith) quiet in
    let (cur'', rest, same'') =
      fs_scan-follows fs ops (fs_step fs tx s) cur' same' room' (omega arith) h in
    (cur'', rw done rest, same'')

-- Let validateNewFSBlockOps, over cached files each of which has room for as many more records as
-- there are operations, at most 65535, report no error on the operations of a block. Then evaluateFSBlockOps does
-- not fail on them, with every operation confirmed, and the files that it comes to are those that
-- the scan has with the cached ones, without those that the scan has deleted, each with as many
-- records.
pub validate_new_fs_block_ops-follows :
    (fs : Dict FileInfo) (ops : List BlockOp)
    → HasRoom (length ops) fs
    → length ops ≤ max_record_count
    → (validate_new_fs_block_ops fs ops []).errors ≡ []
    → (cur : Dict FileInfo) × (evaluate_fs_block_ops fs ops true true ≡ ok cur)
      × SameCounts fs (validate_new_fs_block_ops fs ops []) cur
unfolding validate_new_fs_block_ops lookup
validate_new_fs_block_ops-follows fs ops room few h =
    fs_scan-follows fs ops _ fs (λ x. refl) room few h

module _ (fs : Dict FileInfo) (f : FileInfo) (tx : BlockOp) (ty : tx.op_type ≡ append_file)
    (found : lookup tx.filename fs ≡ some f) (full : f.number_of_records ≡ 65534) where
  abbrev first_append : BlockOp
  first_append = record tx { record_number = 65534 }

  abbrev second_append : BlockOp
  second_append = record tx { record_number = 65535 }

  first_scanned :
      (s : FsScan)
      → s ≡ record { res = []; valid_ops = []; deleted_files = []; errors = [] }
      → ((fs_step fs first_append s).errors ≡ [])
        × ((fs_step fs first_append s).deleted_files ≡ [])
        × ((fs_step fs first_append s).res ≡ insert tx.filename (grown_file tx 65535 f) [])
  unfolding fs_step append_step append_cached_step lookup
  first_scanned s e = (ground arith, ground arith, ground arith)

  second_scanned :
      (s : FsScan)
      → s.errors ≡ []
      → s.deleted_files ≡ []
      → s.res ≡ insert tx.filename (grown_file tx 65535 f) []
      → (fs_step fs second_append s).errors ≡ []
  unfolding fs_step append_step append_cached_step lookup
  second_scanned s quiet nothing res = ground (
    arith,
    lookup-insert tx.filename tx.filename (grown_file tx 65535 f) [],
    bytes_eq_refl tx.filename,
  )

  first_run : evaluate_op first_append true true fs ≡ ok (insert tx.filename (appended tx f) fs)
  unfolding evaluate_op append_op
  first_run = ground arith

  second_run :
      (cur : Dict FileInfo)
      → cur ≡ insert tx.filename (appended tx f) fs
      → evaluate_op second_append true true cur ≡ err (max_capacity tx.filename)
  unfolding evaluate_op append_op
  second_run cur e =
      ground
        (arith, lookup-insert tx.filename tx.filename (appended tx f) fs, bytes_eq_refl tx.filename)

  -- A cached file of 65534 records, and two appends to it with the next numbers: the scan reports no
  -- error, since it compares the limit with the cached number for both of them, but
  -- evaluateFSBlockOps fails on the second.
  pub scan-overfull :
      let ops = first_append ∷ second_append ∷ [] in
      ((validate_new_fs_block_ops fs ops []).errors ≡ [])
      × (evaluate_fs_block_ops fs ops true true ≡ err (max_capacity tx.filename))
  unfolding validate_new_fs_block_ops fs_scan evaluate_fs_block_ops
  scan-overfull =
      let start : FsScan = record { res = []; valid_ops = []; deleted_files = []; errors = [] } in
      let (quiet, nothing, res) = first_scanned start refl in
      (
        second_scanned (fs_step fs first_append start) quiet nothing res,
        rw (first_run, second_run _ refl) refl,
      )
