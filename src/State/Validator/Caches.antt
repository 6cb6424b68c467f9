-- ===== src/State/Validator/Caches.antt =====
-- The cached files after a block: `update` with what the scan of the block has.
use blockafile.Base.{
  ◌≡◌, refl, subst, ◌+◌, ◌%◌, ◌≤◌, length, inl, inr, Bool, true, Option, none, some, List, [], ◌∷◌,
  Bytes, arith, present, Bool-cases, Option-cases, bytes_eq, bytes_eq_iff, if◌then◌else◌,
}
use blockafile.Base.Dict.{Dict, lookup, insert, erase, lookup-insert, lookup-erase}
use blockafile.Shared.{FileInfo, uint16_size, max_record_count}
use blockafile.Crypto.Block.{BlockOp}
use blockafile.Base.Result.{ok}
use blockafile.State.Validator.Counts.{count_of, HasRoom}
use blockafile.State.Validator.Follows.{validate_new_fs_block_ops-follows}
use blockafile.State.Filesystem.{
  FilesystemState, evaluate_fs_block_ops, update, new_file, write_files, remove_files,
}
use blockafile.State.Validator.Scan.{
  FsScan, grown_file, fs_step, fs_scan, create_step, append_step, append_cached_step,
  append_new_step, delete_step, validate_new_fs_block_ops,
}

-- No key stands twice.
abbrev pub IsUnique {ℓ} : {V : Type ℓ} → Dict V → Type ℓ
IsUnique [] = Unit
IsUnique ((k, v) ∷ m) = (lookup k m ≡ none) × IsUnique m

abbrev over : Option FileInfo → Option FileInfo → Option FileInfo
over none old = old
over (some f) old = some f

lookup-write_files :
    (new_data fs : Dict FileInfo) (x : Bytes)
    → IsUnique new_data
    → lookup x (write_files new_data fs) ≡ over (lookup x new_data) (lookup x fs)
unfolding write_files lookup
lookup-write_files [] fs x unique = refl
lookup-write_files ((k, v) ∷ new_data) fs x (once, unique) =
    let later = lookup-write_files new_data (insert k v fs) x unique in
    let at = lookup-insert k x v fs in
    elim (Bool-cases (bytes_eq k x)) [
      | inl here ↦ ground (arith, bytes_eq_iff k x)
      | inr there ↦ ground arith
    ]

lookup-remove_files :
    (deleted : Dict Bool) (fs : Dict FileInfo) (x : Bytes)
    → lookup x (remove_files deleted fs)
      ≡ (if present (lookup x deleted) then none else lookup x fs)
unfolding remove_files lookup
lookup-remove_files [] fs x = refl
lookup-remove_files ((k, v) ∷ deleted) fs x =
    ground (arith, lookup-remove_files deleted (erase k fs) x, lookup-erase k x fs)

pub IsUnique-insert :
    {V : Type 0} (m : Dict V) (k : Bytes) (v : V) → IsUnique m → IsUnique (insert k v m)
unfolding insert lookup
IsUnique-insert [] k v unique = (refl, tt)
IsUnique-insert ((j, w) ∷ m) k v (once, unique) = elim (Bool-cases (bytes_eq j k)) [
  | inl here ↦
      let same : j ≡ k = ground (arith, bytes_eq_iff j k) in
      rw here (subst (λ q. lookup q m ≡ none) same once, unique)
  | inr there ↦ rw there (
    ground (arith, lookup-insert k j v m, bytes_eq_iff j k, bytes_eq_iff k j),
    IsUnique-insert m k v unique,
  )
]

-- A step of the scan leaves the entries of the block, or writes one.
fs_step-res :
    (fs : Dict FileInfo) (tx : BlockOp) (s : FsScan) (P : Dict FileInfo → Type 0)
    → P s.res
    → ((g : FileInfo) → P (insert tx.filename g s.res))
    → P (fs_step fs tx s).res
unfolding fs_step create_step append_step append_cached_step append_new_step delete_step
fs_step-res fs tx s P kept written =
    let made = written (new_file tx) in
    let grows =
      λ (d f : FileInfo). written (grown_file tx ((d.number_of_records + 1) % uint16_size) f) in
    elim (Option-cases (lookup tx.filename fs)) [
      | inl uncached ↦ elim (Option-cases (lookup tx.filename s.res)) [
        | inl absent ↦ ground (arith, kept, made)
        | inr (d, here) ↦ let grown = grows d d in ground (arith, kept, made, grown)
      ]
      | inr (f, cached) ↦ elim (Option-cases (lookup tx.filename s.res)) [
        | inl absent ↦ let grown = grows f f in ground (arith, kept, made, grown)
        | inr (d, here) ↦ let grown = grows d f in ground (arith, kept, made, grown)
      ]
    ]

fs_scan-IsUnique :
    (fs : Dict FileInfo) (ops : List BlockOp) (s : FsScan)
    → IsUnique s.res
    → IsUnique (fs_scan fs ops s).res
unfolding fs_scan
fs_scan-IsUnique fs [] s unique = unique
fs_scan-IsUnique fs (tx ∷ ops) s unique =
    fs_scan-IsUnique fs ops (fs_step fs tx s)
      (fs_step-res fs tx s IsUnique unique (λ g. IsUnique-insert s.res tx.filename g unique))

validate_new_fs_block_ops-IsUnique :
    (fs : Dict FileInfo) (ops : List BlockOp) → IsUnique (validate_new_fs_block_ops fs ops []).res
unfolding validate_new_fs_block_ops
validate_new_fs_block_ops-IsUnique fs ops = fs_scan-IsUnique fs ops _ tt

-- Let the cached files have room for as many more records as a block has file operations, at most
-- 65535, and let the scan of the operations report no error. Then evaluateFSBlockOps does not fail
-- on them, with every operation confirmed, and what the validator caches next, its files with the
-- entries of the scan written and the deleted files removed, has the same files as the evaluation
-- comes to, each with as many records.
pub update-follows :
    (b : FilesystemState) (ops : List BlockOp)
    → HasRoom (length ops) b.fs
    → length ops ≤ max_record_count
    → (validate_new_fs_block_ops b.fs ops []).errors ≡ []
    → let s = validate_new_fs_block_ops b.fs ops [] in
      (cur : Dict FileInfo) × (evaluate_fs_block_ops b.fs ops true true ≡ ok cur)
      × ((x : Bytes)
          → count_of (lookup x (update b s.res s.deleted_files).fs) ≡ count_of (lookup x cur))
unfolding update
update-follows b ops room few quiet =
    let s = validate_new_fs_block_ops b.fs ops [] in
    let (cur, done, same) = validate_new_fs_block_ops-follows b.fs ops room few quiet in
    (
      cur,
      done,
      λ x.
          let written =
            lookup-write_files s.res b.fs x (validate_new_fs_block_ops-IsUnique b.fs ops) in
          let removed = lookup-remove_files s.deleted_files (write_files s.res b.fs) x in
          elim (Option-cases (lookup x s.res)) [
            | inl absent ↦ ground (arith, removed, written, same x)
            | inr (g, here) ↦ ground (arith, removed, written, same x)
          ],
    )
