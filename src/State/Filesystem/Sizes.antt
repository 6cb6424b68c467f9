-- ===== src/State/Filesystem/Sizes.antt =====
-- The bounds that every generated file keeps.
use blockafile.Base.{
  ℕ, suc, ◌*◌, ◌≤◌, ◌<◌, ◌≡◌, refl, inl, inr, Bool, some, List, [], ◌∷◌, Bytes, arith, All, length,
  length-append, bytes_eq_iff,
}
use blockafile.Base.Dict.{Dict, lookup, insert, erase, lookup-insert, lookup-erase}
use blockafile.Base.Result.{ok, >>=-eq-ok}
use blockafile.Shared.{FileInfo, max_filename_length, max_record_count}
use blockafile.Crypto.Block.{Block, BlockOp, data_block_size}
use blockafile.State.Filesystem.Ops.{
  create_op-ok, append_op-ok, delete_op-ok, evaluate_op-cases, evaluate_block-cases, guarded-parts,
}
use blockafile.State.Filesystem.{
  new_file, appended, evaluate_op, evaluate_fs_block_ops, evaluate_block, evaluate_blocks,
  generate_filesystem,
}

-- `Data` is a byte array of `DataBlockSize` bytes.
abbrev pub IsWhole : BlockOp → Type 0
IsWhole tx = length tx.data_bytes ≡ data_block_size

-- A file holds at most 65535 records, each of 512 bytes, under a name of at most 64 bytes.
pub record IsSizedFile (name : Bytes) (f : FileInfo) : Type 0 where
  pub name_fits : length name ≤ max_filename_length
  pub records_fit : f.number_of_records ≤ max_record_count
  pub data_fits : length f.data_bytes ≡ data_block_size * f.number_of_records

abbrev pub IsSized : Dict FileInfo → Type 0
IsSized fs = (name : Bytes) (f : FileInfo) → lookup name fs ≡ some f → IsSizedFile name f

nothing-IsSized : IsSized []
unfolding lookup
nothing-IsSized name f e = cc

insert-IsSized :
    (k : Bytes) (v : FileInfo) (fs : Dict FileInfo)
    → IsSized fs
    → IsSizedFile k v
    → IsSized (insert k v fs)
insert-IsSized k v fs h s name f e =
    ground (arith, lookup-insert k name v fs, bytes_eq_iff k name, h name f)

erase-IsSized : (k : Bytes) (fs : Dict FileInfo) → IsSized fs → IsSized (erase k fs)
erase-IsSized k fs h name f e = ground (arith, lookup-erase k name fs, h name f)

new_file-IsSizedFile :
    (tx : BlockOp)
    → length tx.filename ≤ max_filename_length
    → IsSizedFile tx.filename (new_file tx)
new_file-IsSizedFile tx h = record { name_fits = h; records_fit = omega arith; data_fits = refl }

appended-IsSizedFile :
    (tx : BlockOp) (f : FileInfo)
    → IsWhole tx
    → f.number_of_records < max_record_count
    → IsSizedFile tx.filename f
    → IsSizedFile tx.filename (appended tx f)
appended-IsSizedFile tx f whole room h = record {
  name_fits = h.name_fits;
  records_fit = omega arith;
  data_fits = omega (arith, length-append f.data_bytes tx.data_bytes, h.data_fits);
}

-- An operation whose evaluation succeeds keeps the bounds, whatever is confirmed.
evaluate_op-IsSized :
    (tx : BlockOp) (created appending : Bool) (fs fs' : Dict FileInfo)
    → IsWhole tx
    → IsSized fs
    → evaluate_op tx created appending fs ≡ ok fs'
    → IsSized fs'
evaluate_op-IsSized tx created appending fs fs' whole h e =
    elim (evaluate_op-cases tx created appending fs fs' e) [
      | inl same ↦ rw same h
      | inr (inl r) ↦
          let (fits, _, is) = create_op-ok tx fs fs' r in
          rw is (insert-IsSized tx.filename (new_file tx) fs h (new_file-IsSizedFile tx fits))
      | inr (inr (inl r)) ↦
          let (f, found, room, _, is) = append_op-ok tx fs fs' r in
          rw is (
            insert-IsSized tx.filename (appended tx f) fs h
              (appended-IsSizedFile tx f whole room (h tx.filename f found)))
      | inr (inr (inr r)) ↦
          let (_, is) = delete_op-ok tx fs fs' r in rw is (erase-IsSized tx.filename fs h)
    ]

evaluate_ops-IsSized :
    (bcs : List BlockOp) (created appending : Bool) (fs fs' : Dict FileInfo)
    → All IsWhole bcs
    → IsSized fs
    → evaluate_fs_block_ops fs bcs created appending ≡ ok fs'
    → IsSized fs'
unfolding evaluate_fs_block_ops
evaluate_ops-IsSized [] created appending fs fs' whole h e =
    let same : fs ≡ fs' = cc in rw (← same) h
evaluate_ops-IsSized (tx ∷ bcs) created appending fs fs' whole h e =
    let (mid, first, rest) = >>=-eq-ok (evaluate_op tx created appending fs) _ e in
    evaluate_ops-IsSized bcs created appending mid fs' whole.1
      (evaluate_op-IsSized tx created appending fs mid whole.0 h first) rest

abbrev pub AreWhole : Block → Type 0
AreWhole b = All IsWhole b.records

module _ (create append : ℕ) where
  evaluate_block-IsSized :
      (count idx : ℕ) (b : Block) (fs fs' : Dict FileInfo)
      → AreWhole b
      → IsSized fs
      → evaluate_block create append count idx b fs ≡ ok fs'
      → IsSized fs'
  evaluate_block-IsSized count idx b fs fs' whole h e =
      elim (evaluate_block-cases create append count idx b fs fs' e) [
        | inl same ↦ rw same h
        | inr r ↦ evaluate_ops-IsSized b.records _ _ fs fs' whole h r
      ]

  evaluate_blocks-IsSized :
      (count idx : ℕ) (nodes : List Block) (fs fs' : Dict FileInfo)
      → All AreWhole nodes
      → IsSized fs
      → evaluate_blocks create append count idx nodes fs ≡ ok fs'
      → IsSized fs'
  unfolding evaluate_blocks
  evaluate_blocks-IsSized count idx [] fs fs' whole h e = let same : fs ≡ fs' = cc in rw (← same) h
  evaluate_blocks-IsSized count idx (b ∷ nodes) fs fs' whole h e =
      let (mid, first, rest) = >>=-eq-ok (evaluate_block create append count idx b fs) _ e in
      evaluate_blocks-IsSized count (suc idx) nodes mid fs' whole.1
        (evaluate_block-IsSized count idx b fs mid whole.0 h first) rest

  -- In every filesystem that a chain generates, whatever the confirmations, each file has a name of
  -- at most 64 bytes, at most 65535 records, and 512 bytes of data for each record.
  pub generate_filesystem-IsSized :
      (nodes : List Block) (fs : Dict FileInfo)
      → All AreWhole nodes
      → generate_filesystem create append nodes ≡ ok fs
      → IsSized fs
  unfolding generate_filesystem
  generate_filesystem-IsSized [] fs whole e = let same : [] ≡ fs = cc in rw (← same) nothing-IsSized
  generate_filesystem-IsSized (first ∷ nodes) fs whole e =
      evaluate_blocks-IsSized (length (first ∷ nodes)) 0 (first ∷ nodes) [] fs whole nothing-IsSized
        (guarded-parts _ _ _ e).1
