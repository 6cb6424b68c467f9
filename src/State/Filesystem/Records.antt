-- ===== src/State/Filesystem/Records.antt =====
-- The abstract view of a filesystem: under each name a creator and the list of the records that were
-- appended. The detailed operations implement the abstract ones, and the bytes at a record's
-- offset are the record.
use mathlib.Core.List.{append-nil, append_assoc}
use blockafile.Base.{
  ℕ, zero, suc, ◌+◌, ◌*◌, ◌<◌, ◌≡◌, refl, sym, ◌∙◌, ap, inl, inr, true, false, Option, none, some,
  List, [], ◌∷◌, ◌++◌, Bytes, arith, All, length, length-append, take, drop, get_elem?, ltb, leb,
  not, ◌&&◌, ◌==◌, present, if◌then◌else◌, bytes_eq, Bool-cases, Option-cases, take_append_left,
}
use blockafile.Base.Dict.{Dict, lookup, insert, erase, lookup-insert, lookup-erase}
use blockafile.Base.Result.{Result, ok, err, ◌>>=◌}
use blockafile.Shared.{FileInfo, max_filename_length, max_record_count}
use blockafile.Crypto.Block.{
  BlockOp, BlockOpType, create_file, append_file, delete_file, other_op, data_block_size,
}
use blockafile.State.Filesystem.{
  FsError, new_file, appended, create_op, append_op, delete_op, evaluate_op, evaluate_fs_block_ops,
}

-- A file as its creator and its records.
pub record File : Type 0 where
  pub owner : Bytes
  pub records : List Bytes

abbrev pub Files : Type 0
Files = Bytes → Option File

abbrev pub concat : List Bytes → Bytes
concat [] = []
concat (r ∷ rs) = r ++ concat rs

-- The stored form of a file.
abbrev pub stored : File → FileInfo
stored f = record {
  creator = f.owner;
  number_of_records = length f.records;
  data_bytes = concat f.records;
}

abbrev pub stored? : Option File → Option FileInfo
stored? none = none
stored? (some f) = some (stored f)

-- The map holds the stored form of each abstract file, and nothing else.
abbrev pub Represents : Dict FileInfo → Files → Type 0
Represents fs files = (k : Bytes) → lookup k fs ≡ stored? (files k)

abbrev pub put_file : Bytes → Option File → Files → Files
put_file k f files j = if bytes_eq k j then f else files j

-- What an operation does to the abstract files; `none` where it is not valid.
unfoldable pub append_record : BlockOp → Files → Option File → Option Files
append_record tx files none = none
append_record tx files (some f) =
    if ltb (length f.records) max_record_count && tx.record_number == length f.records
    then some
        (put_file tx.filename (some (record f { records = f.records ++ tx.data_bytes ∷ [] })) files)
    else none

unfoldable pub apply_op : BlockOp → Files → Option Files
unfolding append_record
apply_op tx files = elim tx.op_type [
  | create_file ↦
      if leb (length tx.filename) max_filename_length && not (present (files tx.filename))
      then some (put_file tx.filename (some (record { owner = tx.creator; records = [] })) files)
      else none
  | append_file ↦ append_record tx files (files tx.filename)
  | delete_file ↦
      if present (files tx.filename) then some (put_file tx.filename none files) else none
  | other_op _ ↦ none
]

unfoldable pub apply_ops : List BlockOp → Files → Option Files
apply_ops [] files = some files
apply_ops (tx ∷ bcs) files = elim (apply_op tx files) [
  | none ↦ none
  | some files' ↦ apply_ops bcs files'
]

-- A result and an abstract result agree: both are errors, or one represents the other.
abbrev pub Agrees : Result FsError (Dict FileInfo) → Option Files → Type 0
Agrees (ok fs) (some files) = Represents fs files
Agrees (err _) none = Unit
Agrees (ok _) none = ⊥
Agrees (err _) (some _) = ⊥

concat-append : (rs : List Bytes) (r : Bytes) → concat (rs ++ r ∷ []) ≡ concat rs ++ r
concat-append [] r = append-nil r
concat-append (x ∷ rs) r = ap (◌++◌ x) (concat-append rs r) ∙ sym (append_assoc x (concat rs) r)

stored-appended :
    (tx : BlockOp) (f : File)
    → length f.records < max_record_count
    → appended tx (stored f) ≡ stored (record f { records = f.records ++ tx.data_bytes ∷ [] })
stored-appended tx f room =
    ground
      (arith, concat-append f.records tx.data_bytes, length-append f.records (tx.data_bytes ∷ []))

insert-Represents :
    (k : Bytes) (v : FileInfo) (f : File) (fs : Dict FileInfo) (files : Files)
    → Represents fs files
    → v ≡ stored f
    → Represents (insert k v fs) (put_file k (some f) files)
insert-Represents k v f fs files h e j = ground (arith, lookup-insert k j v fs, h j)

erase-Represents :
    (k : Bytes) (fs : Dict FileInfo) (files : Files)
    → Represents fs files
    → Represents (erase k fs) (put_file k none files)
erase-Represents k fs files h j = ground (arith, lookup-erase k j fs, h j)

create-Agrees :
    (tx : BlockOp) (fs : Dict FileInfo) (files : Files)
    → Represents fs files
    → Agrees (create_op tx fs) (
        if leb (length tx.filename) max_filename_length && not (present (files tx.filename))
        then some (put_file tx.filename (some (record { owner = tx.creator; records = [] })) files)
        else none)
unfolding create_op
create-Agrees tx fs files h = elim (Bool-cases (leb (length tx.filename) max_filename_length)) [
  | inr long ↦
      let over : ltb max_filename_length (length tx.filename) ≡ true = ground arith in
      rw (long, over) tt
  | inl fits ↦
      let under : ltb max_filename_length (length tx.filename) ≡ false = ground arith in
      elim (Option-cases (files tx.filename)) [
        | inl absent ↦
            rw (fits, under, h tx.filename, absent)
              (insert-Represents tx.filename (new_file tx) _ fs files h refl)
        | inr (f, there) ↦ rw (fits, under, h tx.filename, there) tt
      ]
]

append-Agrees :
    (tx : BlockOp) (fs : Dict FileInfo) (files : Files)
    → Represents fs files
    → Agrees (append_op tx fs) (append_record tx files (files tx.filename))
unfolding append_op append_record
append-Agrees tx fs files h = elim (Option-cases (files tx.filename)) [
  | inl absent ↦ rw (h tx.filename, absent, append_op) tt
  | inr (f, there) ↦ elim (Bool-cases (ltb (length f.records) max_record_count)) [
    | inr full ↦
        let over : leb max_record_count (length f.records) ≡ true = ground arith in
        rw (h tx.filename, there, append_op, full, over) tt
    | inl room ↦
        let under : leb max_record_count (length f.records) ≡ false = ground arith in
        elim (Bool-cases (tx.record_number == length f.records)) [
          | inl next ↦
              rw (h tx.filename, there, append_op, room, under, next)
                (insert-Represents tx.filename _ _ fs files h (stored-appended tx f (ground arith)))
          | inr other ↦ rw (h tx.filename, there, append_op, room, under, other) tt
        ]
  ]
]

delete-Agrees :
    (tx : BlockOp) (fs : Dict FileInfo) (files : Files)
    → Represents fs files
    → Agrees
        (delete_op tx fs)
        (if present (files tx.filename) then some (put_file tx.filename none files) else none)
unfolding delete_op
delete-Agrees tx fs files h = elim (Option-cases (files tx.filename)) [
  | inl absent ↦ rw (h tx.filename, absent) tt
  | inr (f, there) ↦ rw (h tx.filename, there) (erase-Represents tx.filename fs files h)
]

op-Agrees :
    (ty : BlockOpType) (tx : BlockOp) (fs : Dict FileInfo) (files : Files)
    → Represents fs files
    → Agrees
        (evaluate_op (record tx { op_type = ty }) true true fs)
        (apply_op (record tx { op_type = ty }) files)
unfolding evaluate_op apply_op append_record create_op append_op delete_op
op-Agrees create_file tx fs files h = create-Agrees tx fs files h
op-Agrees append_file tx fs files h = append-Agrees tx fs files h
op-Agrees delete_file tx fs files h = delete-Agrees tx fs files h
op-Agrees (other_op n) tx fs files h = tt

bind-Agrees :
    (r : Result FsError (Dict FileInfo)) (o : Option Files)
    (f : Dict FileInfo → Result FsError (Dict FileInfo)) (g : Files → Option Files)
    → Agrees r o
    → ((fs : Dict FileInfo) (files : Files) → Represents fs files → Agrees (f fs) (g files))
    → Agrees (r >>= f) (elim o [ none ↦ none | some files ↦ g files ])
bind-Agrees (ok fs) none f g h k = absurd h
bind-Agrees (ok fs) (some files) f g h k = k fs files h
bind-Agrees (err e) none f g h k = tt
bind-Agrees (err e) (some files) f g h k = absurd h

-- With everything confirmed, evaluating operations on a map that represents the abstract files
-- succeeds exactly when the abstract operations are valid in order, and then the map represents
-- their result: under each name the creator, the number of records and the records end to end.
pub evaluate_fs_block_ops-Agrees :
    (bcs : List BlockOp) (fs : Dict FileInfo) (files : Files)
    → Represents fs files
    → Agrees (evaluate_fs_block_ops fs bcs true true) (apply_ops bcs files)
unfolding evaluate_fs_block_ops apply_ops
evaluate_fs_block_ops-Agrees [] fs files h = h
evaluate_fs_block_ops-Agrees (tx ∷ bcs) fs files h =
    bind-Agrees (evaluate_op tx true true fs) (apply_op tx files) _ (apply_ops bcs)
      (op-Agrees tx.op_type tx fs files h) (evaluate_fs_block_ops-Agrees bcs)

-- `data[offset:offset+512]`
abbrev pub slice : ℕ → Bytes → Bytes
slice offset bs = take data_block_size (drop offset bs)

drop-append : (xs ys : Bytes) (n : ℕ) → drop (length xs + n) (xs ++ ys) ≡ drop n ys
drop-append [] ys n = let same : zero + n ≡ n = omega arith in rw same
drop-append (x ∷ xs) ys n =
    let same : suc (length xs) + n ≡ suc (length xs + n) = omega arith in
    rw same (drop-append xs ys n)

-- In records of 512 bytes, end to end, the bytes at 512 times an index are that record.
pub slice-concat :
    (i : ℕ) (rs : List Bytes) (r : Bytes)
    → All (λ x. length x ≡ data_block_size) rs
    → get_elem? rs i ≡ some r
    → slice (i * data_block_size) (concat rs) ≡ r
slice-concat i [] r h e = cc
slice-concat zero (x ∷ rs) r h e =
    let same : x ≡ r = cc in take_append_left data_block_size x (concat rs) h.0 ∙ same
slice-concat (suc i) (x ∷ rs) r h e =
    let offset : suc i * data_block_size ≡ length x + i * data_block_size = omega (arith, h.0) in
    rw (offset, drop-append x (concat rs) (i * data_block_size)) (slice-concat i rs r h.1 e)
