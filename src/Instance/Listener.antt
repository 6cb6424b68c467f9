-- ===== src/Instance/Listener.antt =====
-- miner/state/tree_listener.go: the listeners that tell a handler of its confirmation. The result of
-- `TreeEventHandler` says whether the channel was signalled; `none` is a panic. The file system is
-- what the miner's state generates, or none if that fails.
use blockafile.Base.{
  ℕ, zero, suc, ◌+◌, ◌*◌, ◌<◌, ◌≤◌, ◌≡◌, refl, inl, inr, Bool, true, false, not, Option, none, some,
  List, [], ◌∷◌, Bytes, arith, leb, length, get_elem?, All, bytes_eq, present, if◌then◌else◌,
  Bool-cases, Option-cases,
}
use blockafile.Crypto.Block.{data_block_size}
use blockafile.State.Filesystem.{FilesystemState, get_file}
use blockafile.State.Filesystem.Records.{File, concat, stored, slice, slice-concat}
use blockafile.Instance.Stored.{length-concat, get_elem?_bound}

-- `file.Data[startIndex : startIndex + 512]`; the uint32 index of a uint16 number does not wrap.
abbrev record_at : Bytes → ℕ → Option Bytes
record_at bytes number =
    if leb (number * data_block_size + data_block_size) (length bytes)
    then some (slice (number * data_block_size) bytes)
    else none

-- `AppendConfirmationListener.TreeEventHandler`
unfoldable pub append_event_handler :
    Bytes → Bytes → ℕ → Bytes → Option FilesystemState → Option Bool
append_event_handler creator filename record_number data_bytes none = some false
append_event_handler creator filename record_number data_bytes (some fs) =
    elim (get_file fs filename) [
      | none ↦ some false
      | some file ↦
          if not (bytes_eq file.creator creator)
          then some false
          else if leb file.number_of_records record_number
          then some false
          else elim (record_at file.data_bytes record_number) [
            | none ↦ none
            | some r ↦ some (bytes_eq data_bytes r)
          ]
    ]

-- `CreateConfirmationListener.TreeEventHandler`
unfoldable pub create_event_handler : Bytes → Bytes → Option FilesystemState → Bool
create_event_handler creator filename none = false
create_event_handler creator filename (some fs) = elim (get_file fs filename) [
  | none ↦ false
  | some file ↦ bytes_eq file.creator creator
]

-- `DeleteConfirmationListener.TreeEventHandler`
unfoldable pub delete_event_handler : Bytes → Option FilesystemState → Bool
delete_event_handler filename none = false
delete_event_handler filename (some fs) = not (present (get_file fs filename))

-- Whether the abstract file of that creator has that record under that number.
abbrev pub is_confirmed : Bytes → ℕ → Bytes → File → Bool
is_confirmed creator record_number data_bytes f =
    if bytes_eq f.owner creator
    then elim (get_elem? f.records record_number) [ none ↦ false | some r ↦ bytes_eq data_bytes r ]
    else false

get_elem?_past : {A : Type 0} (i : ℕ) (xs : List A) → get_elem? xs i ≡ none → length xs ≤ i
get_elem?_past i [] h = omega arith
get_elem?_past zero (x ∷ xs) h = absurd (ground arith)
get_elem?_past (suc i) (x ∷ xs) h = omega (arith, get_elem?_past i xs h)

concat-length_after :
    (i : ℕ) (rs : List Bytes)
    → All (λ x. length x ≡ data_block_size) rs
    → i < length rs
    → leb (i * data_block_size + data_block_size) (length (concat rs)) ≡ true
concat-length_after i rs whole low = let size = length-concat rs whole in ground arith

-- For a file in its stored form, with records of 512 bytes, the listener for an append does not
-- panic, and signals exactly if the file is the creator's and its record with that number is the
-- one that was appended.
pub append_event_handler-stored :
    (fs : FilesystemState) (filename creator data_bytes : Bytes) (record_number : ℕ) (f : File)
    → get_file fs filename ≡ some (stored f)
    → All (λ x. length x ≡ data_block_size) f.records
    → append_event_handler creator filename record_number data_bytes (some fs)
      ≡ some (is_confirmed creator record_number data_bytes f)
unfolding append_event_handler
append_event_handler-stored fs filename creator data_bytes i f found whole =
    elim (Bool-cases (bytes_eq f.owner creator)) [
      | inr other ↦ rw (found, append_event_handler, other) refl
      | inl same ↦ elim (Option-cases (get_elem? f.records i)) [
        | inl past ↦
            let low = get_elem?_past i f.records past in
            let over : leb (length f.records) i ≡ true = ground arith in
            rw (found, append_event_handler, same, past, over) refl
        | inr (r, here) ↦
            let low = get_elem?_bound i f.records r here in
            let under : leb (length f.records) i ≡ false = ground arith in
            let room = concat-length_after i f.records whole low in
            let bytes = slice-concat i f.records r whole here in
            rw (found, append_event_handler, same, here, under, room, bytes) refl
      ]
    ]
