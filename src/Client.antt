-- ===== src/Client.antt =====
-- client/cat.go, head.go, tail.go and append.go: the commands that read a file and the one that
-- appends to it. What the record file library answers is a parameter. A command gives what it
-- prints, and how it ends. Reading the arguments and the addresses is left out.
mod Prints
mod Commands
mod Addresses
mod Basic
mod Tests
use blockafile.Base.{
  ℕ, zero, suc, ◌+◌, ◌-◌, ◌%◌, ◌≡◌, Option, none, some, List, [], ◌∷◌, Bytes, ltb, if◌then◌else◌,
  length, copy, replicate,
}
use blockafile.Base.Int.{ℤ, pos, negsuc, pos_part, int64, ◌-ℤ◌}
use blockafile.Base.Result.{Result, ok, err}
use blockafile.Shared.{uint16_size}
use blockafile.Crypto.Block.{data_block_size}
use blockafile.Rfs.{RfsError}

-- `RFS`, as far as the commands call it.
pub record RecordFiles : Type 0 where
  pub total_recs : Bytes → Result RfsError ℕ
  pub read_rec : Bytes → ℕ → Result RfsError Bytes
  pub append_rec : Bytes → Bytes → Result RfsError ℕ

-- The end of `main`, or the `log.Fatal` for the number of records, or for a record.
pub data Ending : Type 0 where
  finished no_total : Ending
  no_record : ℕ → Ending

abbrev pub printed : Bytes → List Bytes × Ending → List Bytes × Ending
printed line (lines, ending) = (line ∷ lines, ending)

-- `n` rounds of a loop from `i` on, of which those print that are below `bound`.
unfoldable pub print_below : (ℕ → Result RfsError Bytes) → ℕ → ℕ → ℕ → List Bytes × Ending
print_below read bound zero i = ([], finished)
print_below read bound (suc n) i =
    let later = print_below read bound n (i + 1) in
    if ltb i bound
    then elim (read i) [ err e ↦ ([], no_record i) | ok line ↦ printed line later ]
    else later

-- `uint16(k)`, of an int
abbrev pub to_uint16 : ℤ → ℕ
to_uint16 (pos n) = n % uint16_size
to_uint16 (negsuc n) = uint16_size - 1 - n % uint16_size

module _ (rfs : RecordFiles) (fname : Bytes) where
  -- The rest of a command, once it has the number of records.
  abbrev pub with_total : Result RfsError ℕ → (ℕ → List Bytes × Ending) → List Bytes × Ending
  with_total (err e) next = ([], no_total)
  with_total (ok n) next = next n

  -- cat.go
  unfoldable pub cat : List Bytes × Ending
  unfolding print_below
  cat = with_total (rfs.total_recs fname) (λ n. print_below (rfs.read_rec fname) n n 0)

  -- head.go
  unfoldable pub head : ℤ → List Bytes × Ending
  unfolding print_below
  head k =
      with_total (rfs.total_recs fname) (λ n. print_below (rfs.read_rec fname) (to_uint16 k) n 0)

  -- tail.go
  unfoldable pub tail : ℤ → List Bytes × Ending
  unfolding print_below
  tail k = with_total (rfs.total_recs fname) (λ n.
      let first = pos_part (int64 (pos n -ℤ k)) in
      print_below (rfs.read_rec fname) n (n - first) first)

  -- append.go: the record that it sends, and the number that it prints.
  unfoldable pub append : Bytes → Result RfsError ℕ
  append record_string = rfs.append_rec fname (copy (replicate data_block_size 0) record_string)
