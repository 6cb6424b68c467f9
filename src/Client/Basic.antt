-- ===== src/Client/Basic.antt =====
-- client/client_basic.go: one call of the library after the other, up to the first that fails.
use blockafile.Base.{
  ℕ, ◌+◌, Bool, false, Option, none, some, List, [], ◌∷◌, ◌++◌, Bytes, codes, copy, replicate,
}
use blockafile.Base.Result.{Result, ok, err}
use blockafile.Crypto.Block.{data_block_size}
use blockafile.Rfs.{RfsError}
use blockafile.Client.Commands.{Library}

-- `SAMPLE_FNAME`
abbrev pub sample_fname : Bytes
sample_fname = codes "sample_file1"

-- The lines that it logs.
pub data Event : Type 0 where
  created : Event
  appended : ℕ → Event
  file_at : ℕ → Bytes → Event
  counted : ℕ → Event
  was_read : Bytes → Event

abbrev as_result : {S : Type 0} → S × Option RfsError → S × Result RfsError (Unit {0})
as_result (s, none) = (s, ok tt)
as_result (s, some e) = (s, err e)

-- The loop over the names.
abbrev files_at : ℕ → List Bytes → List Event
files_at i [] = []
files_at i (fname ∷ fnames) = file_at i fname ∷ files_at (i + 1) fnames

-- `copy(record[:], []byte("new record"))`
abbrev pub sample_record : Bytes
sample_record = copy (replicate data_block_size 0) (codes "new record")

module _ {S : Type 0} where
  abbrev logged : List Event → S × List Event × Bool → S × List Event × Bool
  logged events (s, later, fine) = (s, events ++ later, fine)

  -- `os.Exit(1)` on an error, or else what is logged and the rest of `main`.
  abbrev then_log :
      {A : Type 0}
      → S × Result RfsError A
      → (A → List Event)
      → (S → S × List Event × Bool)
      → S × List Event × Bool
  then_log (s, err e) events next = (s, [], false)
  then_log (s, ok a) events next = logged (events a) (next s)

  abbrev ended : S × Bool → S × List Event × Bool
  ended (s, fine) = (s, [], fine)

  module _ (rfs : Library S) where
    -- The lines of `main` from the last to the first; the end is `TearDown`.
    abbrev reading : S → S × List Event × Bool
    reading s =
        then_log (rfs.read_rec s sample_fname 0 (replicate data_block_size 0))
          (λ record_read. was_read record_read ∷ []) (λ s'. ended (rfs.tear_down s'))

    abbrev counting : S → S × List Event × Bool
    counting s = then_log (rfs.total_recs s sample_fname) (λ n. counted n ∷ []) reading

    abbrev listing : S → S × List Event × Bool
    listing s = then_log (rfs.list_files s) (λ fnames. files_at 0 fnames) counting

    abbrev appending : S → S × List Event × Bool
    appending s =
        then_log (rfs.append_rec s sample_fname sample_record) (λ rec_num. appended rec_num ∷ [])
          listing

    -- `main`, from the library on: the log, and whether it came to its end without an error.
    unfoldable pub client_basic : S → S × List Event × Bool
    client_basic s =
        then_log (as_result (rfs.create_file s sample_fname)) (λ _. created ∷ []) appending
