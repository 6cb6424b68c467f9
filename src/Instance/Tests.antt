-- ===== src/Instance/Tests.antt =====
-- Reads of a file of two records, and of a file of 200.
use blockafile.Base.{
  ℕ, zero, suc, ◌+◌, ◌≡◌, refl, false, some, [], ◌∷◌, Bytes, arith, codes, bytes_eq,
}
use blockafile.Base.Dict.{lookup}
use blockafile.Shared.{FileInfo, no_error}
use blockafile.State.Filesystem.{FilesystemState, get_file}
use blockafile.Instance.{answer, read_rec_handler}
use blockafile.State.Filesystem.Records.{File, stored}
use blockafile.Instance.Stored.{read_rec_handler-stored}
use blockafile.Instance.Listener.{append_event_handler, is_confirmed, append_event_handler-stored}
use blockafile.Instance.Reads.{read_rec_handler_wraps}

abbrev filled : ℕ → ℕ → Bytes
filled x = elim [ zero ↦ [] | suc (n → ih) ↦ x ∷ ih ]

abbrev two_records : FileInfo
two_records = record { creator = codes "ann"; number_of_records = 2; data_bytes = filled 3 1024 }

abbrev many_records : FileInfo
many_records = record two_records { number_of_records = 200 }

abbrev files : FilesystemState
files = record { fs = (codes "notes", two_records) ∷ (codes "log", many_records) ∷ [] }

notes_found : get_file files (codes "notes") ≡ some two_records
unfolding lookup bytes_eq
notes_found = refl

log_found : get_file files (codes "log") ≡ some many_records
unfolding lookup bytes_eq
log_found = refl

read_rec_handler_wraps_example :
    read_rec_handler false files (codes "log") (2 + 128)
    ≡ read_rec_handler false files (codes "log") 2
read_rec_handler_wraps_example =
    read_rec_handler_wraps files (codes "log") many_records log_found 2 (omega arith)

abbrev diary : File
diary = record { owner = codes "ann"; records = filled 1 512 ∷ filled 2 512 ∷ [] }

abbrev shelf : FilesystemState
shelf = record { fs = (codes "diary", stored diary) ∷ [] }

diary_found : get_file shelf (codes "diary") ≡ some (stored diary)
unfolding lookup bytes_eq
diary_found = refl

read_rec_handler-stored_example :
    read_rec_handler false shelf (codes "diary") 1 ≡ answer (filled 2 512, no_error)
read_rec_handler-stored_example =
    read_rec_handler-stored shelf (codes "diary") diary 1 (filled 2 512) diary_found
      (refl, (refl, tt)) refl (omega arith)

append_event_handler-stored_example :
    append_event_handler (codes "ann") (codes "diary") 1 (filled 2 512) (some shelf)
    ≡ some (is_confirmed (codes "ann") 1 (filled 2 512) diary)
append_event_handler-stored_example =
    append_event_handler-stored shelf (codes "diary") (codes "ann") (filled 2 512) 1 diary
      diary_found (refl, (refl, tt))
