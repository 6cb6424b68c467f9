-- ===== src/Rfs/Tests.antt =====
-- A client that reads the second record of a file, at the second try each way.
use blockafile.Base.{
  ℕ, zero, suc, ◌+◌, ◌<◌, ◌≤◌, ◌≡◌, refl, true, false, none, some, [], ◌∷◌, Bytes, arith, codes,
  bytes_eq,
}
use blockafile.Base.Dict.{lookup}
use blockafile.Shared.{read_rec, create_file, no_error, RfsClientRequest, RfsMinerResponse}
use blockafile.State.Filesystem.Records.{File, stored}
use blockafile.Instance.Service.{
  Surroundings, miner_instance, empty_response, dispatch, serve_create, serve_read,
}
use blockafile.Instance.{create_file_handler, read_rec_handler}
use blockafile.Rfs.{
  Connection, write_failed, written, read_failed, received, request, rfs_read_rec,
  generate_response_error,
}
use blockafile.Rfs.Retry.{Sends, Receives}
use blockafile.Rfs.Report.{dispatch-Reported}
use blockafile.Rfs.Remote.{Waits, Holds, rfs_read_rec-found}

abbrev filled : ℕ → ℕ → Bytes
filled x = elim [ zero ↦ [] | suc (n → ih) ↦ x ∷ ih ]

abbrev diary : File
diary = record { owner = codes "ann"; records = filled 1 512 ∷ filled 2 512 ∷ [] }

abbrev started : File
started = record { owner = codes "ann"; records = filled 1 512 ∷ [] }

-- The chain of the miner holds one record of the file at first, and then two.
abbrev at : ℕ → Surroundings
at = elim [
  | zero ↦ record {
    is_disconnected = false;
    files = some (record { fs = (codes "diary", stored started) ∷ [] });
    validate_job = λ job. (none, none);
    confirmed = true;
  }
  | suc (n → ih) ↦ record {
    is_disconnected = false;
    files = some (record { fs = (codes "diary", stored diary) ∷ [] });
    validate_job = λ job. (none, none);
    confirmed = true;
  }
]

abbrev second_record : RfsMinerResponse
second_record = record empty_response { read_record = filled 2 512 }

abbrev late : Connection
late = record {
  miner_addr = codes "10.0.0.1:80";
  sending = elim [ zero ↦ write_failed | suc (n → ih) ↦ written ];
  receiving = elim [ zero ↦ read_failed | suc (n → ih) ↦ received second_record ];
}

late-Sends : Sends late.sending late.miner_addr 0
late-Sends = (1, omega arith, omega arith, refl, before)
  where
    before : (j : ℕ) → 0 ≤ j → j < 1 → late.sending j ≡ write_failed
    before zero low high = refl
    before (suc j) low high = absurd (omega arith)

late-Receives : Receives late.receiving late.miner_addr second_record 0
late-Receives = (1, omega arith, omega arith, refl, before)
  where
    before : (j : ℕ) → 0 ≤ j → j < 1 → late.receiving j ≡ read_failed
    before zero low high = refl
    before (suc j) low high = absurd (omega arith)

waits : (j : ℕ) → j < 1 → Waits (codes "bob") at (codes "diary") 1 j
unfolding lookup bytes_eq
waits zero low = (
  refl,
  record { fs = (codes "diary", stored started) ∷ [] },
  stored started,
  refl,
  refl,
  omega arith,
)
waits (suc j) low = absurd (omega arith)

holds : Holds (codes "bob") at (codes "diary") 1 diary 1
unfolding lookup bytes_eq
holds = (refl, record { fs = (codes "diary", stored diary) ∷ [] }, refl, refl)

made :
    dispatch
      (miner_instance (codes "bob") at (1 + suc 3))
      (request late read_rec (codes "diary") 1 [])
    ≡ some second_record
unfolding dispatch miner_instance serve_read read_rec_handler lookup bytes_eq
made = refl

rfs_read_rec-found_example :
    rfs_read_rec late (codes "diary") 1 (filled 0 512) ≡ some (filled 2 512, none)
rfs_read_rec-found_example =
    rfs_read_rec-found (codes "bob") at (codes "diary") 1 diary (refl, (refl, tt)) (filled 2 512)
      refl (omega arith) 1 3 waits holds late second_record made late-Sends late-Receives
      (filled 0 512) refl

abbrev make_diary : RfsClientRequest
make_diary = request late create_file (codes "journal") 0 []

created : dispatch (miner_instance (codes "bob") at 2) make_diary ≡ some empty_response
unfolding dispatch miner_instance serve_create create_file_handler
created = refl

quiet : generate_response_error (codes "10.0.0.1:80") make_diary empty_response ≡ none
unfolding generate_response_error
quiet = refl

dispatch-Reported_example : empty_response.error_type ≡ no_error
dispatch-Reported_example =
    dispatch-Reported (codes "bob") at 2 (codes "10.0.0.1:80") make_diary empty_response created
      quiet
