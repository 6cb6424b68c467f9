-- ===== src/Instance/Service.antt =====
-- The handlers to the end: their loops over what the miner's state answers in each round, and the
-- wait for the confirmation of a submitted job. Also miner/instance/clienthandler.go: the request
-- goes to its handler, and the results into a response.
use blockafile.Base.{
  ℕ, zero, suc, ◌+◌, Bool, true, false, Option, none, some, List, [], ◌∷◌, Bytes, if◌then◌else◌,
}
use blockafile.Shared.{
  FailureType, disconnected, no_error, RequestType, create_file, list_files, total_recs, read_rec,
  append_rec, delete_file, other_request, RfsClientRequest, RfsMinerResponse,
}
use blockafile.Crypto.Block.{BlockOp}
use blockafile.State.Filesystem.{FilesystemState}
use blockafile.State.Validator.{AccountsFailure, FilesFailure}
use blockafile.Instance.{
  answer, panicked, again, JobRound, refuse, retry, submit, no_record, list_files_handler,
  total_recs_handler, read_rec_handler, create_file_handler, append_rec_handler, delete_rec_handler,
}

-- The interface `Miner`; `none` is a handler that does not return.
pub record Miner : Type 0 where
  pub on_create_file : Bytes → Option FailureType
  pub on_list_files : Option (List Bytes × FailureType)
  pub on_total_recs : Bytes → Option (ℕ × FailureType)
  pub on_read_rec : Bytes → ℕ → Option (Bytes × FailureType)
  pub on_append_rec : Bytes → Bytes → Option (ℕ × FailureType)
  pub on_delete_rec : Bytes → Option FailureType

-- What the miner's state answers in one round of a handler. `files` is none if the chain's
-- filesystem cannot be generated, which `getFileSystemState` makes a panic. `confirmed` says whether
-- the listener that the round adds is ever notified.
pub record Surroundings : Type 0 where
  pub is_disconnected : Bool
  pub files : Option FilesystemState
  pub validate_job : BlockOp → Option AccountsFailure × Option FilesFailure
  pub confirmed : Bool

-- The job of a handler was submitted: it answers `reply` once the listener is notified.
abbrev pub awaited : {A : Type 0} → Bool → A → Option A
awaited true reply = some reply
awaited false reply = none

-- The first lines of a handler: `gone` if the miner is disconnected, or else `use` on the files.
abbrev pub with_files : {A : Type 0} → Surroundings → A → (FilesystemState → Option A) → Option A
with_files s gone next =
    if s.is_disconnected then some gone else elim s.files [ none ↦ none | some fs ↦ next fs ]

module _ (miner_id : Bytes) (at : ℕ → Surroundings) where
  -- `CreateFileHandler`, from round `i` on; `none` is also fuel that ran out.
  unfoldable pub serve_create : ℕ → ℕ → Bytes → Option FailureType
  serve_create zero i fname = none
  serve_create (suc fuel) i fname =
      let later = serve_create fuel (i + 1) fname in
      elim (create_file_handler (at i).validate_job miner_id (at i).is_disconnected fname) [
        | refuse e ↦ some e
        | retry ↦ later
        | submit job ↦ awaited (at i).confirmed no_error
      ]

  -- `DeleteRecHandler`: no round asks for another.
  unfoldable pub serve_delete : ℕ → ℕ → Bytes → Option FailureType
  serve_delete zero i fname = none
  serve_delete (suc fuel) i fname =
      let later = serve_delete fuel (i + 1) fname in
      elim (delete_rec_handler (at i).validate_job miner_id (at i).is_disconnected fname) [
        | refuse e ↦ some e
        | retry ↦ later
        | submit job ↦ awaited (at i).confirmed no_error
      ]

  -- What a round of `AppendRecHandler` answers, `later` being what the rounds after it do.
  abbrev pub appended_round : Bool → Option (ℕ × FailureType) → JobRound → Option (ℕ × FailureType)
  appended_round confirmed later (refuse e) = some (0, e)
  appended_round confirmed later retry = later
  appended_round confirmed later (submit job) = awaited confirmed (job.record_number, no_error)

  -- `AppendRecHandler`
  unfoldable pub serve_append : ℕ → ℕ → Bytes → Bytes → Option (ℕ × FailureType)
  serve_append zero i fname record_bytes = none
  serve_append (suc fuel) i fname record_bytes =
      let later = serve_append fuel (i + 1) fname record_bytes in
      let round = λ (fs : FilesystemState).
        append_rec_handler (at i).validate_job miner_id (at i).is_disconnected fname fs
          record_bytes in
      with_files (at i) (0, disconnected) (λ fs. appended_round (at i).confirmed later (round fs))

  -- `ReadRecHandler`
  unfoldable pub serve_read : ℕ → ℕ → Bytes → ℕ → Option (Bytes × FailureType)
  serve_read zero i fname record_num = none
  serve_read (suc fuel) i fname record_num =
      let later = serve_read fuel (i + 1) fname record_num in
      let round =
        λ (fs : FilesystemState). read_rec_handler (at i).is_disconnected fs fname record_num in
      with_files (at i) (no_record, disconnected)
        (λ fs. elim (round fs) [ answer r ↦ some r | panicked ↦ none | again ↦ later ])

  -- `MinerInstance` as a `Miner`. The handlers that loop run on fuel.
  unfoldable pub miner_instance : ℕ → Miner
  unfolding serve_create serve_delete serve_append serve_read list_files_handler total_recs_handler
  miner_instance fuel = record {
    on_create_file = serve_create fuel 0;
    on_list_files =
        with_files (at 0) ([], disconnected)
          (λ fs. some (list_files_handler (at 0).is_disconnected fs));
    on_total_recs = λ fname.
        with_files (at 0) (0, disconnected)
          (λ fs. some (total_recs_handler (at 0).is_disconnected fs fname));
    on_read_rec = serve_read fuel 0;
    on_append_rec = serve_append fuel 0;
    on_delete_rec = serve_delete fuel 0;
  }

abbrev pub empty_response : RfsMinerResponse
empty_response = record {
  error_type = no_error;
  file_names = [];
  num_records = 0;
  record_num = 0;
  read_record = no_record;
}

abbrev pub mapped : {A B : Type 0} → (A → B) → Option A → Option B
mapped f none = none
mapped f (some a) = some (f a)

-- The `switch` of `ServiceClientRequest`: the response that is written, or none if the handler does
-- not return or the request is ignored.
unfoldable pub dispatch : Miner → RfsClientRequest → Option RfsMinerResponse
dispatch miner request = elim request.request_type [
  | create_file ↦
      mapped (λ e. record empty_response { error_type = e })
        (miner.on_create_file request.file_name)
  | list_files ↦
      mapped (λ r. record empty_response { file_names = r.0; error_type = r.1 }) miner.on_list_files
  | total_recs ↦
      mapped (λ r. record empty_response { num_records = r.0; error_type = r.1 })
        (miner.on_total_recs request.file_name)
  | read_rec ↦
      mapped (λ r. record empty_response { read_record = r.0; error_type = r.1 })
        (miner.on_read_rec request.file_name request.record_num)
  | append_rec ↦
      mapped (λ r. record empty_response { record_num = r.0; error_type = r.1 })
        (miner.on_append_rec request.file_name request.append_record)
  | delete_file ↦
      mapped (λ e. record empty_response { error_type = e }) (miner.on_delete_rec request.file_name)
  | other_request _ ↦ none
]

-- What a turn of the loop of `ServiceClientRequest` reads; with a request, whether its response can
-- be encoded.
pub data ServeEvent : Type 0 where
  closed read_failed undecodable : ServeEvent
  requested : RfsClientRequest → Bool → ServeEvent

abbrev is_ignored : RequestType → Bool
is_ignored (other_request _) = true
is_ignored _ = false

-- `ServiceClientRequest`: the responses that are written, in order. It waits for more when the
-- events are at an end, and for ever on a handler that does not return.
unfoldable pub service_client_request : Miner → List ServeEvent → List RfsMinerResponse
unfolding dispatch
service_client_request miner [] = []
service_client_request miner (closed ∷ events) = []
service_client_request miner (read_failed ∷ events) = service_client_request miner events
service_client_request miner (undecodable ∷ events) = service_client_request miner events
service_client_request miner (requested request encodes ∷ events) =
    let rest = service_client_request miner events in
    elim (dispatch miner request) [
      | some response ↦ if encodes then response ∷ rest else []
      | none ↦ if is_ignored request.request_type then rest else []
    ]
