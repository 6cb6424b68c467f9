-- ===== src/Rfs/Report.antt =====
-- The failures that a miner answers with all have an error of the client's.
use blockafile.Base.{
  ℕ, zero, suc, ◌+◌, ◌≡◌, refl, subst, sym, inl, inr, Bool, true, false, Option, none, some, Bytes,
  arith, Bool-cases, Option-cases,
}
use blockafile.Shared.{
  FailureType, bad_filename, disconnected, file_does_not_exist, file_exists, max_len_reached,
  not_enough_money, append_duplicate, no_error, RequestType, create_file, delete_file, list_files,
  total_recs, read_rec, append_rec, other_request, RfsClientRequest, RfsMinerResponse,
}
use blockafile.Crypto.Block.{BlockOp}
use blockafile.Crypto.Block as Block
use blockafile.State.Filesystem.{FilesystemState}
use blockafile.State.Validator.{AccountsFailure, FilesFailure}
use blockafile.Instance.{
  JobRound, refuse, retry, submit, list_files_handler, total_recs_handler, read_rec_handler,
  create_file_handler, append_rec_handler, delete_rec_handler, create_verdict, append_verdict,
  delete_verdict, make_job, no_record,
}
use blockafile.Instance.Service.{
  Surroundings, appended_round, mapped, serve_create, serve_delete, serve_append, serve_read,
  miner_instance, dispatch,
}
use blockafile.Rfs.{generate_response_error}

-- No failure, or one that `generateResponseError` has a case for.
abbrev pub IsReported : FailureType → Type 0
IsReported bad_filename = Unit
IsReported disconnected = Unit
IsReported file_does_not_exist = Unit
IsReported file_exists = Unit
IsReported max_len_reached = Unit
IsReported not_enough_money = ⊥
IsReported append_duplicate = ⊥
IsReported no_error = Unit

abbrev IsReportedRound : JobRound → Type 0
IsReportedRound (refuse e) = IsReported e
IsReportedRound retry = Unit
IsReportedRound (submit job) = Unit

-- Whatever a handler answers, if it does, is reported.
abbrev AnswersReported : {A : Type 0} → (A → FailureType) → Option A → Type 0
AnswersReported failure none = Unit
AnswersReported failure (some a) = IsReported (failure a)

module _ (v : BlockOp → Option AccountsFailure × Option FilesFailure) (m : Bytes) (d : Bool)
    (fname : Bytes) where
  create_verdict-IsReported :
      (job : BlockOp) (e : Option FilesFailure) → IsReportedRound (create_verdict v m d fname job e)
  create_verdict-IsReported job none = tt
  create_verdict-IsReported job (some e) = ground arith

  append_verdict-IsReported :
      (job : BlockOp) (e : Option FilesFailure) → IsReportedRound (append_verdict v m d fname job e)
  append_verdict-IsReported job none = tt
  append_verdict-IsReported job (some e) = ground arith

  delete_verdict-IsReported :
      (job : BlockOp) (e : Option FilesFailure) → IsReportedRound (delete_verdict v m d fname job e)
  delete_verdict-IsReported job none = tt
  delete_verdict-IsReported job (some e) = ground arith

  create_file_handler-IsReported : IsReportedRound (create_file_handler v m d fname)
  unfolding create_file_handler
  create_file_handler-IsReported =
      let job = make_job Block.create_file m fname 0 no_record in
      ground (arith, create_verdict-IsReported job (v job).1)

  delete_rec_handler-IsReported : IsReportedRound (delete_rec_handler v m d fname)
  unfolding delete_rec_handler
  delete_rec_handler-IsReported =
      let job = make_job Block.delete_file m fname 0 no_record in
      ground (arith, delete_verdict-IsReported job (v job).1)

  append_rec_handler-IsReported :
      (fs : FilesystemState) (bytes : Bytes)
      → IsReportedRound (append_rec_handler v m d fname fs bytes)
  unfolding append_rec_handler
  append_rec_handler-IsReported fs bytes = ground arith

module _ (m : Bytes) (at : ℕ → Surroundings) where
  serve_create-reported :
      (fuel i : ℕ) (fname : Bytes) → AnswersReported (λ e. e) (serve_create m at fuel i fname)
  unfolding serve_create
  serve_create-reported zero i fname = tt
  serve_create-reported (suc fuel) i fname = ground (
    arith,
    create_file_handler-IsReported (at i).validate_job m (at i).is_disconnected fname,
    serve_create-reported fuel (i + 1) fname,
  )

  serve_delete-reported :
      (fuel i : ℕ) (fname : Bytes) → AnswersReported (λ e. e) (serve_delete m at fuel i fname)
  unfolding serve_delete
  serve_delete-reported zero i fname = tt
  serve_delete-reported (suc fuel) i fname = ground (
    arith,
    delete_rec_handler-IsReported (at i).validate_job m (at i).is_disconnected fname,
    serve_delete-reported fuel (i + 1) fname,
  )

  appended_round-reported :
      (confirmed : Bool) (later : Option (ℕ × FailureType)) (round : JobRound)
      → AnswersReported (λ r. r.1) later
      → IsReportedRound round
      → AnswersReported (λ r. r.1) (appended_round m at confirmed later round)
  appended_round-reported confirmed later (refuse e) rest here = here
  appended_round-reported confirmed later retry rest here = rest
  appended_round-reported true later (submit job) rest here = tt
  appended_round-reported false later (submit job) rest here = tt

  serve_append-reported :
      (fuel i : ℕ) (fname bytes : Bytes)
      → AnswersReported (λ r. r.1) (serve_append m at fuel i fname bytes)
  unfolding serve_append
  serve_append-reported zero i fname bytes = tt
  serve_append-reported (suc fuel) i fname bytes =
      let s = at i in
      elim (Bool-cases s.is_disconnected) [
        | inl gone ↦ ground arith
        | inr here ↦ elim (Option-cases s.files) [
          | inl nothing ↦ ground arith
          | inr (fs, some_files) ↦ ground (
            arith,
            append_rec_handler-IsReported s.validate_job m s.is_disconnected fname fs bytes,
            appended_round-reported s.confirmed (serve_append m at fuel (i + 1) fname bytes)
                (append_rec_handler s.validate_job m s.is_disconnected fname fs bytes)
                (serve_append-reported fuel (i + 1) fname bytes),
          )
        ]
      ]

  serve_read-reported :
      (fuel i : ℕ) (fname : Bytes) (n : ℕ)
      → AnswersReported (λ r. r.1) (serve_read m at fuel i fname n)
  unfolding serve_read read_rec_handler
  serve_read-reported zero i fname n = tt
  serve_read-reported (suc fuel) i fname n =
      ground (arith, serve_read-reported fuel (i + 1) fname n)

  mapped-reported :
      {A : Type 0} (failure : A → FailureType) (f : A → RfsMinerResponse) (o : Option A)
      → ((a : A) → (f a).error_type ≡ failure a)
      → AnswersReported failure o
      → AnswersReported (λ (r : RfsMinerResponse). r.error_type) (mapped f o)
  mapped-reported failure f none same h = tt
  mapped-reported failure f (some a) same h = subst IsReported (sym (same a)) h

  typed_response-reported :
      (fuel : ℕ) (req : RfsClientRequest) (ty : RequestType)
      → AnswersReported
          (λ (r : RfsMinerResponse). r.error_type)
          (dispatch (miner_instance m at fuel) (record req { request_type = ty }))
  unfolding dispatch miner_instance list_files_handler total_recs_handler
  typed_response-reported fuel req create_file =
      mapped-reported (λ e. e) _ (serve_create m at fuel 0 req.file_name) (λ e. refl)
        (serve_create-reported fuel 0 req.file_name)
  typed_response-reported fuel req list_files = ground arith
  typed_response-reported fuel req total_recs = ground arith
  typed_response-reported fuel req read_rec =
      mapped-reported (λ r. r.1) _ (serve_read m at fuel 0 req.file_name req.record_num) (λ e. refl)
        (serve_read-reported fuel 0 req.file_name req.record_num)
  typed_response-reported fuel req append_rec =
      mapped-reported (λ r. r.1) _ (serve_append m at fuel 0 req.file_name req.append_record)
        (λ e. refl) (serve_append-reported fuel 0 req.file_name req.append_record)
  typed_response-reported fuel req delete_file =
      mapped-reported (λ e. e) _ (serve_delete m at fuel 0 req.file_name) (λ e. refl)
        (serve_delete-reported fuel 0 req.file_name)
  typed_response-reported fuel req (other_request _) = tt

generated-no_error :
    (miner_addr : Bytes) (req : RfsClientRequest) (r : RfsMinerResponse)
    → IsReported r.error_type
    → generate_response_error miner_addr req r ≡ none
    → r.error_type ≡ no_error
unfolding generate_response_error
generated-no_error miner_addr req r reported quiet = ground arith

-- If the miner's handlers make a response r to a request and the client makes no error of r, then r
-- holds no failure.
pub dispatch-Reported :
    (m : Bytes) (at : ℕ → Surroundings) (fuel : ℕ) (miner_addr : Bytes) (req : RfsClientRequest)
    (r : RfsMinerResponse)
    → dispatch (miner_instance m at fuel) req ≡ some r
    → generate_response_error miner_addr req r ≡ none
    → r.error_type ≡ no_error
dispatch-Reported m at fuel miner_addr req r made quiet =
    let reported =
      subst (AnswersReported (λ (p : RfsMinerResponse). p.error_type)) made
        (typed_response-reported m at fuel req req.request_type) in
    generated-no_error miner_addr req r reported quiet
