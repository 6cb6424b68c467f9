-- ===== src/Rfs.antt =====
-- rfslib/rfslib.go: the client's side of a connection to a miner. What the network and the failure
-- detector do in round `i` of a retry loop is a parameter, a function of `i`. `none` is a panic on a
-- response that does not decode. Gob encodes each request, and the socket's addresses and deadlines
-- are left out.
mod Retry
mod Report
mod Remote
mod Tests
use blockafile.Base.{
  ℕ, zero, suc, ◌+◌, ◌≡◌, Bool, true, false, not, codes, Option, none, some, List, [], ◌∷◌, Bytes,
  leb, length, copy, if◌then◌else◌,
}
use blockafile.Base.Result.{Result, ok, err}
use blockafile.Shared.{
  RequestType, create_file, list_files, total_recs, read_rec, append_rec, delete_file, FailureType,
  bad_filename, disconnected, file_does_not_exist, file_exists, max_len_reached, not_enough_money,
  append_duplicate, no_error, RfsClientRequest, RfsMinerResponse, client_retry_count,
}

-- The error types. Each holds the miner's address or the name of the file.
pub data RfsError : Type 0 where
  disconnected_error bad_filename_error file_does_not_exist_error : Bytes → RfsError
  file_exists_error file_max_len_reached_error : Bytes → RfsError

-- What ends a round of `sendClientRequest`: the failure detector, or the goroutine that writes.
pub data SendEvent : Type 0 where
  miner_failed write_failed written : SendEvent

-- What ends a round of `getMinerResponse`; a response that does not decode is a panic.
pub data ReceiveEvent : Type 0 where
  miner_failed read_failed undecodable : ReceiveEvent
  received : RfsMinerResponse → ReceiveEvent

-- The connection of an `RFSInstance`: the miner's address, and what happens to a call on it.
pub record Connection : Type 0 where
  pub miner_addr : Bytes
  pub sending : ℕ → SendEvent
  pub receiving : ℕ → ReceiveEvent

-- `generateResponseError`: the two failures with no case of the switch make no error.
unfoldable pub generate_response_error :
    Bytes → RfsClientRequest → RfsMinerResponse → Option RfsError
generate_response_error miner_addr request response = elim response.error_type [
  | bad_filename ↦ some (bad_filename_error request.file_name)
  | disconnected ↦ some (disconnected_error miner_addr)
  | file_does_not_exist ↦ some (file_does_not_exist_error request.file_name)
  | file_exists ↦ some (file_exists_error request.file_name)
  | max_len_reached ↦ some (file_max_len_reached_error request.file_name)
  | not_enough_money ↦ none
  | append_duplicate ↦ none
  | no_error ↦ none
]

-- The `for` of `sendClientRequest`, on fuel; `none` is fuel that ran out.
unfoldable pub send_rounds : (ℕ → SendEvent) → Bytes → ℕ → ℕ → Option (Result RfsError (Unit {0}))
send_rounds sending miner_addr zero retry_count = none
send_rounds sending miner_addr (suc fuel) retry_count =
    let again = send_rounds sending miner_addr fuel (retry_count + 1) in
    if leb client_retry_count retry_count
    then some (err (disconnected_error miner_addr))
    else elim (sending retry_count) [
      | miner_failed ↦ some (err (disconnected_error miner_addr))
      | write_failed ↦ again
      | written ↦ some (ok tt)
    ]

-- The `for` of `getMinerResponse`, on fuel; `none` is that, or a panic.
unfoldable pub receive_rounds :
    (ℕ → ReceiveEvent) → Bytes → ℕ → ℕ → Option (Result RfsError RfsMinerResponse)
receive_rounds receiving miner_addr zero retry_count = none
receive_rounds receiving miner_addr (suc fuel) retry_count =
    let again = receive_rounds receiving miner_addr fuel (retry_count + 1) in
    if leb client_retry_count retry_count
    then some (err (disconnected_error miner_addr))
    else elim (receiving retry_count) [
      | miner_failed ↦ some (err (disconnected_error miner_addr))
      | read_failed ↦ again
      | undecodable ↦ none
      | received r ↦ some (ok r)
    ]

module _ (rfs : Connection) where
  -- `sendClientRequest`; every round but the last counts a retry.
  unfoldable pub send_client_request : Option (Result RfsError (Unit {0}))
  send_client_request = send_rounds rfs.sending rfs.miner_addr (client_retry_count + 1) 0

  -- `getMinerResponse`
  unfoldable pub get_miner_response : Option (Result RfsError RfsMinerResponse)
  get_miner_response = receive_rounds rfs.receiving rfs.miner_addr (client_retry_count + 1) 0

  -- The request, then the response, as each call of the interface makes them.
  unfoldable pub exchange : Option (Result RfsError RfsMinerResponse)
  unfolding send_client_request get_miner_response
  exchange = elim send_client_request [
    | none ↦ none
    | some (err e) ↦ some (err e)
    | some (ok _) ↦ get_miner_response
  ]

  abbrev pub request : RequestType → Bytes → ℕ → Bytes → RfsClientRequest
  request ty fname record_num append_record = record {
    request_type = ty;
    file_name = fname;
    record_num = record_num;
    append_record = append_record;
  }

  -- What a call returns: what it takes of a response, or `missing` beside the connection's error.
  abbrev pub replied :
      {A : Type 0}
      → RfsClientRequest
      → A
      → (RfsMinerResponse → A)
      → Option (Result RfsError RfsMinerResponse)
      → Option (A × Option RfsError)
  replied req missing part none = none
  replied req missing part (some (err e)) = some (missing, some e)
  replied req missing part (some (ok r)) =
      some (part r, generate_response_error rfs.miner_addr req r)

  module _ (fname : Bytes) where
    -- `CreateFile` and `DeleteFile`
    unfoldable pub rfs_create_file : Option (Unit {0} × Option RfsError)
    unfolding exchange generate_response_error
    rfs_create_file = replied (request create_file fname 0 []) tt (λ _. tt) exchange

    unfoldable pub rfs_delete_file : Option (Unit {0} × Option RfsError)
    unfolding exchange generate_response_error
    rfs_delete_file = replied (request delete_file fname 0 []) tt (λ _. tt) exchange

    -- `TotalRecs`
    unfoldable pub rfs_total_recs : Option (ℕ × Option RfsError)
    unfolding exchange generate_response_error
    rfs_total_recs =
        replied (request total_recs fname 0 []) 0 (λ (r : RfsMinerResponse). r.num_records) exchange

    -- `ReadRec`: the caller's record after the call. A response with an error is copied as well.
    unfoldable pub rfs_read_rec : ℕ → Bytes → Option (Bytes × Option RfsError)
    unfolding exchange generate_response_error
    rfs_read_rec record_num target =
        replied (request read_rec fname record_num []) target
          (λ (r : RfsMinerResponse). copy target r.read_record) exchange

    -- `AppendRec`
    unfoldable pub rfs_append_rec : Bytes → Option (ℕ × Option RfsError)
    unfolding exchange generate_response_error
    rfs_append_rec append_record =
        replied (request append_rec fname 0 append_record) 0
          (λ (r : RfsMinerResponse). r.record_num) exchange

  -- `ListFiles`
  unfoldable pub rfs_list_files : Option (List Bytes × Option RfsError)
  unfolding exchange generate_response_error
  rfs_list_files =
      replied (request list_files [] 0 []) [] (λ (r : RfsMinerResponse). r.file_names) exchange

-- The errors of `Initialize`, and its success.
pub data InitError : Type 0 where
  bad_local_addr bad_miner_addr not_dialed no_detector : InitError

-- `net.ResolveTCPAddr`, `net.DialTCP` and `fdlib.InitializeFDLib`, as `Initialize` finds them.
pub record Surroundings : Type 0 where
  pub resolves : Bytes → Bool
  pub dials : Bytes → Bytes → Option Connection
  pub detects : Bool

module _ (net : Surroundings) where
  -- The connection from the local address, or else from any port.
  abbrev dialed : Bytes → Bytes → Option Connection
  dialed local_addr miner_addr = elim (net.dials local_addr miner_addr) [
    | some conn ↦ some conn
    | none ↦ if net.resolves (codes ":0") then net.dials (codes ":0") miner_addr else none
  ]

  abbrev detecting : Option Connection → Option Connection × Result InitError Connection
  detecting none = (none, err not_dialed)
  detecting (some conn) = if net.detects then (some conn, ok conn) else (none, err no_detector)

  -- `Initialize`: the one instance after the call, and what the call returns.
  unfoldable pub initialize :
      Option Connection → Bytes → Bytes → Option Connection × Result InitError Connection
  initialize (some rfs_instance) local_addr miner_addr = (some rfs_instance, ok rfs_instance)
  initialize none local_addr miner_addr =
      if not (net.resolves local_addr)
      then (none, err bad_local_addr)
      else if not (net.resolves miner_addr)
      then (none, err bad_miner_addr)
      else detecting (dialed local_addr miner_addr)

-- `TearDown`, of which only the instance after it is told; `none` is the nil pointer.
unfoldable pub tear_down : Option Connection → Option (Option Connection)
tear_down none = none
tear_down (some rfs_instance) = some none
