-- ===== src/Shared.antt =====
-- shared/constants.go, filesystem.go, messagetypes.go and util.go: constants, the state of a file,
-- the client's messages.
use blockafile.Base.{ℕ, List, Bytes, ltb, if◌then◌else◌, length, take}

-- CLIENT_RETRY_COUNT, MAX_FILENAME_LENGTH, MAX_RECORD_COUNT, crypto.DataBlockSize
abbrev pub client_retry_count : ℕ
client_retry_count = 10

abbrev pub max_filename_length : ℕ
max_filename_length = 64

abbrev pub max_record_count : ℕ
max_record_count = 65535

abbrev pub uint16_size : ℕ
uint16_size = 65536

-- `FileInfo`; `number_of_records` is a uint16.
pub record FileInfo : Type 0 where
  pub creator : Bytes
  pub number_of_records : ℕ
  pub data_bytes : Bytes

-- `RequestType`; any number past the constants is `other_request`.
pub data RequestType : Type 0 where
  create_file list_files total_recs read_rec append_rec delete_file : RequestType
  other_request : ℕ → RequestType

pub data FailureType : Type 0 where
  bad_filename disconnected file_does_not_exist file_exists : FailureType
  max_len_reached not_enough_money append_duplicate no_error : FailureType

pub record RfsClientRequest : Type 0 where
  pub request_type : RequestType
  pub file_name : Bytes
  pub record_num : ℕ
  pub append_record : Bytes

pub record RfsMinerResponse : Type 0 where
  pub error_type : FailureType
  pub file_names : List Bytes
  pub num_records : ℕ
  pub record_num : ℕ
  pub read_record : Bytes

-- `TruncateString`
unfoldable pub truncate_string : Bytes → ℕ → Bytes
truncate_string str n = if ltb n (length str) then take n str else str
