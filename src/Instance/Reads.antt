-- ===== src/Instance/Reads.antt =====
-- What a client reads of a file.
use blockafile.Base.{
  ℕ, ◌+◌, ◌*◌, ◌%◌, ◌<◌, ◌≡◌, refl, true, false, some, Bytes, leb, arith, length, take, drop,
}
use blockafile.Shared.{FileInfo, no_error, uint16_size}
use blockafile.State.Filesystem.{FilesystemState, get_file}
use blockafile.Instance.{answer, read_rec_handler, record_slice}

module _ (fs : FilesystemState) (fname : Bytes) (file : FileInfo)
    (found : get_file fs fname ≡ some file) where
  read_rec_handler-slice :
      (record_num : ℕ)
      → record_num < file.number_of_records
      → (record_bytes : Bytes)
      → record_slice file.data_bytes ((record_num * 512) % uint16_size) ≡ some record_bytes
      → read_rec_handler false fs fname record_num ≡ answer (record_bytes, no_error)
  unfolding read_rec_handler
  read_rec_handler-slice record_num low record_bytes e =
      let there : leb file.number_of_records record_num ≡ false = ground arith in
      rw (found, there, e) refl

  -- A record below 127 of a file in the file system, whose data have 512 bytes for each record, is
  -- read whole: ReadRecHandler answers with the 512 bytes from 512 times its number on.
  pub read_rec_handler-Reads :
      (record_num : ℕ)
      → length file.data_bytes ≡ 512 * file.number_of_records
      → record_num < file.number_of_records
      → record_num < 127
      → read_rec_handler false fs fname record_num
        ≡ answer (drop (512 * record_num) (take (512 * record_num + 512) file.data_bytes), no_error)
  read_rec_handler-Reads record_num sized low small =
      let start : (record_num * 512) % uint16_size ≡ 512 * record_num = omega arith in
      let stop : (512 * record_num + 512) % uint16_size ≡ 512 * record_num + 512 = omega arith in
      let order : leb (512 * record_num) (512 * record_num + 512) ≡ true = ground arith in
      let inside : leb (512 * record_num + 512) (length file.data_bytes) ≡ true = ground arith in
      read_rec_handler-slice record_num low _ (rw (start, stop, order, inside) refl)

  -- Of a file in the file system with more than 128 records, a record from the 128th on is not
  -- read: ReadRecHandler does for it what it does for the record 128 before it.
  pub read_rec_handler_wraps :
      (record_num : ℕ)
      → record_num + 128 < file.number_of_records
      → read_rec_handler false fs fname (record_num + 128)
        ≡ read_rec_handler false fs fname record_num
  unfolding read_rec_handler
  read_rec_handler_wraps record_num low =
      let same : ((record_num + 128) * 512) % uint16_size ≡ (record_num * 512) % uint16_size =
        omega arith in
      let there : leb file.number_of_records record_num ≡ false = ground arith in
      let there' : leb file.number_of_records (record_num + 128) ≡ false = ground arith in
      rw (found, there, there', same) refl
