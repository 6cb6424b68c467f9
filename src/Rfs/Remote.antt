-- ===== src/Rfs/Remote.antt =====
-- A client's ReadRec and the miner's ReadRecHandler, with the connection between them.
use blockafile.Base.{
  ℕ, zero, suc, ◌+◌, ◌≤◌, ◌<◌, ◌≡◌, refl, ap, subst, inl, inr, true, false, none, some, List, [],
  ◌∙◌, sym, ◌∷◌, Bytes, arith, length, copy, get_elem?, All, leb,
}
use mathlib.Core.Option.{some-injective}
use blockafile.Base.Result.{ok}
use blockafile.Shared.{read_rec, no_error, RfsMinerResponse, FileInfo}
use blockafile.Crypto.Block.{data_block_size}
use blockafile.State.Filesystem.{FilesystemState, get_file}
use blockafile.State.Filesystem.Records.{File, stored}
use blockafile.Instance.{answer, read_rec_handler}
use blockafile.Instance.Service.{
  Surroundings, serve_read, miner_instance, empty_response, mapped, dispatch,
}
use blockafile.Instance.Stored.{read_rec_handler-stored}
use blockafile.Rfs.{
  Connection, exchange, request, generate_response_error, send_client_request, rfs_read_rec,
}
use blockafile.Rfs.Retry.{Sends, Receives, send_client_request-Sent, get_miner_response-ok}

copy-whole : (dst src : Bytes) → length dst ≡ length src → copy dst src ≡ src
copy-whole [] [] h = refl
copy-whole [] (s ∷ src) h = absurd (omega (arith, h))
copy-whole (d ∷ dst) [] h = absurd (omega (arith, h))
copy-whole (d ∷ dst) (s ∷ src) h = ground (arith, copy-whole dst src (omega (arith, h)))

All-get_elem? :
    (P : Bytes → Type 0) (xs : List Bytes) (i : ℕ) (x : Bytes)
    → All P xs
    → get_elem? xs i ≡ some x
    → P x
All-get_elem? P [] i x h e = absurd (ground arith)
All-get_elem? P (y ∷ xs) zero x (p, h) e = subst P (ground arith) p
All-get_elem? P (y ∷ xs) (suc i) x (p, h) e = All-get_elem? P xs i x h (ground arith)

-- A client that could write its request had no error of the connection.
sent_ok :
    (conn : Connection)
    → Sends conn.sending conn.miner_addr 0
    → send_client_request conn ≡ some (ok tt)
sent_ok conn s = elim (send_client_request-Sent conn) [
  | inl (_, e) ↦ e
  | inr (no_round, e) ↦ absurd (no_round s)
]

exchange-ok :
    (conn : Connection) (r : RfsMinerResponse)
    → Sends conn.sending conn.miner_addr 0
    → Receives conn.receiving conn.miner_addr r 0
    → exchange conn ≡ some (ok r)
unfolding exchange
exchange-ok conn r sends receives =
    rw (exchange, sent_ok conn sends) (get_miner_response-ok conn r receives)

module _ (m : Bytes) (at : ℕ → Surroundings) (fname : Bytes) (i : ℕ) where
  -- A round of a connected miner whose chain has the file, but not yet record `i` of it.
  abbrev pub Waits : ℕ → Type 0
  Waits j =
      ((at j).is_disconnected ≡ false)
      × (fs : FilesystemState) × (file : FileInfo) × ((at j).files ≡ some fs)
      × (get_file fs fname ≡ some file)
      × (file.number_of_records ≤ i)

  -- A round of a connected miner whose chain has the file `f`.
  abbrev pub Holds : File → ℕ → Type 0
  Holds f j =
      ((at j).is_disconnected ≡ false)
      × (fs : FilesystemState) × ((at j).files ≡ some fs)
      × (get_file fs fname ≡ some (stored f))

  serve_read-Waits :
      (fuel j : ℕ)
      → Waits j
      → serve_read m at (suc fuel) j fname i ≡ serve_read m at fuel (j + 1) fname i
  unfolding serve_read read_rec_handler
  serve_read-Waits fuel j (connected, fs, file, there, found, short) =
      let missing : leb file.number_of_records i ≡ true = ground arith in ground arith

  module _ (f : File) (whole : All (λ x. length x ≡ data_block_size) f.records) (rec : Bytes)
      (here : get_elem? f.records i ≡ some rec) (small : i < 127) where
    serve_read-Holds :
        (fuel j : ℕ) → Holds f j → serve_read m at (suc fuel) j fname i ≡ some (rec, no_error)
    unfolding serve_read
    serve_read-Holds fuel j (connected, fs, there, found) =
        let read : read_rec_handler (at j).is_disconnected fs fname i ≡ answer (rec, no_error) =
          rw connected (read_rec_handler-stored fs fname f i rec found whole here small) in
        ground arith

    serve_read-found :
        (k j more : ℕ)
        → ((l : ℕ) → j ≤ l → l < j + k → Waits l)
        → Holds f (j + k)
        → serve_read m at (k + suc more) j fname i ≡ some (rec, no_error)
    serve_read-found zero j more waits holds =
        let one : zero + suc more ≡ suc more = omega arith in
        rw one (serve_read-Holds more j (subst (Holds f) (omega arith) holds))
    serve_read-found (suc k) j more waits holds =
        let now = serve_read-Waits (k + suc more) j (waits j (omega arith) (omega arith)) in
        let later =
          serve_read-found k (j + 1) more (λ l p q. waits l (omega arith) (omega arith))
            (subst (Holds f) (omega arith) holds) in
        let one : suc k + suc more ≡ suc (k + suc more) = omega arith in rw (one, now) later

    -- For a file whose records all have 512 bytes and a record i below 127 of it: if each round of
    -- the miner before the k-th is connected and has a file of that name with at most i records, and
    -- the k-th has this file; and if the client, within the tries it makes, writes the request and
    -- reads the response that the miner makes with fuel for more than k rounds; then ReadRec leaves
    -- the record in the caller's 512 bytes, with no error.
    pub rfs_read_rec-found :
        (k more : ℕ)
        → ((j : ℕ) → j < k → Waits j)
        → Holds f k
        → (conn : Connection) (response : RfsMinerResponse)
        → dispatch (miner_instance m at (k + suc more)) (request conn read_rec fname i [])
          ≡ some response
        → Sends conn.sending conn.miner_addr 0
        → Receives conn.receiving conn.miner_addr response 0
        → (target : Bytes) → length target ≡ data_block_size
        → rfs_read_rec conn fname i target ≡ some (rec, none)
    unfolding rfs_read_rec generate_response_error dispatch miner_instance
    rfs_read_rec-found k more waits holds conn response made sends receives target sized =
        let served =
          serve_read-found k 0 more (λ l p q. waits l (omega arith))
            (subst (Holds f) (omega arith) holds) in
        let size : length rec ≡ data_block_size =
          All-get_elem? (λ x. length x ≡ data_block_size) f.records i rec whole here in
        let full = copy-whole target rec (sized ∙ sym size) in
        let run =
          ap (mapped (λ r. record empty_response { read_record = r.0; error_type = r.1 })) served in
        let same : record empty_response { read_record = rec; error_type = no_error } ≡ response =
          some-injective _ _ (sym run ∙ made) in
        let back = exchange-ok conn response sends receives in rw (back, sym same, full) refl
