-- ===== src/Instance/Stored.antt =====
-- A client reads back the records that were appended.
use blockafile.Base.{
  ℕ, zero, suc, ◌+◌, ◌*◌, ◌<◌, ◌≡◌, refl, ap, ◌∙◌, false, some, List, [], ◌∷◌, Bytes, arith, length,
  length-append, take, drop, get_elem?, All,
}
use blockafile.Shared.{no_error}
use blockafile.Crypto.Block.{data_block_size}
use blockafile.State.Filesystem.{FilesystemState, get_file}
use blockafile.State.Filesystem.Records.{File, concat, stored, slice-concat}
use blockafile.Instance.{answer, read_rec_handler}
use blockafile.Instance.Reads.{read_rec_handler-Reads}

drop-take : {A : Type 0} (n k : ℕ) (xs : List A) → drop n (take (n + k) xs) ≡ take k (drop n xs)
drop-take zero k xs = let same : zero + k ≡ k = omega arith in rw same
drop-take (suc n) zero [] = let same : suc n + zero ≡ suc n = omega arith in rw same
drop-take (suc n) (suc k) [] = let same : suc n + suc k ≡ suc (n + suc k) = omega arith in rw same
drop-take (suc n) k (x ∷ xs) =
    let same : suc n + k ≡ suc (n + k) = omega arith in rw same (drop-take n k xs)

pub length-concat :
    (rs : List Bytes)
    → All (λ x. length x ≡ data_block_size) rs
    → length (concat rs) ≡ 512 * length rs
length-concat [] h = refl
length-concat (r ∷ rs) (e, h) = omega (arith, length-append r (concat rs), length-concat rs h, e)

pub get_elem?_bound :
    {A : Type 0} (i : ℕ) (xs : List A) (x : A) → get_elem? xs i ≡ some x → i < length xs
get_elem?_bound i [] x h = absurd (ground arith)
get_elem?_bound zero (y ∷ xs) x h = omega arith
get_elem?_bound (suc i) (y ∷ xs) x h = omega (arith, get_elem?_bound i xs x h)

-- If the file system holds the stored form of a file whose records have 512 bytes each, then
-- ReadRecHandler answers a request for record i below 127 with the i-th record of the file.
pub read_rec_handler-stored :
    (fs : FilesystemState) (fname : Bytes) (f : File) (i : ℕ) (r : Bytes)
    → get_file fs fname ≡ some (stored f)
    → All (λ x. length x ≡ data_block_size) f.records
    → get_elem? f.records i ≡ some r
    → i < 127
    → read_rec_handler false fs fname i ≡ answer (r, no_error)
read_rec_handler-stored fs fname f i r found whole here small =
    let read =
      read_rec_handler-Reads fs fname (stored f) found i (length-concat f.records whole)
        (get_elem?_bound i f.records r here) small in
    let offset : i * data_block_size ≡ 512 * i = omega arith in
    let same : drop (512 * i) (take (512 * i + 512) (concat f.records)) ≡ r =
      drop-take (512 * i) 512 (concat f.records)
      ∙ (rw offset at (slice-concat i f.records r whole here)) in
    read ∙ ap (λ b. answer (b, no_error)) same
