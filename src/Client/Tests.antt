-- ===== src/Client/Tests.antt =====
-- A file of three records.
use blockafile.Base.{
  ◌≡◌, refl, Option, none, some, List, [], ◌∷◌, ◌++◌, true, false, Bytes, arith, codes, take, drop,
  get_elem?,
}
use blockafile.Base.Int.{pos, pos_part, int64, ◌-ℤ◌}
use blockafile.Base.Result.{Result, ok, err}
use blockafile.Rfs.{RfsError, disconnected_error}
use blockafile.Client.{RecordFiles, finished, cat, head, tail}
use blockafile.Client.Commands.{
  Library, Machine, newline, get_local_miner_ip_addresses, trim_newline, split_lines, touch,
  panicked,
}
use blockafile.Client.Addresses.{get_local_miner_ip_addresses-lines}
use blockafile.Client.Basic.{client_basic, sample_fname, created, appended, file_at, counted}
use blockafile.Client.Prints.{Has, commands-print}

abbrev three : List Bytes
three = codes "one" ∷ codes "two" ∷ codes "three" ∷ []

abbrev answer : Option Bytes → Result RfsError Bytes
answer none = err (disconnected_error [])
answer (some r) = ok r

abbrev files : RecordFiles
files = record {
  total_recs = λ fname. ok 3;
  read_rec = λ fname i. answer (get_elem? three i);
  append_rec = λ fname r. ok 3;
}

three-Has : Has files (codes "notes") three
three-Has = (refl, λ i r e. ground arith)

commands-print_example :
    (cat files (codes "notes") ≡ (three, finished))
    × (head files (codes "notes") (pos 2) ≡ (take 2 three, finished))
    × (tail files (codes "notes") (pos 2)
        ≡ (drop (pos_part (int64 (pos 3 -ℤ pos 2))) three, finished))
commands-print_example = commands-print files (codes "notes") three three-Has (pos 2)

get_local_miner_ip_addresses-lines_example :
    let whole = codes "a:1" ++ newline ∷ codes "b:2" in
    (get_local_miner_ip_addresses whole ≡ some (codes "a:1", codes "b:2"))
    × (get_local_miner_ip_addresses (whole ++ newline ∷ []) ≡ some (codes "a:1", codes "b:2"))
get_local_miner_ip_addresses-lines_example =
    get_local_miner_ip_addresses-lines (codes "a:1") 98 (codes ":2") (refl, (refl, (refl, tt)))
      (refl, (refl, (refl, tt)))

-- A library with one file, which the commands find through `.rfs`.
abbrev library : Library (List Bytes)
library = record {
  create_file = λ s fname. (fname ∷ s, none);
  delete_file = λ s fname. ([], none);
  append_rec = λ s fname r. (s, ok 0);
  list_files = λ s. (s, ok s);
  total_recs = λ s fname. (s, ok 1);
  read_rec = λ s fname i r. (s, err (disconnected_error []));
  tear_down = λ s. (s, true);
}

abbrev machine : Machine (List Bytes)
machine = record { rfs_file = some (codes "a"); initialize = λ a b. some library }

-- A file `.rfs` of one line makes each command panic.
touch_panics : (touch machine (codes "notes" ∷ []) []).2 ≡ panicked
unfolding touch get_local_miner_ip_addresses trim_newline split_lines
touch_panics = refl

basic_stops :
    client_basic library []
    ≡ (sample_fname ∷ [], created ∷ appended 0 ∷ file_at 0 sample_fname ∷ counted 1 ∷ [], false)
unfolding client_basic
basic_stops = refl
