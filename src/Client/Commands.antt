-- ===== src/Client/Commands.antt =====
-- client/touch.go, rm.go and ls.go from their arguments on, client/client_basic.go, and the file
-- `.rfs` with the two addresses. The library is a parameter, its calls over a state of the miners.
use blockafile.Base.{
  ℕ, Bool, true, false, Option, none, some, List, [], ◌∷◌, Bytes, bytes_eq, codes, ◌==◌,
  if◌then◌else◌,
}
use blockafile.Base.Result.{Result, ok, err}
use blockafile.Rfs.{RfsError}

abbrev pub newline : ℕ
newline = 10

-- `strings.TrimSuffix(s, "\n")`
unfoldable pub trim_newline : Bytes → Bytes
trim_newline [] = []
trim_newline (c ∷ []) = if c == newline then [] else c ∷ []
trim_newline (c ∷ d ∷ s) = c ∷ trim_newline (d ∷ s)

abbrev onto_first : ℕ → List Bytes → List Bytes
onto_first c [] = (c ∷ []) ∷ []
onto_first c (line ∷ lines) = (c ∷ line) ∷ lines

-- `strings.Split(s, "\n")`, which is never empty
unfoldable pub split_lines : Bytes → List Bytes
split_lines [] = [] ∷ []
split_lines (c ∷ s) =
    let lines = split_lines s in if c == newline then [] ∷ lines else onto_first c lines

-- `ips[0], ips[1]`, or a panic
abbrev pub first_two : List Bytes → Option (Bytes × Bytes)
first_two (a ∷ b ∷ lines) = some (a, b)
first_two _ = none

-- `get_local_miner_ip_addresses`, of what the file holds.
unfoldable pub get_local_miner_ip_addresses : Bytes → Option (Bytes × Bytes)
get_local_miner_ip_addresses data_read = first_two (split_lines (trim_newline data_read))

-- `RFS`, and `TearDown`, of which only the failure is told.
pub record Library (S : Type 0) : Type 0 where
  pub create_file : S → Bytes → S × Option RfsError
  pub delete_file : S → Bytes → S × Option RfsError
  pub append_rec : S → Bytes → Bytes → S × Result RfsError ℕ
  pub list_files : S → S × Result RfsError (List Bytes)
  pub total_recs : S → Bytes → S × Result RfsError ℕ
  pub read_rec : S → Bytes → ℕ → Bytes → S × Result RfsError Bytes
  pub tear_down : S → S × Bool

-- How a `main` ends: its last line is printed, or one of its `log.Fatal`, or a panic.
pub data Exit : Type 0 where
  usage no_addresses panicked no_library done : Exit
  failed : Bytes → Exit

-- A line of ls: a name, and with -a the number of records.
abbrev pub Line : Type 0
Line = Bytes × Option ℕ

-- What the commands find: `.rfs`, if it can be read, and `Initialize`, if it succeeds.
pub record Machine (S : Type 0) : Type 0 where
  pub rfs_file : Option Bytes
  pub initialize : Bytes → Bytes → Option (Library S)

module _ {S : Type 0} where
  abbrev initialized :
      S → Option (Library S) → (Library S → S × List Line × Exit) → S × List Line × Exit
  initialized s none next = (s, [], no_library)
  initialized s (some rfs) next = next rfs

  abbrev with_addresses :
      Machine S
      → S
      → Option (Bytes × Bytes)
      → (Library S → S × List Line × Exit)
      → S × List Line × Exit
  with_addresses m s none next = (s, [], panicked)
  with_addresses m s (some (local_ip, miner_address)) next =
      initialized s (m.initialize local_ip miner_address) next

  -- From the addresses to the library, as each command begins.
  abbrev pub with_library :
      Machine S → S → (Library S → S × List Line × Exit) → S × List Line × Exit
  with_library m s next = elim m.rfs_file [
    | none ↦ (s, [], no_addresses)
    | some data_read ↦ with_addresses m s (get_local_miner_ip_addresses data_read) next
  ]

  abbrev ended_with : Bytes → S × Option RfsError → S × List Line × Exit
  ended_with fname (s, some e) = (s, [], failed fname)
  ended_with fname (s, none) = (s, [], done)

  -- touch.go
  unfoldable pub touch : Machine S → List Bytes → S → S × List Line × Exit
  unfolding get_local_miner_ip_addresses
  touch m (fname ∷ []) s = with_library m s (λ rfs. ended_with fname (rfs.create_file s fname))
  touch m _ s = (s, [], usage)

  -- rm.go
  unfoldable pub rm : Machine S → List Bytes → S → S × List Line × Exit
  unfolding get_local_miner_ip_addresses
  rm m (fname ∷ []) s = with_library m s (λ rfs. ended_with fname (rfs.delete_file s fname))
  rm m _ s = (s, [], usage)

  abbrev with_line : Line → S × List Line × Exit → S × List Line × Exit
  with_line line (s, lines, exit) = (s, line ∷ lines, exit)

  -- The loop of ls.go
  unfoldable pub list_lines : Library S → Bool → List Bytes → S → S × List Line × Exit
  list_lines rfs list_num_records [] s = (s, [], done)
  list_lines rfs false (fname ∷ flist) s = with_line (fname, none) (list_lines rfs false flist s)
  list_lines rfs true (fname ∷ flist) s =
      let (s', num_recs) = rfs.total_recs s fname in
      elim num_recs [
        | err e ↦ (s', [], failed fname)
        | ok n ↦ with_line (fname, some n) (list_lines rfs true flist s')
      ]

  abbrev listed : Library S → Bool → S × Result RfsError (List Bytes) → S × List Line × Exit
  listed rfs list_num_records (s, err e) = (s, [], failed [])
  listed rfs list_num_records (s, ok flist) = list_lines rfs list_num_records flist s

  abbrev list_all : Machine S → Bool → S → S × List Line × Exit
  list_all m list_num_records s =
      with_library m s (λ rfs. listed rfs list_num_records (rfs.list_files s))

  -- ls.go
  unfoldable pub ls : Machine S → List Bytes → S → S × List Line × Exit
  unfolding get_local_miner_ip_addresses list_lines
  ls m [] s = list_all m false s
  ls m (arg ∷ []) s = if bytes_eq arg (codes "-a") then list_all m true s else (s, [], usage)
  ls m _ s = (s, [], usage)
