-- ===== src/ErrorLog.antt =====
-- pkg/vel/errorlog.go: the log of errors, in memory and in a file of one JSON text for each line.
-- The JSON of encoding/json has no line break, so that the file is the list of its lines.
pub mod Trim
pub mod Reload
mod Tests
use vel.Common.{
  Bool, List, Option, Text, [], drop, eqb, if◌then◌else◌, length, ltb, negsuc, none, pos, some, ℕ,
  ℤ, ◌++◌, ◌-◌, ◌==◌, ◌||◌, ◌∷◌,
}
use vel.Store.{Codec}

-- The lines of the log file; none where it cannot be opened.
abbrev pub File : Type 0
File = Option (List Text)

-- `bufio.Scanner` with its default buffer gives no line of 64 KiB or more, and stops there.
abbrev pub max_token : ℕ
max_token = 65536

unfoldable pub scan_lines : List Text → List Text
scan_lines [] = []
scan_lines (line ∷ lines) =
    let rest = scan_lines lines in if ltb (length line) max_token then line ∷ rest else []

-- `entries[len(entries)-n:]` where there are more than `n`.
unfoldable pub last_n {ℓ} : {A : Type ℓ} → ℕ → List A → List A
last_n n xs = if ltb n (length xs) then drop (length xs - n) xs else xs

-- The limit of `getRecent`: all entries for none, for a negative one and for one that is too large.
unfoldable pub effective_limit : ℤ → ℕ → ℕ
effective_limit (negsuc k) n = n
effective_limit (pos limit) n = if eqb limit 0 || ltb n limit then n else limit

-- The logger, with the file at its path.
pub record ErrorLogger (Entry : Type 0) : Type 0 where
  pub entries : List Entry
  pub file : File

abbrev pub lines_of : File → List Text
lines_of none = []
lines_of (some lines) = lines

-- The global logger is none before it is initialised.
abbrev pub Global : Type 0 → Type 0
Global Entry = Option (ErrorLogger Entry)

module _ {Entry : Type 0} (codec : Codec Entry Text) where
  -- The loop of `loadAndTrim`: empty lines and lines that are no entry are left out.
  unfoldable pub read_entries : List Text → List Entry
  read_entries [] = []
  read_entries (line ∷ lines) =
      let rest = read_entries lines in
      if line == [] then rest else elim (codec.unmarshal line) [ none ↦ rest | some e ↦ e ∷ rest ]

  unfoldable pub write_entries : List Entry → List Text
  write_entries [] = []
  write_entries (e ∷ es) = codec.marshal e ∷ write_entries es

  -- `creates` says whether `os.Create` succeeds.
  unfoldable pub rewrite_file : Bool → ErrorLogger Entry → ErrorLogger Entry
  rewrite_file creates l = if creates then record l { file = some (write_entries l.entries) } else l

  unfoldable pub load_and_trim : Bool → ℕ → File → ErrorLogger Entry
  load_and_trim creates max_entries none = record { entries = []; file = none }
  load_and_trim creates max_entries (some lines) =
      let entries = last_n max_entries (read_entries (scan_lines lines)) in
      let l : ErrorLogger Entry = record { entries = entries; file = some lines } in
      if eqb (length entries) max_entries then rewrite_file creates l else l

  -- `appends` says whether the file can be opened, or created, and written.
  unfoldable pub log : Bool → ErrorLogger Entry → Entry → ErrorLogger Entry
  log appends l e = record {
    entries = l.entries ++ e ∷ [];
    file = if appends then some (lines_of l.file ++ codec.marshal e ∷ []) else l.file;
  }

  unfoldable pub get_recent : ErrorLogger Entry → ℤ → List Entry
  get_recent l limit = drop (length l.entries - effective_limit limit (length l.entries)) l.entries

  unfoldable pub init_error_log : Bool → Bool → File → Global Entry → Global Entry
  init_error_log makes_dir creates file g =
      if makes_dir then some (load_and_trim creates 1000 file) else g

  unfoldable pub log_error : Bool → Global Entry → Entry → Global Entry
  log_error appends none e = none
  log_error appends (some l) e = some (log appends l e)

  unfoldable pub get_recent_errors : Global Entry → ℤ → List Entry
  get_recent_errors none limit = []
  get_recent_errors (some l) limit = get_recent l limit
