-- ===== src/ErrorLog/Tests.antt =====
-- Runs of the log, with texts for entries.
use vel.Common.{
  Text, [], arith, false, lit, none, pos, refl, replicate, some, true, ◌++◌, ◌==◌, ◌∷◌, ◌≡◌,
}
use vel.Store.{Codec}
use vel.ErrorLog.{
  File, effective_limit, get_recent, get_recent_errors, init_error_log, last_n, lines_of,
  load_and_trim, log, log_error, max_token, read_entries, rewrite_file, scan_lines, write_entries,
}
use vel.ErrorLog.Reload.{load-log_all, log_all, long_line_hides}

abbrev plain : Codec Text Text
plain = record { marshal = λ s. s; unmarshal = some; unmarshal-marshal = λ s. refl }

abbrev file : File
file = some (lit "a" ∷ [] ∷ lit "b" ∷ lit "c" ∷ [])

trimmed :
    load_and_trim plain true 2 file
    ≡ record { entries = lit "b" ∷ lit "c" ∷ []; file = some (lit "b" ∷ lit "c" ∷ []) }
unfolding load_and_trim read_entries scan_lines last_n rewrite_file write_entries ◌==◌
trimmed = refl

recent :
    get_recent_errors plain
      (log_error plain true (init_error_log plain true true file none) (lit "d"))
      (pos 2)
    ≡ lit "c" ∷ lit "d" ∷ []
unfolding get_recent_errors get_recent effective_limit log_error log init_error_log load_and_trim
    read_entries scan_lines last_n ◌==◌
recent = refl

load-log_all_example :
    let l = log_all plain (load_and_trim plain true 2 file) (lit "d" ∷ []) in
    (l.entries ≡ last_n 2 (read_entries plain (lines_of file)) ++ lit "d" ∷ [])
    × ((load_and_trim plain false 2 l.file).entries
        ≡ last_n 2 (read_entries plain (lines_of file) ++ lit "d" ∷ []))
unfolding read_entries ◌==◌
load-log_all_example =
    load-log_all plain file (omega arith) (ground arith) true false 2 (lit "d" ∷ []) (ground arith)

abbrev long : Text
long = replicate max_token 120

long_line_hides_example :
    (load_and_trim plain true 1000 (some (lit "a" ∷ long ∷ lit "b" ∷ []))).entries
    ≡ (load_and_trim plain true 1000 (some (lit "a" ∷ []))).entries
long_line_hides_example =
    long_line_hides plain true 1000 (lit "a" ∷ []) (lit "b" ∷ []) long (omega arith)
