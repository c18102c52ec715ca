-- ===== src/ErrorLog/Reload.antt =====
-- What a restart keeps of the log.
use vel.Common.{
  ==_iff, All, All-append, Bool, Bool-cases, List, Option-cases, Text, [], ap, arith, drop, eqb,
  false, if◌then◌else◌, inl, inr, length, ltb, lt→ltb, none, refl, some, subst, suc, sym, true,
  zero, ℕ, ◌++◌, ◌-◌, ◌<◌, ◌==◌, ◌∙◌, ◌∷◌, ◌≡◌, ◌≢◌, ◌≤◌, ◌⊎◌,
}
use mathlib.Core.List.{append-nil, append_assoc}
use vel.Store.{Codec}
use vel.ErrorLog.Trim.{last_n-append, last_n-drop}
use vel.ErrorLog.{
  ErrorLogger, last_n, log, max_token, read_entries, scan_lines, write_entries, File, lines_of,
  load_and_trim, rewrite_file,
}

scan_lines-long :
    (before after : List Text) (line : Text)
    → max_token ≤ length line
    → scan_lines (before ++ line ∷ after) ≡ scan_lines before
unfolding scan_lines
scan_lines-long [] after line long =
    let no_line : ltb (length line) max_token ≡ false = ground arith in rw no_line
scan_lines-long (l ∷ before) after line long =
    ap (λ ls. if ltb (length l) max_token then l ∷ ls else [])
      (scan_lines-long before after line long)

module _ {Entry : Type 0} (codec : Codec Entry Text) where
  -- Every line is short enough for the scanner.
  abbrev pub AreShort : List Text → Type 0
  AreShort = All (λ line. length line < max_token)

  abbrev pub AreLoggable : List Entry → Type 0
  AreLoggable = All (λ e. (codec.marshal e ≢ []) × (length (codec.marshal e) < max_token))

  abbrev pub log_all : ErrorLogger Entry → List Entry → ErrorLogger Entry
  log_all l [] = l
  log_all l (e ∷ es) = log_all (log codec true l e) es

  read_entries-append :
      (xs ys : List Text)
      → read_entries codec (xs ++ ys) ≡ read_entries codec xs ++ read_entries codec ys
  unfolding read_entries
  read_entries-append [] ys = refl
  read_entries-append (x ∷ xs) ys = elim (Bool-cases (x == [])) [
    | inl empty ↦ rw empty (read_entries-append xs ys)
    | inr line ↦ elim (Option-cases (codec.unmarshal x)) [
      | inl no_entry ↦ rw (line, no_entry) (read_entries-append xs ys)
      | inr (e, entry) ↦ rw (line, entry) (ap (λ t. e ∷ t) (read_entries-append xs ys))
    ]
  ]

  scan_lines-all : (xs : List Text) → AreShort xs → scan_lines xs ≡ xs
  unfolding scan_lines
  scan_lines-all [] h = refl
  scan_lines-all (x ∷ xs) h =
      let short : ltb (length x) max_token ≡ true = lt→ltb _ _ h.0 in
      rw short (ap (λ t. x ∷ t) (scan_lines-all xs h.1))

  read-write : (es : List Entry) → AreLoggable es → read_entries codec (write_entries codec es) ≡ es
  unfolding read_entries write_entries
  read-write [] h = refl
  read-write (e ∷ es) h =
      let line : (codec.marshal e == []) ≡ false = ground (arith, ==_iff (codec.marshal e) []) in
      rw (line, codec.unmarshal-marshal e) (ap (λ t. e ∷ t) (read-write es h.1))

  write_entries-AreShort : (es : List Entry) → AreLoggable es → AreShort (write_entries codec es)
  unfolding write_entries
  write_entries-AreShort [] h = tt
  write_entries-AreShort (e ∷ es) ((given, short), rest) = (short, write_entries-AreShort es rest)

  drop-AreLoggable : (n : ℕ) (es : List Entry) → AreLoggable es → AreLoggable (drop n es)
  drop-AreLoggable zero es h = h
  drop-AreLoggable (suc n) [] h = tt
  drop-AreLoggable (suc n) (e ∷ es) h = drop-AreLoggable n es h.1

  rewrite-entries :
      (creates : Bool) (l : ErrorLogger Entry) → (rewrite_file codec creates l).entries ≡ l.entries
  unfolding rewrite_file
  rewrite-entries true l = refl
  rewrite-entries false l = refl

  load-entries :
      (creates : Bool) (max : ℕ) (file : File)
      → (load_and_trim codec creates max file).entries
        ≡ last_n max (read_entries codec (scan_lines (lines_of file)))
  unfolding load_and_trim read_entries scan_lines last_n
  load-entries creates max none = ground arith
  load-entries creates max (some lines) =
      elim (Bool-cases (eqb (length (last_n max (read_entries codec (scan_lines lines)))) max)) [
        | inl full ↦ rw full (rewrite-entries creates _)
        | inr fewer ↦ rw fewer
      ]

  -- The file after a start: as it was, or the entries that were kept.
  load-file :
      (creates : Bool) (max : ℕ) (file : File)
      → (lines_of (load_and_trim codec creates max file).file ≡ lines_of file)
        ⊎ (lines_of (load_and_trim codec creates max file).file
            ≡ write_entries codec (last_n max (read_entries codec (scan_lines (lines_of file)))))
  unfolding load_and_trim rewrite_file
  load-file creates max none = inl refl
  load-file creates max (some lines) =
      elim (Bool-cases (eqb (length (last_n max (read_entries codec (scan_lines lines)))) max)) [
        | inr fewer ↦ rw fewer (inl refl)
        | inl full ↦ elim (Bool-cases creates) [
          | inl created ↦ rw (full, created) (inr refl)
          | inr failed ↦ rw (full, failed) (inl refl)
        ]
      ]

  log_all-file :
      (l : ErrorLogger Entry) (es : List Entry)
      → lines_of (log_all l es).file ≡ lines_of l.file ++ write_entries codec es
  unfolding log write_entries
  log_all-file l [] = sym (append-nil _)
  log_all-file l (e ∷ es) =
      log_all-file (log codec true l e) es ∙ append_assoc (lines_of l.file) _ _

  log_all-entries :
      (l : ErrorLogger Entry) (es : List Entry) → (log_all l es).entries ≡ l.entries ++ es
  unfolding log
  log_all-entries l [] = sym (append-nil _)
  log_all-entries l (e ∷ es) =
      log_all-entries (log codec true l e) es ∙ append_assoc l.entries (e ∷ []) es

  module _ (file : File) (short : AreShort (lines_of file))
      (loggable : AreLoggable (read_entries codec (lines_of file))) where
    -- After a start the lines are still short, and what they lack is what a later trim drops.
    after_start :
        (creates : Bool) (max : ℕ) (es : List Entry)
        → let lines = lines_of (load_and_trim codec creates max file).file in
          AreShort lines
          × (last_n max (read_entries codec lines ++ es)
              ≡ last_n max (read_entries codec (lines_of file) ++ es))
    after_start creates max es =
        let all : List Entry = read_entries codec (lines_of file) in
        let seen : scan_lines (lines_of file) ≡ lines_of file =
          scan_lines-all (lines_of file) short in
        let kept : AreLoggable (last_n max all) =
          subst AreLoggable (sym (last_n-drop max all))
            (drop-AreLoggable (length all - max) all loggable) in
        elim (load-file creates max file) [
          | inl same ↦ rw same (short, refl)
          | inr written ↦
              let e =
                written
                ∙ ap (λ ls. write_entries codec (last_n max (read_entries codec ls))) seen in
              rw e (
                write_entries-AreShort (last_n max all) kept,
                ap (λ xs. last_n max (xs ++ es)) (read-write (last_n max all) kept)
                    ∙ last_n-append max all es,
              )
        ]

    -- A restart loses nothing but what is trimmed. Let the lines of the file be short enough for
    -- the scanner, and the entries in them and the new ones have short texts. After a start and the
    -- new entries, each of which is written, the memory holds the last `max` entries of the file
    -- and the new ones; after another start it holds the last `max` of all of them. Whether the
    -- starts can rewrite the file makes no difference.
    pub load-log_all :
        (creates creates' : Bool) (max : ℕ) (es : List Entry)
        → AreLoggable es
        → let l = log_all (load_and_trim codec creates max file) es in
          (l.entries ≡ last_n max (read_entries codec (lines_of file)) ++ es)
          × ((load_and_trim codec creates' max l.file).entries
              ≡ last_n max (read_entries codec (lines_of file) ++ es))
    load-log_all creates creates' max es new =
        let l0 = load_and_trim codec creates max file in
        let (shorts, trimmed) = after_start creates max es in
        let lines : List Text = lines_of l0.file ++ write_entries codec es in
        let short_lines : AreShort lines =
          All-append _ (lines_of l0.file) (write_entries codec es) shorts
            (write_entries-AreShort es new) in
        (
          log_all-entries l0 es
              ∙ ap (λ xs. xs ++ es)
                  (load-entries creates max file
                    ∙ ap (λ ls. last_n max (read_entries codec ls))
                        (scan_lines-all (lines_of file) short)),
          load-entries creates' max (log_all l0 es).file
              ∙ ap (λ ls. last_n max (read_entries codec (scan_lines ls))) (log_all-file l0 es)
              ∙ ap (λ ls. last_n max (read_entries codec ls)) (scan_lines-all lines short_lines)
              ∙ ap (last_n max) (
                  read_entries-append (lines_of l0.file) (write_entries codec es)
                  ∙ ap (λ xs. read_entries codec (lines_of l0.file) ++ xs) (read-write es new))
              ∙ trimmed,
        )

  -- A line of 64 KiB or more hides all that was logged after it: a start finds the entries in front
  -- of it and no other.
  pub long_line_hides :
      (creates : Bool) (max : ℕ) (before after : List Text) (line : Text)
      → max_token ≤ length line
      → (load_and_trim codec creates max (some (before ++ line ∷ after))).entries
        ≡ (load_and_trim codec creates max (some before)).entries
  long_line_hides creates max before after line long =
      load-entries creates max (some (before ++ line ∷ after))
      ∙ ap (λ ls. last_n max (read_entries codec ls)) (scan_lines-long before after line long)
      ∙ sym (load-entries creates max (some before))
