-- ===== src/Sources/Registry.antt =====
-- The sources side by side: each key sees the readings of its own file and no other.
use vel.Common.{
  ==_iff, ==_refl, Bool, Bool-cases, List, Option, Option-cases, Text, [], ap, arith, if◌then◌else◌,
  inl, inr, none, refl, some, ℕ, ◌++◌, ◌<◌, ◌==◌, ◌∙◌, ◌∷◌, ◌≡◌, ◌≤◌,
}
use vel.Auth.Types.{one_second}
use vel.Sources.{
  Answer, FileSource, Manager, SourceState, add_file_source, check_access, expand_tilde,
  find_source, get_source_state, new_source, poll_source, read_attempts, read_file, register,
  source_key, state_of,
}
use vel.Sources.History.{AllDated, IsFresh, Readings, Summarises, after, state-after}

-- The polls of all sources, newest first: a time, a key and the answers of the file system.
abbrev pub Polls : Type 0
Polls = List (ℕ × Text × List Answer)

-- The readings that the polls of one key make.
unfoldable pub readings_of : (Text → Bool) → Text → Polls → Readings
readings_of valid key [] = []
readings_of valid key ((now, k, answers) ∷ ps) =
    let rest = readings_of valid key ps in
    if k == key then (now, read_attempts valid 3 answers) ∷ rest else rest

unfoldable pub run_polls : (Text → Bool) → Manager → Polls → Manager
run_polls valid m [] = m
run_polls valid m ((now, k, answers) ∷ ps) = poll_source valid (run_polls valid m ps) k now answers

abbrev pub PolledAfterZero : Polls → Type 0
PolledAfterZero [] = Unit
PolledAfterZero ((now, k, answers) ∷ ps) = (0 < now) × PolledAfterZero ps

-- The source after one more poll of a key.
abbrev polled :
    (Text → Bool) → Text → Text → ℕ → List Answer → Option FileSource → Option FileSource
polled valid k key now answers none = none
polled valid k key now answers (some src) =
    if k == key then some (read_file valid src now answers) else some src

find_source-poll :
    (valid : Text → Bool) (m : Manager) (k key : Text) (now : ℕ) (answers : List Answer)
    → find_source (poll_source valid m k now answers) key
      ≡ polled valid k key now answers (find_source m key)
unfolding find_source poll_source
find_source-poll valid [] k key now answers = refl
find_source-poll valid ((j, src) ∷ m) k key now answers =
    ground
      (arith, ==_iff j k, ==_iff k key, ==_iff j key, find_source-poll valid m k key now answers)

find_source-run :
    (valid : Text → Bool) (m : Manager) (key : Text) (src : FileSource) (ps : Polls)
    → find_source m key ≡ some src
    → find_source (run_polls valid m ps) key ≡ some (after src (readings_of valid key ps))
unfolding run_polls readings_of after read_file
find_source-run valid m key src [] h = h
find_source-run valid m key src ((now, k, answers) ∷ ps) h =
    find_source-poll valid (run_polls valid m ps) k key now answers
    ∙ ap (polled valid k key now answers) (find_source-run valid m key src ps h)
    ∙ ground arith

readings_of-AllDated :
    (valid : Text → Bool) (key : Text) (ps : Polls)
    → PolledAfterZero ps
    → AllDated (readings_of valid key ps)
unfolding readings_of
readings_of-AllDated valid key [] h = tt
readings_of-AllDated valid key ((now, k, answers) ∷ ps) (p, h) = elim (Bool-cases (k == key)) [
  | inl own ↦ rw own (p, readings_of-AllDated valid key ps h)
  | inr other ↦ rw other (readings_of-AllDated valid key ps h)
]

find_source-append :
    (m : Manager) (key : Text) (src : FileSource)
    → find_source m key ≡ none
    → find_source (m ++ (key, src) ∷ []) key ≡ some src
unfolding find_source
find_source-append [] key src h = rw (==_refl key) refl
find_source-append ((k, old) ∷ m) key src h = ground (arith, find_source-append m key src)

add_file_source-eq_none :
    (home : Option Text) (answer : Answer) (m m' : Manager) (app_name app_dir name path : Text)
    (interval : ℕ)
    → add_file_source home answer m app_name app_dir name path interval ≡ (none, m')
    → (expanded : Text) × (expand_tilde home path ≡ some expanded)
      × (one_second ≤ interval)
      × (find_source m' (source_key app_name name)
          ≡ some (new_source app_name app_dir name expanded interval))
unfolding add_file_source register check_access
add_file_source-eq_none home answer m m' app_name app_dir name path interval h =
    elim (Option-cases (expand_tilde home path)) [
      | inl e ↦ absurd (ground arith)
      | inr (expanded, e) ↦
          let src : FileSource = new_source app_name app_dir name expanded interval in
          elim (Option-cases (find_source m (source_key app_name name))) [
            | inl free ↦ (
              expanded,
              e,
              ground arith,
              ground (arith, find_source-append m (source_key app_name name) src free),
            )
            | inr (old, taken) ↦ absurd (ground arith)
          ]
    ]

new_source-IsFresh :
    (app_name app_dir name expanded : Text) (interval : ℕ)
    → IsFresh (new_source app_name app_dir name expanded interval)
unfolding new_source
new_source-IsFresh app_name app_dir name expanded interval = (refl, refl, refl, refl, refl)

get_source_state-some :
    (m : Manager) (key : Text) (src : FileSource)
    → find_source m key ≡ some src
    → get_source_state m key ≡ some (state_of src)
unfolding get_source_state
get_source_state-some m key src h = ground arith

-- After AddFileSource has succeeded and the sources have been polled in any order, GetSourceState
-- reports what the readings of this source's own file came to: the data of the newest one that was
-- good with its time, whether the newest was good and its error, and since when the file has been
-- failing. A source whose latest reads all fail keeps its last good data. The clock does not stand
-- at Go's zero time.
pub added_source_reports :
    (valid : Text → Bool) (home : Option Text) (answer : Answer) (m m' : Manager)
    (app_name app_dir name path : Text) (interval : ℕ) (ps : Polls)
    → add_file_source home answer m app_name app_dir name path interval ≡ (none, m')
    → PolledAfterZero ps
    → (s : SourceState) × (get_source_state (run_polls valid m' ps) (source_key app_name name)
        ≡ some s)
      × Summarises s (readings_of valid (source_key app_name name) ps)
added_source_reports valid home answer m m' app_name app_dir name path interval ps added dated =
    let key = source_key app_name name in
    let (expanded, _, _, held) =
      add_file_source-eq_none home answer m m' app_name app_dir name path interval added in
    let src : FileSource = new_source app_name app_dir name expanded interval in
    let rs = readings_of valid key ps in
    (
      state_of (after src rs),
      get_source_state-some (run_polls valid m' ps) key (after src rs)
          (find_source-run valid m' key src ps held),
      state-after src rs (new_source-IsFresh app_name app_dir name expanded interval)
          (readings_of-AllDated valid key ps dated),
    )
