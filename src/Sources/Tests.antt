-- ===== src/Sources/Tests.antt =====
-- Runs of a source whose file fails twice and comes back.
use vel.Common.{
  Bool, Text, [], arith, false, has_prefix, lit, none, refl, some, true, ◌==◌, ◌∷◌, ◌≡◌,
}
use vel.Sources.{
  FileSource, SourceState, add_file_source, check_access, content, expand_tilde, find_source,
  get_source_state, new_source, not_found, poll_source, read_attempts, read_file, register,
  source_key, state_of, store_reading,
}
use vel.Sources.History.{Summarises}
use vel.Sources.Registry.{Polls, added_source_reports, readings_of, run_polls}

-- It takes any text that begins with a brace.
abbrev braces : Text → Bool
braces d = has_prefix d (lit "{")

abbrev cpu : FileSource
cpu = new_source (lit "mon") (lit "/apps/mon") (lit "cpu") (lit "/tmp/cpu.json") 2_000_000_000

added :
    add_file_source none not_found []
      (lit "mon")
      (lit "/apps/mon")
      (lit "cpu")
      (lit "/tmp/cpu.json")
      2_000_000_000
    ≡ (none, (lit "mon:cpu", cpu) ∷ [])
unfolding add_file_source register check_access expand_tilde find_source source_key has_prefix
added = refl

-- Newest first: a file that is gone since 30, after a retry that found good data at 20.
abbrev polls : Polls
polls =
    (40, lit "mon:cpu", not_found ∷ [])
    ∷ (30, lit "mon:cpu", not_found ∷ [])
    ∷ (20, lit "mon:cpu", content (lit "oops") ∷ content (lit "{}") ∷ [])
    ∷ (10, lit "other:x", not_found ∷ [])
    ∷ []

reported :
    get_source_state (run_polls braces ((lit "mon:cpu", cpu) ∷ []) polls) (lit "mon:cpu")
    ≡ some (record {
      path = lit "/tmp/cpu.json";
      interval = 2_000_000_000;
      is_ok = false;
      contents = lit "{}";
      error = lit "file not found";
      stale = true;
      stale_since = some 30;
      last_update = some 20;
    })
unfolding get_source_state run_polls poll_source read_file read_attempts store_reading state_of
    find_source new_source has_prefix ◌==◌
reported = refl

added_source_reports_example :
    (s : SourceState) × (get_source_state
        (run_polls braces ((lit "mon:cpu", cpu) ∷ []) polls)
        (source_key (lit "mon") (lit "cpu"))
      ≡ some s)
    × Summarises s (readings_of braces (source_key (lit "mon") (lit "cpu")) polls)
added_source_reports_example =
    added_source_reports braces none not_found [] ((lit "mon:cpu", cpu) ∷ []) (lit "mon")
      (lit "/apps/mon") (lit "cpu") (lit "/tmp/cpu.json") 2_000_000_000 polls added
      (omega arith, (omega arith, (omega arith, (omega arith, tt))))
