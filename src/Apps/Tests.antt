-- ===== src/Apps/Tests.antt =====
-- Runs of the discovery of apps.
use vel.Common.{
  In, List, Option, Text, [], false, if◌then◌else◌, int_ltb, lit, none, pos, refl, some, true, ℤ,
  ◌==◌, ◌↔◌, ◌∷◌, ◌≡◌,
}
use vel.Std.NameMap.{get, last_named, or_else, put, put_all}
use vel.Apps.{
  App, DirEntry, FileDataSource, all_bytes, app_faults, app_name, bad_version, check_interval,
  check_source, check_sources, digits_then, discover, discover_from_dir, dot_then, external_apps,
  is_installed, load_app, matches_name, matches_semver, missing_dependencies, missing_dependency,
  name_faults, panels_faults, parse_sources, parsed, read_entry, short_interval, sources,
  span_digits, validate_dependencies, version_faults, visit_entries, visit_entry,
}
use vel.Apps.Installed.{AreMet, discover-errors_iff, discover_iff}
use vel.Apps.Valid.{IsFrom, discover_from_dir_iff}

-- A parser of durations that knows two texts.
abbrev parse : Text → Option ℤ
parse s =
    if s == lit "2s"
    then some (pos 2000000000)
    else if s == lit "1ms"
    then some (pos 1000000)
    else none

abbrev source : Text → FileDataSource
source interval = record { type = lit "file"; path = lit "p"; interval = interval; producer = none }

abbrev swap : Text → Text → App
swap version interval = record {
  name = lit "swap";
  version = version;
  dependencies = (lit "core", lit "*") ∷ [];
  optional_dependencies = [];
  panels = [];
  data_sources = sources ((lit "s", source interval) ∷ []);
  rest = [];
  dir = [];
  parsed_sources = [];
}

abbrev entry : App → DirEntry
entry app = record {
  name = lit "swap";
  dir = lit "apps/swap";
  is_dir = true;
  manifest = parsed app;
  has_dir = λ p. false;
}

abbrev loaded : App
loaded = record (swap (lit "1.0.0") (lit "2s")) {
  dir = lit "apps/swap";
  parsed_sources =
      record {
        name = lit "s";
        type = lit "file";
        path = lit "p";
        interval = pos 2000000000;
        producer = none;
      }
      ∷ [];
}

abbrev good : Option (List DirEntry)
good = some (entry (swap (lit "1.0.0") (lit "2s")) ∷ [])

missing :
    discover parse good none
    ≡ (loaded ∷ [], record { app_dir = lit "swap"; fault = missing_dependency (lit "core") } ∷ [])
unfolding discover discover_from_dir external_apps visit_entries visit_entry read_entry app_faults
    name_faults version_faults panels_faults parse_sources check_sources check_source check_interval
    matches_name matches_semver digits_then dot_then span_digits all_bytes load_app put_all put
    validate_dependencies missing_dependencies is_installed get int_ltb ◌==◌
missing = refl

refused : discover parse (some (entry (swap (lit "1.0") (lit "1ms")) ∷ [])) none ≡ (
  [],
  record { app_dir = lit "swap"; fault = bad_version }
      ∷ record { app_dir = lit "swap"; fault = short_interval (lit "s") }
      ∷ [],
)
unfolding discover discover_from_dir external_apps visit_entries visit_entry read_entry app_faults
    name_faults version_faults panels_faults parse_sources check_sources check_source check_interval
    matches_name matches_semver digits_then dot_then span_digits all_bytes load_app put_all put
    validate_dependencies missing_dependencies is_installed get int_ltb ◌==◌
refused = refl

discover_iff_example : In loaded (discover parse good none).0 ↔ (
    or_else
      (last_named app_name (external_apps parse none).0 (lit "swap"))
      (last_named app_name (discover_from_dir parse good).0 (lit "swap"))
    ≡ some loaded)
discover_iff_example = discover_iff parse good none loaded

discover-errors_iff_example : ((discover parse good none).1 ≡ []) ↔ (
    ((discover_from_dir parse good).1 ≡ [])
    × ((external_apps parse none).1 ≡ [])
    × AreMet (discover parse good none).0 (discover parse good none).0)
discover-errors_iff_example = discover-errors_iff parse good none

discover_from_dir_iff_example :
    In loaded (discover_from_dir parse good).0
    ↔ ((e : DirEntry) × In e (entry (swap (lit "1.0.0") (lit "2s")) ∷ []) × (IsFrom parse e loaded))
discover_from_dir_iff_example =
    discover_from_dir_iff parse (entry (swap (lit "1.0.0") (lit "2s")) ∷ []) loaded
