-- ===== src/Apps.antt =====
-- internal/apps/apps.go: `Discover`, `discoverFromDir` and `validateDependencies`. What the
-- directories hold is an argument, and so is `time.ParseDuration`.
pub mod Patterns
pub mod Valid
pub mod Installed
mod Tests
use vel.Common.{
  Bool, List, Option, Text, [], eqb, false, if◌then◌else◌, int_ltb, leb, lit, map, none, not, pos,
  some, true, ℕ, ℤ, ◌&&◌, ◌++◌, ◌==◌, ◌||◌, ◌∷◌,
}
use vel.Std.NameMap.{get, put_all, values}

-- A data source as `app.json` states it; a producer travels along in `producer`.
pub record FileDataSource : Type 0 where
  pub type : Text
  pub path : Text
  pub interval : Text
  pub producer : Option (Text × Text)

-- `interval` is in nanoseconds.
pub record ParsedDataSource : Type 0 where
  pub name : Text
  pub type : Text
  pub path : Text
  pub interval : ℤ
  pub producer : Option (Text × Text)

-- `data_sources`: left out, no object of sources, or the sources by name.
pub data DataSources : Type 0 where
  no_sources bad_sources : DataSources
  sources : List (Text × FileDataSource) → DataSources

-- Of an app, the fields that the discovery reads, and all others in `rest`.
pub record App : Type 0 where
  pub name : Text
  pub version : Text
  pub dependencies : List (Text × Text)
  pub optional_dependencies : List (Text × Text)
  pub panels : Text
  pub data_sources : DataSources
  pub rest : Text
  pub dir : Text
  pub parsed_sources : List ParsedDataSource

-- What is wrong with an app; the messages name the directory or the app.
pub data Fault : Type 0 where
  not_json missing_name bad_name missing_version bad_version panels_not_found bad_data_sources :
      Fault
  unsupported_type missing_path missing_interval invalid_interval short_interval : Text → Fault
  missing_dependency : Text → Fault

pub record AppError : Type 0 where
  pub app_dir : Text
  pub fault : Fault

pub data ManifestFile : Type 0 where
  no_manifest invalid_json : ManifestFile
  parsed : App → ManifestFile

-- An entry of a directory of apps; `has_dir` says which paths below it exist.
pub record DirEntry : Type 0 where
  pub name : Text
  pub dir : Text
  pub is_dir : Bool
  pub manifest : ManifestFile
  pub has_dir : Text → Bool

-- `[a-z0-9]` and `[a-z0-9-]`
abbrev pub is_digit : ℕ → Bool
is_digit c = leb b'0' c && leb c b'9'

abbrev pub is_name_byte : ℕ → Bool
is_name_byte c = (leb b'a' c && leb c b'z') || is_digit c

unfoldable pub all_bytes : (ℕ → Bool) → Text → Bool
all_bytes p [] = true
all_bytes p (c ∷ s) = p c && all_bytes p s

-- `nameRe`, which is `^[a-z0-9][a-z0-9-]*$`.
unfoldable pub matches_name : Text → Bool
matches_name [] = false
matches_name (c ∷ s) = is_name_byte c && all_bytes (λ d. is_name_byte d || eqb d b'-') s

-- The digits at the front, and what follows them.
unfoldable pub span_digits : Text → Text × Text
span_digits [] = ([], [])
span_digits (c ∷ s) =
    let (ds, rest) = span_digits s in if is_digit c then (c ∷ ds, rest) else ([], c ∷ s)

-- `\d+` in front of what `next` matches: the digits are followed by no digit, so all are taken.
unfoldable pub digits_then : (Text → Bool) → Text → Bool
digits_then next s = let (ds, rest) = span_digits s in not (ds == []) && next rest

unfoldable pub dot_then : (Text → Bool) → Text → Bool
dot_then next [] = false
dot_then next (c ∷ s) = eqb c b'.' && next s

-- `semverRe`, which is `^\d+\.\d+\.\d+`.
unfoldable pub matches_semver : Text → Bool
matches_semver = digits_then (dot_then (digits_then (dot_then (digits_then (λ rest. true)))))

abbrev pub check : Bool → Fault → List Fault
check b f = if b then f ∷ [] else []

unfoldable pub name_faults : App → List Fault
name_faults app =
    if app.name == [] then missing_name ∷ [] else check (not (matches_name app.name)) bad_name

unfoldable pub version_faults : App → List Fault
version_faults app =
    if app.version == []
    then missing_version ∷ []
    else check (not (matches_semver app.version)) bad_version

unfoldable pub panels_faults : DirEntry → App → List Fault
panels_faults e app = check (not (app.panels == []) && not (e.has_dir app.panels)) panels_not_found

abbrev pub second : ℤ
second = pos 1000000000

-- The body of the loop over the data sources: a fault or a parsed source.
unfoldable pub check_interval :
    Text → FileDataSource → Option ℤ → List Fault × List ParsedDataSource
check_interval name ds none = (invalid_interval name ∷ [], [])
check_interval name ds (some interval) =
    if int_ltb interval second then (short_interval name ∷ [], []) else (
      [],
      record {
        name = name;
        type = ds.type;
        path = ds.path;
        interval = interval;
        producer = ds.producer;
      }
          ∷ [],
    )

abbrev pub Found : Type 0
Found = List App × List AppError

abbrev pub errors_of : Text → List Fault → List AppError
errors_of dir = map (λ f. record { app_dir = dir; fault = f })

abbrev pub is_empty : List Fault → Bool
is_empty [] = true
is_empty (f ∷ fs) = false

abbrev pub app_name : App → Text
app_name app = app.name

unfoldable pub is_installed : List (Text × App) → Text → Bool
is_installed by_name dep = elim (get by_name dep) [ none ↦ false | some app ↦ true ]

-- Optional dependencies are only logged.
unfoldable pub missing_dependencies : List (Text × App) → Text → List (Text × Text) → List AppError
missing_dependencies by_name app [] = []
missing_dependencies by_name app ((dep, version) ∷ deps) =
    let rest = missing_dependencies by_name app deps in
    if is_installed by_name dep
    then rest
    else record { app_dir = app; fault = missing_dependency dep } ∷ rest

unfoldable pub validate_dependencies : List App → List (Text × App) → List AppError
validate_dependencies [] by_name = []
validate_dependencies (app ∷ apps) by_name =
    missing_dependencies by_name app.name app.dependencies ++ validate_dependencies apps by_name

module _ (parse_duration : Text → Option ℤ) where
  unfoldable pub check_source : Text × FileDataSource → List Fault × List ParsedDataSource
  check_source (name, ds) =
      if not (ds.type == lit "file")
      then (unsupported_type name ∷ [], [])
      else if ds.path == []
      then (missing_path name ∷ [], [])
      else if ds.interval == []
      then (missing_interval name ∷ [], [])
      else check_interval name ds (parse_duration ds.interval)

  unfoldable pub check_sources : List (Text × FileDataSource) → List Fault × List ParsedDataSource
  check_sources [] = ([], [])
  check_sources (s ∷ ss) =
      let (faults, ps) = check_source s in
      let (faults', ps') = check_sources ss in (faults ++ faults', ps ++ ps')

  unfoldable pub parse_sources : DataSources → List Fault × List ParsedDataSource
  parse_sources no_sources = ([], [])
  parse_sources bad_sources = (bad_data_sources ∷ [], [])
  parse_sources (sources ss) = check_sources ss

  unfoldable pub app_faults : DirEntry → App → List Fault
  app_faults e app =
      name_faults app
      ++ (version_faults app ++ (panels_faults e app ++ (parse_sources app.data_sources).0))

  unfoldable pub load_app : DirEntry → App → App
  load_app e app = record app { dir = e.dir; parsed_sources = (parse_sources app.data_sources).1 }

  unfoldable pub read_entry : Found → DirEntry → ManifestFile → Found
  read_entry found e no_manifest = found
  read_entry (apps, errors) e invalid_json = (apps, errors ++ errors_of e.name (not_json ∷ []))
  read_entry (apps, errors) e (parsed app) =
      let faults = app_faults e app in
      if is_empty faults
      then (apps ++ load_app e app ∷ [], errors)
      else (apps, errors ++ errors_of e.name faults)

  unfoldable pub visit_entry : Found → DirEntry → Found
  visit_entry found e = if e.is_dir then read_entry found e e.manifest else found

  unfoldable pub visit_entries : Found → List DirEntry → Found
  visit_entries found [] = found
  visit_entries found (e ∷ es) = visit_entries (visit_entry found e) es

  -- A directory that cannot be read has no apps.
  unfoldable pub discover_from_dir : Option (List DirEntry) → Found
  discover_from_dir none = ([], [])
  discover_from_dir (some es) = visit_entries ([], []) es

  -- `external` is the directory of `VEL_APPS`, where the variable is set.
  unfoldable pub external_apps : Option (Option (List DirEntry)) → Found
  external_apps none = ([], [])
  external_apps (some dir) = discover_from_dir dir

  unfoldable pub discover : Option (List DirEntry) → Option (Option (List DirEntry)) → Found
  discover internal external =
      let (inner, inner_errors) = discover_from_dir internal in
      let (outer, outer_errors) = external_apps external in
      let by_name = put_all app_name (put_all app_name [] inner) outer in
      let apps = values by_name in
      (apps, (inner_errors ++ outer_errors) ++ validate_dependencies apps by_name)
