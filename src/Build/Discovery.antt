-- ===== src/Build/Discovery.antt =====
-- internal/build/build.go: `discoverApps`, `discoverAppsFromDir` and `generateAppImports`. What the
-- directories hold is an argument.
pub mod Found
use vel.Common.{
  Bool, List, Option, Text, [], any, contains, false, has_suffix, if◌then◌else◌, lit, none, not,
  some, true, ◌&&◌, ◌++◌, ◌||◌, ◌∷◌,
}
use vel.Std.NameMap.{put_all, values}
use vel.Build.{AppBuildInfo, AppManifest, is_in}

pub data ManifestFile : Type 0 where
  unreadable not_json : ManifestFile
  parsed : AppManifest → ManifestFile

-- An entry of a directory of apps. `is_dir` is what `os.Stat` says of it after its links; the lists
-- are what the three patterns `*.go`, `server/*.go` and `**/*.go` match.
pub record DirEntry : Type 0 where
  pub name : Text
  pub dir : Text
  pub is_dir : Bool
  pub root_files : List Text
  pub server_files : List Text
  pub sub_files : List Text
  pub manifest : ManifestFile

pub data Listing : Type 0 where
  not_exist listing_fails : Listing
  listed : List DirEntry → Listing

pub data DiscoverError : Type 0 where
  cannot_list : DiscoverError
  cannot_read_manifest invalid_manifest : Text → DiscoverError

pub data Discovered : Type 0 where
  failed : DiscoverError → Discovered
  found : List AppBuildInfo → Discovered

-- The loop that leaves out tests and repetitions; `seen` holds what the result holds.
unfoldable pub unique_files : List Text → List Text → List Text
unique_files seen [] = seen
unique_files seen (f ∷ fs) =
    unique_files
      (if not (is_in seen f) && not (has_suffix f (lit "_test.go")) then seen ++ f ∷ [] else seen)
      fs

abbrev pub all_files : DirEntry → List Text
all_files e = (e.root_files ++ e.server_files) ++ e.sub_files

abbrev pub is_empty : List Text → Bool
is_empty [] = true
is_empty (x ∷ xs) = false

abbrev pub build_info : DirEntry → List Text → AppManifest → AppBuildInfo
build_info e files m = record {
  name = m.name;
  dir = e.dir;
  go_files = files;
  manifest = m;
  has_server = not (is_empty e.server_files);
}

unfoldable pub read_manifest : DirEntry → List Text → List AppBuildInfo → ManifestFile → Discovered
read_manifest e files apps unreadable = failed (cannot_read_manifest e.name)
read_manifest e files apps not_json = failed (invalid_manifest e.name)
read_manifest e files apps (parsed m) = found (apps ++ build_info e files m ∷ [])

-- One round: an entry that is no directory or has no code is passed over.
unfoldable pub visit_entry : List AppBuildInfo → DirEntry → Discovered
visit_entry apps e =
    let files = unique_files [] (all_files e) in
    if not e.is_dir || is_empty files then found apps else read_manifest e files apps e.manifest

unfoldable pub visit_entries : List AppBuildInfo → List DirEntry → Discovered
visit_entries apps [] = found apps
visit_entries apps (e ∷ es) = elim (visit_entry apps e) [
  | failed err ↦ failed err
  | found apps' ↦ visit_entries apps' es
]

unfoldable pub discover_apps_from_dir : Listing → Discovered
discover_apps_from_dir not_exist = found []
discover_apps_from_dir listing_fails = failed cannot_list
discover_apps_from_dir (listed es) = visit_entries [] es

abbrev pub app_name : AppBuildInfo → Text
app_name app = app.name

-- The second directory is that of `VEL_APPS`, where the variable is set.
unfoldable pub discover_external : List (Text × AppBuildInfo) → Option Listing → Discovered
discover_external by_name none = found (values by_name)
discover_external by_name (some external) = elim (discover_apps_from_dir external) [
  | failed err ↦ failed err
  | found apps ↦ found (values (put_all app_name by_name apps))
]

unfoldable pub discover_apps : Listing → Option Listing → Discovered
discover_apps internal external = elim (discover_apps_from_dir internal) [
  | failed err ↦ failed err
  | found apps ↦ discover_external (put_all app_name [] apps) external
]

-- `generateAppImports`; `relative` is `filepath.Rel`.
module _ (relative : Text → Text → Text) where
  unfoldable pub has_root_go : AppBuildInfo → Bool
  has_root_go app = any (λ f. not (contains (relative app.dir f) (lit "/"))) app.go_files

  unfoldable pub import_lines : AppBuildInfo → Text
  import_lines app =
      (if has_root_go app then lit "\t_ \"vel/apps/" ++ (app.name ++ lit "\"\n") else [])
      ++ (if app.has_server then lit "\t_ \"vel/apps/" ++ (app.name ++ lit "/server\"\n") else [])

  unfoldable pub app_imports : List AppBuildInfo → Text
  app_imports [] = []
  app_imports (app ∷ apps) = import_lines app ++ app_imports apps

  unfoldable pub generate_app_imports : List AppBuildInfo → Text
  generate_app_imports apps =
      lit "// Code generated by vel build. DO NOT EDIT.\n"
      ++ (lit "package main\n\n" ++ (lit "import (\n" ++ (app_imports apps ++ lit ")\n")))
