-- ===== src/Build/Tests.antt =====
-- Runs of the scan and of the discovery of the build.
use vel.Common.{
  In, List, Option, Text, [], contains, false, has_prefix, has_suffix, lit, map, refl, some, true,
  ◌++◌, ◌==◌, ◌↔◌, ◌∷◌, ◌≡◌,
}
use vel.Std.Values.{split}
use vel.Std.NameMap.{put, put_all, last_named, or_else}
use vel.Build.{
  quote, AppBuildInfo, AppManifest, ImportSpec, Options, Reason, SiteConfig, Violation,
  admits_dependency, blacklisted_packages, blacklisted_package, undeclared_capability,
  undeclared_dependency, depends_on, has_capability_for_import, has_third_party_capability,
  import_path, is_standard, scan_app_imports, scan_apps, scan_files, scan_import, scan_imports,
  site_allows, tier1_packages, tier2_categories, trim_left, trim_right, unlocks, Scan,
}
use vel.Build.Policy.{AppsArePermitted, scan_app_imports_iff}
use vel.Build.Discovery.{
  DirEntry, app_name, discover_apps, discover_apps_from_dir, discover_external, found,
  generate_app_imports, app_imports, import_lines, has_root_go, listed, parsed, read_manifest,
  unique_files, visit_entries, visit_entry,
}
use vel.Build.Discovery.Found.{discover_apps_iff}

abbrev manifest : Text → List Text → AppManifest
manifest name caps = record {
  name = name;
  version = lit "1.0.0";
  capabilities = some (map (λ c. (c, lit "true")) caps);
}

abbrev swap : AppBuildInfo
swap = record {
  name = lit "swap";
  dir = lit "apps/swap";
  go_files = lit "apps/swap/a.go" ∷ [];
  manifest = manifest (lit "swap") (lit "net" ∷ lit "x.org/q" ∷ []);
  has_server = true;
}

abbrev import : Text → ImportSpec
import path = record { value = quote ∷ (path ++ quote ∷ []); line = 3 }

abbrev parse : List Text → Text → Option (List ImportSpec)
parse paths f = some (map import paths)

abbrev relative : Text → Text → Text
relative from to = to

abbrev no_site : SiteConfig
no_site = record { block = []; apps = [] }

abbrev strict : Options
strict = record { root_dir = []; strict = true }

abbrev bypass : Options
bypass = record { root_dir = []; strict = false }

abbrev clean_imports : List Text
clean_imports = lit "fmt" ∷ lit "net/http" ∷ lit "x.org/q/r" ∷ []

abbrev bad_imports : List Text
bad_imports = lit "os/exec" ∷ lit "os" ∷ lit "y.org/z" ∷ []

clean_scan :
    scan_app_imports relative (parse clean_imports) (swap ∷ []) strict no_site
    ≡ some ([], lit "net/http" ∷ [])
unfolding scan_app_imports scan_apps scan_files scan_imports scan_import import_path trim_left
    trim_right tier1_packages blacklisted_packages tier2_categories is_standard
    has_capability_for_import unlocks has_third_party_capability depends_on admits_dependency
    site_allows split contains has_prefix ◌==◌
clean_scan = refl

abbrev violation : Text → Reason → Violation
violation path reason = record {
  app = lit "swap";
  file = lit "apps/swap/a.go";
  line = 3;
  path = path;
  reason = reason;
}

bad_scan :
    scan_app_imports relative (parse bad_imports) (swap ∷ []) strict no_site
    ≡ some (
      violation (lit "os/exec") blacklisted_package
          ∷ violation (lit "os") undeclared_capability
          ∷ violation (lit "y.org/z") undeclared_dependency
          ∷ [],
      lit "os" ∷ [],
    )
unfolding scan_app_imports scan_apps scan_files scan_imports scan_import import_path trim_left
    trim_right tier1_packages blacklisted_packages tier2_categories is_standard
    has_capability_for_import unlocks has_third_party_capability depends_on admits_dependency
    site_allows split contains has_prefix ◌==◌
bad_scan = refl

bypass_scan :
    scan_app_imports relative (parse bad_imports) (swap ∷ []) bypass no_site
    ≡ some (violation (lit "os/exec") blacklisted_package ∷ [], lit "os" ∷ [])
unfolding scan_app_imports scan_apps scan_files scan_imports scan_import import_path trim_left
    trim_right tier1_packages blacklisted_packages tier2_categories is_standard
    has_capability_for_import unlocks has_third_party_capability depends_on admits_dependency
    site_allows split contains has_prefix ◌==◌
bypass_scan = refl

scan_app_imports_iff_example :
    (end : Scan) × (scan_app_imports relative (parse clean_imports) (swap ∷ []) strict no_site
      ≡ some end)
    × ((end.0 ≡ []) ↔ AppsArePermitted (parse clean_imports) true no_site (swap ∷ []))
scan_app_imports_iff_example =
    scan_app_imports_iff relative (parse clean_imports) (swap ∷ []) strict no_site
      (((map import clean_imports, refl), tt), tt)

abbrev entry : Text → DirEntry
entry dir = record {
  name = lit "swap";
  dir = dir;
  is_dir = true;
  root_files = lit "a.go" ∷ lit "a_test.go" ∷ [];
  server_files = lit "server/b.go" ∷ [];
  sub_files = lit "server/b.go" ∷ [];
  manifest = parsed (manifest (lit "swap") []);
}

abbrev built : Text → AppBuildInfo
built dir = record {
  name = lit "swap";
  dir = dir;
  go_files = lit "a.go" ∷ lit "server/b.go" ∷ [];
  manifest = manifest (lit "swap") [];
  has_server = true;
}

read_dir : (dir : Text) → discover_apps_from_dir (listed (entry dir ∷ [])) ≡ found (built dir ∷ [])
unfolding discover_apps_from_dir visit_entries visit_entry read_manifest unique_files has_suffix
    has_prefix ◌==◌
read_dir dir = refl

both_dirs :
    discover_apps (listed (entry (lit "in") ∷ [])) (some (listed (entry (lit "out") ∷ [])))
    ≡ found (built (lit "out") ∷ [])
unfolding discover_apps discover_external discover_apps_from_dir visit_entries visit_entry
    read_manifest unique_files has_suffix has_prefix put_all put ◌==◌
both_dirs = refl

imports_file :
    generate_app_imports (λ base f. f) (built (lit "in") ∷ [])
    ≡ lit
        "// Code generated by vel build. DO NOT EDIT.\npackage main\n\nimport (\n\t_ \"vel/apps/swap\"\n\t_ \"vel/apps/swap/server\"\n)\n"
unfolding generate_app_imports app_imports import_lines has_root_go contains has_prefix
imports_file = refl

discover_apps_iff_example : In (built (lit "out")) (built (lit "out") ∷ []) ↔ (
    or_else
      (last_named app_name (built (lit "out") ∷ []) (lit "swap"))
      (last_named app_name (built (lit "in") ∷ []) (lit "swap"))
    ≡ some (built (lit "out")))
discover_apps_iff_example =
    discover_apps_iff (listed (entry (lit "in") ∷ [])) (listed (entry (lit "out") ∷ []))
      (built (lit "out") ∷ []) (built (lit "in") ∷ []) (built (lit "out") ∷ []) (built (lit "out"))
      (read_dir (lit "in")) (read_dir (lit "out")) both_dirs
