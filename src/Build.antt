-- ===== src/Build.antt =====
-- internal/build/build.go: which imports an app may use, and `scanAppImports`. What the Go parser
-- reads from a file is an argument: the imports of the file, or none where it does not parse.
pub mod Imports
pub mod Policy
pub mod Discovery
mod Tests
use vel.Common.{
  Bool, List, Option, Text, [], any, contains, eqb, false, find_first, has_prefix, if◌then◌else◌,
  lit, map, none, not, some, ℕ, ◌&&◌, ◌++◌, ◌==◌, ◌||◌, ◌∷◌,
}
use vel.Std.Values.{split}

unfoldable pub tier1_packages : List Text
tier1_packages = map lit (
    "fmt" ∷ "strings" ∷ "strconv" ∷ "math" ∷ "math/big" ∷ "time" ∷ "sort" ∷ "errors" ∷ "unicode"
    ∷ "unicode/utf8" ∷ "bytes" ∷ "context" ∷ "sync" ∷ "maps" ∷ "slices" ∷ "cmp" ∷ "log" ∷ "hash"
    ∷ "path" ∷ "regexp" ∷ "encoding/json" ∷ "encoding/xml" ∷ "encoding/csv" ∷ "encoding/base64"
    ∷ "encoding/hex" ∷ "crypto/sha256" ∷ "crypto/sha512" ∷ "crypto/md5" ∷ "crypto/hmac"
    ∷ "crypto/rand" ∷ "vel/pkg/vel" ∷ "vel/pkg/agent" ∷ [])

unfoldable pub blacklisted_packages : List Text
blacklisted_packages =
    map lit ("os/exec" ∷ "syscall" ∷ "unsafe" ∷ "plugin" ∷ "reflect" ∷ "runtime/debug" ∷ [])

-- The capabilities with the packages that they unlock.
unfoldable pub tier2_categories : List (Text × List Text)
tier2_categories =
    (lit "read", map lit ("os" ∷ "io" ∷ "path/filepath" ∷ "bufio" ∷ []))
    ∷ (lit "write", map lit ("os" ∷ "io" ∷ "path/filepath" ∷ "bufio" ∷ []))
    ∷ (lit "net", map lit ("net" ∷ "net/http" ∷ "net/url" ∷ []))
    ∷ (lit "env", map lit ("os" ∷ []))
    ∷ (lit "db", map lit ("database/sql" ∷ []))
    ∷ []

-- `capabilities` is none where `app.json` has none; the values are raw JSON.
pub record AppManifest : Type 0 where
  pub name : Text
  pub version : Text
  pub capabilities : Option (List (Text × Text))

pub record AppBuildInfo : Type 0 where
  pub name : Text
  pub dir : Text
  pub go_files : List Text
  pub manifest : AppManifest
  pub has_server : Bool

pub data Reason : Type 0 where
  blacklisted_package undeclared_capability undeclared_dependency : Reason

pub record Violation : Type 0 where
  pub app : Text
  pub file : Text
  pub line : ℕ
  pub path : Text
  pub reason : Reason

-- `SiteConfig`: the allowed imports of each app. The blocked functions are read into a set that
-- nothing uses.
pub record SiteConfig : Type 0 where
  pub block : List Text
  pub apps : List (Text × List Text)

-- What `scanAppImports` reads of the options: the mode is strict or not.
pub record Options : Type 0 where
  pub root_dir : Text
  pub strict : Bool

-- An import of a file: the literal with its quotes, and its line.
pub record ImportSpec : Type 0 where
  pub value : Text
  pub line : ℕ

-- `strings.Trim` for a single byte.
unfoldable pub trim_left : ℕ → Text → Text
trim_left b [] = []
trim_left b (c ∷ s) = let rest = trim_left b s in if eqb c b then rest else c ∷ s

unfoldable pub trim_right : ℕ → Text → Text
trim_right b [] = []
trim_right b (c ∷ s) = let rest = trim_right b s in if eqb c b && rest == [] then [] else c ∷ rest

-- The double quote.
abbrev pub quote : ℕ
quote = 34

unfoldable pub import_path : ImportSpec → Text
import_path imp = trim_right quote (trim_left quote imp.value)

abbrev pub is_in : List Text → Text → Bool
is_in xs x = any (λ y. y == x) xs

abbrev pub is_or_below : Text → Text → Bool
is_or_below path pkg = path == pkg || has_prefix path (pkg ++ b'/' ∷ [])

abbrev pub keys : List (Text × Text) → List Text
keys = map (λ (k, v). k)

abbrev pub Capabilities : Type 0
Capabilities = Option (List (Text × Text))

unfoldable pub unlocks : Capabilities → Text → Bool
unlocks none path = false
unlocks (some caps) path =
    any (λ (cap, pkgs). any (λ pkg. is_or_below path pkg && is_in (keys caps) cap) pkgs)
      tier2_categories

unfoldable pub has_capability_for_import : AppManifest → Text → Bool
has_capability_for_import manifest path = unlocks manifest.capabilities path

unfoldable pub admits_dependency : Text → Text → Bool
admits_dependency path cap = contains cap (lit ".") && (is_or_below path cap || has_prefix path cap)

unfoldable pub depends_on : Capabilities → Text → Bool
depends_on none path = false
depends_on (some caps) path = any (admits_dependency path) (keys caps)

unfoldable pub has_third_party_capability : AppManifest → Text → Bool
has_third_party_capability manifest path = depends_on manifest.capabilities path

abbrev pub first_part : List Text → Text
first_part [] = []
first_part (p ∷ ps) = p

-- No dot in the first segment.
unfoldable pub is_standard : Text → Bool
is_standard path = not (contains (first_part (split b'/' path)) (lit "."))

-- The allows of vel.yaml for an app.
unfoldable pub site_allows : SiteConfig → Text → List Text
site_allows cfg app = elim (find_first (λ (name, allow). name == app) cfg.apps) [
  | none ↦ []
  | some (name, allow) ↦ allow
]

-- The violations, and the imports of tier 2 as a set.
abbrev pub Scan : Type 0
Scan = List Violation × List Text

abbrev pub add_to : List Text → Text → List Text
add_to xs x = if is_in xs x then xs else xs ++ x ∷ []

abbrev pub report : Scan → Violation → Scan
report (vs, tier2) v = (vs ++ v ∷ [], tier2)

-- `relative` is `filepath.Rel`, which only the report of a violation calls.
module _ (relative : Text → Text → Text) (parse_imports : Text → Option (List ImportSpec)) where
  -- The body of the innermost loop.
  unfoldable pub scan_import : Options → List Text → AppBuildInfo → Text → Scan → ImportSpec → Scan
  scan_import opts allows app go_file (vs, tier2) imp =
      let path = import_path imp in
      let violation : Reason → Violation = λ reason. record {
        app = app.name;
        file = relative opts.root_dir go_file;
        line = imp.line;
        path = path;
        reason = reason;
      } in
      if is_in tier1_packages path
      then (vs, tier2)
      else if is_in blacklisted_packages path
      then report (vs, tier2) (violation blacklisted_package)
      else if is_standard path
      then (if not (has_capability_for_import app.manifest path)
            && not (is_in allows path)
            && opts.strict
          then report (vs, add_to tier2 path) (violation undeclared_capability)
          else (vs, add_to tier2 path))
      else if not (has_third_party_capability app.manifest path) && opts.strict
      then report (vs, tier2) (violation undeclared_dependency)
      else (vs, tier2)

  unfoldable pub scan_imports :
      Options → List Text → AppBuildInfo → Text → Scan → List ImportSpec → Scan
  scan_imports opts allows app go_file scan [] = scan
  scan_imports opts allows app go_file scan (imp ∷ imps) =
      scan_imports opts allows app go_file (scan_import opts allows app go_file scan imp) imps

  -- `none` is the error of a file that does not parse.
  unfoldable pub scan_files : Options → List Text → AppBuildInfo → Scan → List Text → Option Scan
  scan_files opts allows app scan [] = some scan
  scan_files opts allows app scan (f ∷ fs) = elim (parse_imports f) [
    | none ↦ none
    | some imps ↦ scan_files opts allows app (scan_imports opts allows app f scan imps) fs
  ]

  unfoldable pub scan_apps : Options → SiteConfig → Scan → List AppBuildInfo → Option Scan
  scan_apps opts cfg scan [] = some scan
  scan_apps opts cfg scan (app ∷ apps) =
      elim (scan_files opts (site_allows cfg app.name) app scan app.go_files) [
        | none ↦ none
        | some scan' ↦ scan_apps opts cfg scan' apps
      ]

  unfoldable pub scan_app_imports : List AppBuildInfo → Options → SiteConfig → Option Scan
  scan_app_imports apps opts cfg = scan_apps opts cfg ([], []) apps
