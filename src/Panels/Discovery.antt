-- ===== src/Panels/Discovery.antt =====
-- internal/panels/registry.go: `DiscoverPanels` and `loadManifest`. What the directories hold is an
-- argument: the sources with the entries of each one's directory, or none where it cannot be read.
pub mod Registered
mod Tests
use vel.Common.{
  Bool, List, Option, Text, [], false, if◌then◌else◌, map, none, not, some, true, ◌&&◌, ◌++◌, ◌==◌,
  ◌∷◌,
}
use vel.Security.{clean}
use vel.Panels.{PanelInfo, PanelManifest, SchemaError, validate_manifest_schema}

pub data ManifestFile : Type 0 where
  missing_file invalid_json : ManifestFile
  parsed : PanelManifest → ManifestFile

-- An entry of a panels directory; `has_ui` is false where `ui.js` does not exist.
pub record Entry : Type 0 where
  pub name : Text
  pub is_dir : Bool
  pub file : ManifestFile
  pub has_ui : Bool

pub record Source : Type 0 where
  pub dir : Text
  pub source : Text
  pub entries : Option (List Entry)

pub data ManifestError : Type 0 where
  manifest_not_found manifest_not_json ui_not_found : ManifestError
  schema : SchemaError → ManifestError
  id_mismatch : Text → ManifestError

-- The checks made once the manifest is parsed.
unfoldable pub manifest_errors : Entry → PanelManifest → List ManifestError
manifest_errors e m =
    map schema (validate_manifest_schema m)
    ++ ((if not (m.id == []) && not (m.id == e.name) then id_mismatch m.id ∷ [] else [])
        ++ (if e.has_ui then [] else ui_not_found ∷ []))

unfoldable pub load_file : Entry → ManifestFile → Option PanelManifest × List ManifestError
load_file e missing_file = (none, manifest_not_found ∷ [])
load_file e invalid_json = (none, manifest_not_json ∷ [])
load_file e (parsed m) = (some m, manifest_errors e m)

unfoldable pub load_manifest : Entry → Option PanelManifest × List ManifestError
load_manifest e = load_file e e.file

-- The map from a folder name to its panel.
abbrev pub Registry : Type 0
Registry = Text → Option PanelInfo

unfoldable pub set_panel : Registry → Text → PanelInfo → Registry
set_panel r id info other = if other == id then some info else r other

-- The ids and the sources of what was loaded, failed and skipped.
pub record Report : Type 0 where
  pub loaded : List (Text × Text × Text)
  pub failed : List (Text × Text × List ManifestError)
  pub skipped : List (Text × Text)

abbrev pub Found : Type 0
Found = Registry × Report

abbrev pub fail : Found → Text → Text → List ManifestError → Found
fail (r, p) id source errors = (r, record p { failed = p.failed ++ (id, source, errors) ∷ [] })

abbrev pub is_empty : List ManifestError → Bool
is_empty [] = true
is_empty (e ∷ es) = false

-- The end of a round: a manifest with errors but no contract version is loaded as legacy.
unfoldable pub load_panel : Text → Text → Found → Entry → PanelManifest → List ManifestError → Found
load_panel dir source (r, p) e m errors = (
  set_panel r e.name
      (record { manifest = m; path = clean (dir ++ b'/' ∷ e.name); source = source }),
  record p {
    skipped = if is_empty errors then p.skipped else p.skipped ++ (e.name, source) ∷ [];
    loaded = p.loaded ++ (e.name, source, m.version) ∷ [];
  },
)

unfoldable pub visit_manifest :
    Text → Text → Found → Entry → Option PanelManifest × List ManifestError → Found
visit_manifest dir source f e (none, errors) = fail f e.name source errors
visit_manifest dir source f e (some m, errors) =
    if not (is_empty errors) && not (m.contract_version == [])
    then fail f e.name source errors
    else load_panel dir source f e m errors

-- One round of the inner loop.
unfoldable pub visit_entry : Text → Text → Found → Entry → Found
visit_entry dir source f e =
    if not e.is_dir then f else visit_manifest dir source f e (load_manifest e)

unfoldable pub visit_entries : Text → Text → Found → List Entry → Found
visit_entries dir source f [] = f
visit_entries dir source f (e ∷ es) = visit_entries dir source (visit_entry dir source f e) es

-- One round of the outer loop; a directory that cannot be read is passed over.
unfoldable pub visit_source : Text → Text → Found → Option (List Entry) → Found
visit_source dir source f none = f
visit_source dir source f (some es) = visit_entries dir source f es

unfoldable pub visit_sources : Found → List Source → Found
visit_sources f [] = f
visit_sources f (s ∷ ss) = visit_sources (visit_source s.dir s.source f s.entries) ss

-- `DiscoverPanels` from the loop over its sources on.
unfoldable pub discover_panels : List Source → Found
discover_panels sources =
    visit_sources ((λ id. none), record { loaded = []; failed = []; skipped = [] }) sources
