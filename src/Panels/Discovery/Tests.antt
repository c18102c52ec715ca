-- ===== src/Panels/Discovery/Tests.antt =====
-- Runs of the discovery of panels.
use vel.Common.{
  Text, [], false, has_prefix, int_ltb, lit, none, pos, refl, some, true, ◌==◌, ◌∷◌, ◌≡◌,
}
use vel.Panels.{PanelInfo, PanelManifest, missing_fields, validate_manifest_schema}
use vel.Panels.Discovery.{
  Entry, ManifestFile, Source, discover_panels, invalid_json, load_file, load_manifest, load_panel,
  manifest_errors, manifest_not_json, parsed, set_panel, visit_entries, visit_entry, visit_manifest,
  visit_source, visit_sources,
}
use vel.Security.{clean, clean_parts, push, push_all}
use vel.Std.Values.{join, split}
use vel.Panels.Discovery.Registered.{IsChecked, discover_panels-IsChecked}

abbrev manifest : Text → Text → PanelManifest
manifest id version = record {
  id = id;
  contract_version = version;
  name = lit "n";
  description = lit "d";
  version = lit "1";
  author = lit "a";
  position = pos 1;
  size = lit "half";
  refresh_ms = pos 2000;
  requires = [];
  capabilities = [];
  data_schema = [];
  rate_limit = none;
  config = [];
  data_envelope = false;
  data_source = [];
}

abbrev folder : Text → ManifestFile → Entry
folder name file = record { name = name; is_dir = true; file = file; has_ui = true }

-- A panel, a legacy panel and a file that is not JSON.
abbrev core : Source
core = record {
  dir = lit "core";
  source = lit "core";
  entries = some (
      folder (lit "cpu") (parsed (manifest (lit "cpu") (lit "1.0")))
      ∷ folder (lit "old") (parsed (manifest (lit "old") []))
      ∷ folder (lit "bad") invalid_json
      ∷ []);
}

abbrev cpu : PanelInfo
cpu = record {
  manifest = manifest (lit "cpu") (lit "1.0");
  path = lit "core/cpu";
  source = lit "core";
}

reported : (discover_panels (core ∷ [])).1 ≡ record {
  loaded = (lit "cpu", lit "core", lit "1") ∷ (lit "old", lit "core", lit "1") ∷ [];
  failed = (lit "bad", lit "core", manifest_not_json ∷ []) ∷ [];
  skipped = (lit "old", lit "core") ∷ [];
}
unfolding discover_panels visit_sources visit_source visit_entries visit_entry visit_manifest
    load_manifest load_file load_panel manifest_errors validate_manifest_schema missing_fields
    int_ltb ◌==◌
reported = refl

found : (discover_panels (core ∷ [])).0 (lit "cpu") ≡ some cpu
unfolding discover_panels visit_sources visit_source visit_entries visit_entry visit_manifest
    load_manifest load_file load_panel manifest_errors validate_manifest_schema missing_fields
    int_ltb ◌==◌ set_panel clean has_prefix join clean_parts push_all split push
found = refl

discover_panels-IsChecked_example : IsChecked (lit "cpu") cpu.manifest
discover_panels-IsChecked_example = discover_panels-IsChecked (core ∷ []) (lit "cpu") cpu found
