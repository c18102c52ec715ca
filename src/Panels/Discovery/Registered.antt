-- ===== src/Panels/Discovery/Registered.antt =====
-- What a panel in the registry has passed.
use vel.Common.{
  ==_iff, Bool, Bool-cases, List, Option, Text, [], arith, false, if◌then◌else◌, inl, inr, map,
  none, not, refl, some, subst, sym, true, ◌&&◌, ◌++◌, ◌==◌, ◌∷◌, ◌≡◌, ◌≢◌, ◌⊎◌,
}
use vel.Panels.{PanelInfo, PanelManifest, SchemaError, validate_manifest_schema}
use vel.Panels.Schema.{IsValid, validate_manifest_schema_iff}
use vel.Panels.Discovery.{
  Entry, Found, ManifestError, ManifestFile, invalid_json, load_file, missing_file, parsed,
  visit_manifest, visit_source, Registry, Source, discover_panels, is_empty, load_manifest,
  load_panel, manifest_errors, schema, set_panel, visit_entries, visit_entry, visit_sources,
  id_mismatch, ui_not_found, fail,
}

-- A panel under an id is checked: it states no contract version and is legacy, or its manifest is
-- valid and has the folder's name for its id.
abbrev pub IsChecked : Text → PanelManifest → Type 0
IsChecked id m = (m.contract_version ≡ []) ⊎ (IsValid m × (m.id ≡ id))

abbrev AreChecked : Registry → Type 0
AreChecked r = (id : Text) (info : PanelInfo) → r id ≡ some info → IsChecked id info.manifest

is_empty-map :
    (xs : List SchemaError) (ys : List ManifestError)
    → is_empty (map schema xs ++ ys) ≡ true
    → (xs ≡ []) × (is_empty ys ≡ true)
is_empty-map [] ys h = (refl, h)
is_empty-map (x ∷ xs) ys h = ground arith

name_matches :
    (id name : Text) (has_ui : Bool)
    → (id ≢ [])
    → is_empty (
        (if not (id == []) && not (id == name) then id_mismatch id ∷ [] else [])
        ++ (if has_ui then [] else ui_not_found ∷ []))
      ≡ true
    → id ≡ name
name_matches id name has_ui given h = ground (arith, ==_iff id [], ==_iff id name)

no_errors :
    (e : Entry) (m : PanelManifest)
    → is_empty (manifest_errors e m) ≡ true
    → IsValid m × (m.id ≡ e.name)
unfolding manifest_errors
no_errors e m h =
    let (schema_passes, rest) = is_empty-map (validate_manifest_schema m) _ h in
    let valid = (validate_manifest_schema_iff m).0 schema_passes in
    (valid, name_matches m.id e.name e.has_ui valid.0 rest)

set_panel-AreChecked :
    (r : Registry) (name : Text) (info : PanelInfo)
    → AreChecked r
    → IsChecked name info.manifest
    → AreChecked (set_panel r name info)
unfolding set_panel
set_panel-AreChecked r name info h good id found k = elim (Bool-cases (id == name)) [
  | inl same ↦
      let is_info : info ≡ found = ground arith in
      subst (λ i. IsChecked id i.manifest) is_info
        (subst (λ n. IsChecked n info.manifest) (sym ((==_iff id name).0 same)) good)
  | inr other ↦ h id found (ground arith)
]

if-AreChecked :
    (b : Bool) (f g : Found)
    → ((b ≡ true) → AreChecked f.0)
    → ((b ≡ false) → AreChecked g.0)
    → AreChecked (if b then f else g).0
if-AreChecked true f g h k = h refl
if-AreChecked false f g h k = k refl

loaded-IsChecked :
    (e : Entry) (m : PanelManifest)
    → (not (is_empty (manifest_errors e m)) && not (m.contract_version == [])) ≡ false
    → IsChecked e.name m
loaded-IsChecked e m h = elim (Bool-cases (is_empty (manifest_errors e m))) [
  | inl clean ↦ inr (no_errors e m clean)
  | inr errors ↦ inl (ground (arith, ==_iff m.contract_version []))
]

visit_file-AreChecked :
    (dir source : Text) (f : Found) (e : Entry) (file : ManifestFile)
    → AreChecked f.0
    → AreChecked (visit_manifest dir source f e (load_file e file)).0
unfolding visit_manifest load_panel load_file
visit_file-AreChecked dir source f e missing_file h = h
visit_file-AreChecked dir source f e invalid_json h = h
visit_file-AreChecked dir source f e (parsed m) h =
    if-AreChecked (not (is_empty (manifest_errors e m)) && not (m.contract_version == []))
      (fail f e.name source (manifest_errors e m))
      (load_panel dir source f e m (manifest_errors e m)) (λ failed. h)
      (λ passed. set_panel-AreChecked f.0 e.name _ h (loaded-IsChecked e m passed))

visit_entry-AreChecked :
    (dir source : Text) (f : Found) (e : Entry)
    → AreChecked f.0
    → AreChecked (visit_entry dir source f e).0
unfolding visit_entry load_manifest
visit_entry-AreChecked dir source f e h =
    if-AreChecked (not e.is_dir) f (visit_manifest dir source f e (load_manifest e)) (λ k. h)
      (λ k. visit_file-AreChecked dir source f e e.file h)

visit_entries-AreChecked :
    (dir source : Text) (f : Found) (es : List Entry)
    → AreChecked f.0
    → AreChecked (visit_entries dir source f es).0
unfolding visit_entries
visit_entries-AreChecked dir source f [] h = h
visit_entries-AreChecked dir source f (e ∷ es) h =
    visit_entries-AreChecked dir source (visit_entry dir source f e) es
      (visit_entry-AreChecked dir source f e h)

visit_source-AreChecked :
    (dir source : Text) (f : Found) (es : Option (List Entry))
    → AreChecked f.0
    → AreChecked (visit_source dir source f es).0
unfolding visit_source
visit_source-AreChecked dir source f none h = h
visit_source-AreChecked dir source f (some es) h = visit_entries-AreChecked dir source f es h

visit_sources-AreChecked :
    (f : Found) (ss : List Source) → AreChecked f.0 → AreChecked (visit_sources f ss).0
unfolding visit_sources
visit_sources-AreChecked f [] h = h
visit_sources-AreChecked f (s ∷ ss) h =
    visit_sources-AreChecked (visit_source s.dir s.source f s.entries) ss
      (visit_source-AreChecked s.dir s.source f s.entries h)

-- A panel that discovery registers states no contract version, or its manifest is valid and names
-- the folder it was found in.
pub discover_panels-IsChecked :
    (sources : List Source) (id : Text) (info : PanelInfo)
    → (discover_panels sources).0 id ≡ some info
    → IsChecked id info.manifest
unfolding discover_panels
discover_panels-IsChecked sources id info h =
    visit_sources-AreChecked ((λ id. none), record { loaded = []; failed = []; skipped = [] })
      sources (λ n i k. absurd (ground arith)) id info h
