-- ===== src/Apps/Valid.antt =====
-- Which directories give an app.
use vel.Common.{
  ==_iff, All, Bool, Bool-cases, In, In-append, List, Option, Text, [], ap, append-nil_iff, arith,
  false, if◌then◌else◌, inl, inr, int_ltb, lit, none, not, refl, some, subst, true, ℤ, ◌==◌, ◌↔◌,
  ◌∙◌, ◌∷◌, ◌≡◌, ◌≢◌, ◌⊎◌,
}
use vel.Apps.{
  App, check, bad_name, bad_version, DataSources, DirEntry, FileDataSource, app_faults, bad_sources,
  check_interval, check_source, check_sources, name_faults, no_sources, parse_sources, second,
  sources, panels_faults, version_faults, Fault, Found, ManifestFile, invalid_json, is_empty,
  load_app, matches_name, matches_semver, no_manifest, parsed, read_entry, discover_from_dir,
  visit_entries, visit_entry,
}
use vel.Apps.Patterns.{IsAppName, IsVersion, matches_name_iff, matches_semver_iff}

abbrev pub LastsASecond : Option ℤ → Type 0
LastsASecond none = ⊥
LastsASecond (some d) = int_ltb d second ≡ false

iff_trans : {A B C : Type 0} → (A ↔ B) → (B ↔ C) → A ↔ C
iff_trans f g = ((λ a. g.0 (f.0 a)), (λ c. f.1 (g.1 c)))

both_iff : {A B P Q : Type 0} → (A ↔ P) → (B ↔ Q) → (A × B) ↔ (P × Q)
both_iff f g = ((λ h. (f.0 h.0, g.0 h.1)), (λ h. (f.1 h.0, g.1 h.1)))

check_iff : {P : Type 0} (b : Bool) (f : Fault) → ((b ≡ true) ↔ P) → (check (not b) f ≡ []) ↔ P
check_iff true f h = ((λ e. h.0 refl), (λ p. refl))
check_iff false f h = ((λ e. absurd (ground arith)), (λ p. absurd (ground (arith, h.1 p))))

if_iff :
    {Q : Type 0} (b : Bool) (x y : Found) (app : App)
    → (In app x.0 ↔ (In app y.0 ⊎ Q))
    → In app (if b then x else y).0 ↔ (In app y.0 ⊎ ((b ≡ true) × Q))
if_iff true x y app h = (
  λ i. elim (h.0 i) [ inl j ↦ inl j | inr q ↦ inr (refl, q) ],
  λ k. h.1 (elim k [ inl j ↦ inl j | inr q ↦ inr q.1 ]),
)
if_iff false x y app h = (inl, λ k. elim k [ inl j ↦ j | inr q ↦ absurd (ground arith) ])

nameless_app : (s : Text) → s ≡ [] → ¬ IsAppName s
nameless_app [] e h = h
nameless_app (c ∷ s) e h = ground arith

versionless_app : (s : Text) → s ≡ [] → ¬ IsVersion s
versionless_app s e ([], b, c, t, num_a, num_b, num_c, k) = num_a.0 refl
versionless_app s e (d ∷ a, b, c, t, num_a, num_b, num_c, k) = ground arith

module _ (parse_duration : Text → Option ℤ) where
  -- A data source of the type `file` with a path and an interval of at least a second.
  abbrev pub IsSource : Text × FileDataSource → Type 0
  IsSource (name, ds) =
      (ds.type ≡ lit "file")
      × (ds.path ≢ [])
      × (ds.interval ≢ [])
      × LastsASecond (parse_duration ds.interval)

  abbrev pub AreSources : DataSources → Type 0
  AreSources no_sources = Unit {0}
  AreSources bad_sources = ⊥
  AreSources (sources ss) = All IsSource ss

  -- What an app needs to be taken: a name, a version, the directory of its panels if it states one,
  -- and data sources that can be polled.
  abbrev pub IsValid : DirEntry → App → Type 0
  IsValid e app =
      IsAppName app.name
      × (IsVersion app.version
          × (((app.panels ≡ []) ⊎ (e.has_dir app.panels ≡ true)) × AreSources app.data_sources))

  check_interval_iff :
      (name : Text) (ds : FileDataSource) (o : Option ℤ)
      → ((check_interval name ds o).0 ≡ []) ↔ LastsASecond o
  unfolding check_interval
  check_interval_iff name ds none = ground arith
  check_interval_iff name ds (some d) = ground arith

  check_source_iff :
      (s : Text × FileDataSource) → ((check_source parse_duration s).0 ≡ []) ↔ IsSource s
  unfolding check_source
  check_source_iff (name, ds) =
      let (long, enough) = check_interval_iff name ds (parse_duration ds.interval) in
      let type = ==_iff ds.type (lit "file") in
      elim (Bool-cases (ds.type == lit "file")) [
        | inr other ↦ rw other (λ h. absurd (ground arith), λ h. absurd (ground arith))
        | inl file ↦ elim (Bool-cases (ds.path == [])) [
          | inl no_path ↦
              rw (file, no_path)
                (λ h. absurd (ground arith), λ h. absurd (ground (arith, ==_iff ds.path [])))
          | inr path ↦ elim (Bool-cases (ds.interval == [])) [
            | inl no_interval ↦
                rw (file, path, no_interval)
                  (λ h. absurd (ground arith), λ h. absurd (ground (arith, ==_iff ds.interval [])))
            | inr interval ↦
                rw (file, path, interval)
                  (
                    λ h. (
                      type.0 file,
                      (λ e. ground (arith, ==_iff ds.path [])),
                      (λ e. ground (arith, ==_iff ds.interval [])),
                      long h,
                    ),
                    λ h. enough h.3,
                  )
          ]
        ]
      ]

  check_sources_iff :
      (ss : List (Text × FileDataSource))
      → ((check_sources parse_duration ss).0 ≡ []) ↔ All IsSource ss
  unfolding check_sources
  check_sources_iff [] = ((λ h. tt), (λ h. refl))
  check_sources_iff (s ∷ ss) =
      iff_trans
        (append-nil_iff (check_source parse_duration s).0 (check_sources parse_duration ss).0)
        (both_iff (check_source_iff s) (check_sources_iff ss))

  parse_sources_iff :
      (ds : DataSources) → ((parse_sources parse_duration ds).0 ≡ []) ↔ AreSources ds
  unfolding parse_sources
  parse_sources_iff no_sources = ground arith
  parse_sources_iff bad_sources = ground arith
  parse_sources_iff (sources ss) = check_sources_iff ss

  name_faults_iff : (app : App) → (name_faults app ≡ []) ↔ IsAppName app.name
  unfolding name_faults
  name_faults_iff app = elim (Bool-cases (app.name == [])) [
    | inl nameless ↦ rw nameless (
      λ h. absurd (ground arith),
      λ h. absurd (nameless_app app.name ((==_iff app.name []).0 nameless) h),
    )
    | inr named ↦ rw named (check_iff (matches_name app.name) bad_name (matches_name_iff app.name))
  ]

  version_faults_iff : (app : App) → (version_faults app ≡ []) ↔ IsVersion app.version
  unfolding version_faults
  version_faults_iff app = elim (Bool-cases (app.version == [])) [
    | inl versionless ↦ rw versionless (
      λ h. absurd (ground arith),
      λ h. absurd (versionless_app app.version ((==_iff app.version []).0 versionless) h),
    )
    | inr versioned ↦
        rw versioned
          (check_iff (matches_semver app.version) bad_version (matches_semver_iff app.version))
  ]

  panels_faults_iff :
      (e : DirEntry) (app : App)
      → (panels_faults e app ≡ []) ↔ ((app.panels ≡ []) ⊎ (e.has_dir app.panels ≡ true))
  unfolding panels_faults
  panels_faults_iff e app = ground (arith, ==_iff app.panels [])

  app_faults_iff :
      (e : DirEntry) (app : App) → (app_faults parse_duration e app ≡ []) ↔ IsValid e app
  unfolding app_faults
  app_faults_iff e app = iff_trans (append-nil_iff (name_faults app) _) (
      both_iff (name_faults_iff app) (
        iff_trans (append-nil_iff (version_faults app) _) (
          both_iff (version_faults_iff app) (
            iff_trans (append-nil_iff (panels_faults e app) _)
              (both_iff (panels_faults_iff e app) (parse_sources_iff app.data_sources))))))

  is_empty_iff : (fs : List Fault) → (is_empty fs ≡ true) ↔ (fs ≡ [])
  is_empty_iff [] = ((λ h. refl), (λ h. refl))
  is_empty_iff (f ∷ fs) = ground arith

  -- An app comes from a directory that has a valid manifest.
  abbrev pub IsFrom : DirEntry → App → Type 0
  IsFrom e app =
      (e.is_dir ≡ true)
      × ((stated : App) × (e.manifest ≡ parsed stated)
          × IsValid e stated
          × (app ≡ load_app parse_duration e stated))

  read_entry_iff :
      (found : Found) (e : DirEntry) (file : ManifestFile) (app : App)
      → In app (read_entry parse_duration found e file).0 ↔ (
          In app found.0
          ⊎ ((stated : App) × (file ≡ parsed stated)
              × IsValid e stated
              × (app ≡ load_app parse_duration e stated)))
  unfolding read_entry
  read_entry_iff found e no_manifest app =
      (inl, λ h. elim h [ inl i ↦ i | inr (stated, k, v, l) ↦ absurd (ground arith) ])
  read_entry_iff found e invalid_json app =
      (inl, λ h. elim h [ inl i ↦ i | inr (stated, k, v, l) ↦ absurd (ground arith) ])
  read_entry_iff found e (parsed stated) app =
      let (no_fault, faultless) = app_faults_iff e stated in
      let empty = is_empty_iff (app_faults parse_duration e stated) in
      elim (Bool-cases (is_empty (app_faults parse_duration e stated))) [
        | inl valid ↦ rw valid (
          λ i. elim ((In-append app found.0 (load_app parse_duration e stated ∷ [])).0 i) [
            | inl before ↦ inl before
            | inr (inl new) ↦ inr (stated, refl, no_fault (empty.0 valid), new)
            | inr (inr no_app) ↦ absurd no_app
          ],
          λ h. (In-append app found.0 (load_app parse_duration e stated ∷ [])).1 (elim h [
            | inl before ↦ inl before
            | inr (other, k, v, new) ↦
                inr (inl (new ∙ ap (load_app parse_duration e) (ground arith)))
          ]),
        )
        | inr faults ↦ rw faults (
          inl,
          λ h. elim h [
            | inl before ↦ before
            | inr (other, k, v, new) ↦
                let same : other ≡ stated = ground arith in
                absurd (ground (arith, empty.1 (faultless (subst (IsValid e) same v))))
          ],
        )
      ]

  visit_entry_iff :
      (found : Found) (e : DirEntry) (app : App)
      → In app (visit_entry parse_duration found e).0 ↔ (In app found.0 ⊎ IsFrom e app)
  unfolding visit_entry
  visit_entry_iff found e app =
      if_iff e.is_dir (read_entry parse_duration found e e.manifest) found app
        (read_entry_iff found e e.manifest app)

  visit_entries_iff :
      (found : Found) (es : List DirEntry) (app : App)
      → In app (visit_entries parse_duration found es).0
        ↔ (In app found.0 ⊎ ((e : DirEntry) × In e es × (IsFrom e app)))
  unfolding visit_entries
  visit_entries_iff found [] app = (inl, λ h. elim h [ inl i ↦ i | inr k ↦ absurd k.1 ])
  visit_entries_iff found (e ∷ es) app =
      let (later, back) = visit_entries_iff (visit_entry parse_duration found e) es app in
      let (here, from) = visit_entry_iff found e app in
      (
        λ i. elim (later i) [
          | inl j ↦ elim (here j) [ inl before ↦ inl before | inr new ↦ inr (e, inl refl, new) ]
          | inr k ↦ inr (k.0, inr k.1, k.2)
        ],
        λ h. elim h [
          | inl before ↦ back (inl (from (inl before)))
          | inr k ↦ elim k.1 [
            | inl same ↦ back (inl (from (inr (subst (λ d. IsFrom d app) same k.2))))
            | inr rest ↦ back (inr (k.0, rest, k.2))
          ]
        ],
      )

  -- A directory of apps gives exactly those apps that one of its directories states in a valid
  -- manifest: the name and the version have their form, the directory of the panels exists if one
  -- is stated, and each data source is of the type `file` and has a path and an interval of at
  -- least a second. The app is as the manifest states it, with its directory and the parsed
  -- sources.
  pub discover_from_dir_iff :
      (es : List DirEntry) (app : App)
      → In app (discover_from_dir parse_duration (some es)).0
        ↔ ((e : DirEntry) × In e es × (IsFrom e app))
  unfolding discover_from_dir
  discover_from_dir_iff es app =
      let (to, from) = visit_entries_iff ([], []) es app in
      (λ i. elim (to i) [ inl no_app ↦ absurd no_app | inr h ↦ h ], λ h. from (inr h))
