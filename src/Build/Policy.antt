-- ===== src/Build/Policy.antt =====
-- When the scan of the apps reports nothing.
use vel.Common.{
  All, Bool, In, List, Option, Option-cases, Text, [], arith, false, if◌then◌else◌, inl, inr, not,
  refl, some, subst, true, ◌&&◌, ◌++◌, ◌||◌, ◌↔◌, ◌∷◌, ◌≡◌, ◌⊎◌,
}
use vel.Build.{
  AppBuildInfo, AppManifest, ImportSpec, Options, Scan, blacklisted_packages,
  has_capability_for_import, has_third_party_capability, import_path, is_in, is_standard,
  scan_import, tier1_packages, SiteConfig, scan_app_imports, scan_apps, scan_files, scan_imports,
  site_allows,
}
use vel.Build.Imports.{
  HasHost, IsDependency, IsUnlocked, depends_on_iff, is_in_iff, is_standard_iff, unlocks_iff,
}

-- The app has declared what it needs for the import: a package of the standard library is unlocked
-- by a capability or allowed by the site, any other is a dependency.
abbrev pub IsDeclared : List Text → AppManifest → Text → Type 0
IsDeclared allows m path =
    ((¬ HasHost path) × (IsUnlocked m.capabilities path ⊎ In path allows))
    ⊎ (HasHost path × IsDependency m.capabilities path)

-- What the policy lets an app import.
abbrev pub IsPermitted : Bool → List Text → AppManifest → Text → Type 0
IsPermitted strict allows m path =
    In path tier1_packages
    ⊎ ((¬ In path blacklisted_packages) × ((strict ≡ false) ⊎ IsDeclared allows m path))

-- The tests of one round.
is_fine : Bool → Bool → Bool → Bool → Bool → Bool → Bool → Bool
is_fine strict tier1 black standard unlocked allowed dependency =
    tier1 || (not black && (not strict || (if standard then unlocked || allowed else dependency)))

fine_of :
    {T B H U A D : Type 0} (strict t b s u a d : Bool)
    → ((t ≡ true) ↔ T)
    → ((b ≡ true) ↔ B)
    → ((s ≡ false) ↔ H)
    → ((u ≡ true) ↔ U)
    → ((a ≡ true) ↔ A)
    → ((d ≡ true) ↔ D)
    → (is_fine strict t b s u a d ≡ true)
      ↔ (T ⊎ ((¬ B) × ((strict ≡ false) ⊎ ((¬ H) × (U ⊎ A)) ⊎ (H × D))))
unfolding is_fine
fine_of strict true b s u a d ht hb hs hu ha hd = ground arith
fine_of strict false true s u a d ht hb hs hu ha hd = ground arith
fine_of false false false s u a d ht hb hs hu ha hd = ground arith
fine_of true false false true u a d ht hb hs hu ha hd = ground arith
fine_of true false false false u a d ht hb hs hu ha hd = ground arith

snoc-ne-nil : {A : Type 0} (xs : List A) (x : A) → xs ++ x ∷ [] ≡ [] → ⊥
snoc-ne-nil [] x h = ground arith
snoc-ne-nil (y ∷ ys) x h = ground arith

fine_iff :
    (strict : Bool) (allows : List Text) (m : AppManifest) (path : Text)
    → (is_fine strict
          (is_in tier1_packages path)
          (is_in blacklisted_packages path)
          (is_standard path)
          (has_capability_for_import m path)
          (is_in allows path)
          (has_third_party_capability m path)
        ≡ true)
      ↔ IsPermitted strict allows m path
unfolding has_capability_for_import has_third_party_capability
fine_iff strict allows m path =
    fine_of strict _ _ _ _ _ _ (is_in_iff tier1_packages path) (is_in_iff blacklisted_packages path)
      (is_standard_iff path) (unlocks_iff m.capabilities path) (is_in_iff allows path)
      (depends_on_iff m.capabilities path)

abbrev pub ImportsArePermitted : Bool → List Text → AppManifest → List ImportSpec → Type 0
ImportsArePermitted strict allows m = All (λ imp. IsPermitted strict allows m (import_path imp))

module _ (parse_imports : Text → Option (List ImportSpec)) where
  -- Every import of every file that the app has.
  abbrev pub FilesArePermitted : Bool → List Text → AppManifest → List Text → Type 0
  FilesArePermitted strict allows m = All (λ f.
      (imps : List ImportSpec)
      → parse_imports f ≡ some imps
      → ImportsArePermitted strict allows m imps)

  abbrev pub AppsArePermitted : Bool → SiteConfig → List AppBuildInfo → Type 0
  AppsArePermitted strict cfg =
      All (λ app. FilesArePermitted strict (site_allows cfg app.name) app.manifest app.go_files)

module _ (parse_imports : Text → Option (List ImportSpec)) where
  abbrev pub FilesParse : List Text → Type 0
  FilesParse = All (λ f. (imps : List ImportSpec) × (parse_imports f ≡ some imps))

  abbrev pub AppsParse : List AppBuildInfo → Type 0
  AppsParse = All (λ app. FilesParse app.go_files)

module _ (relative : Text → Text → Text) (parse_imports : Text → Option (List ImportSpec)) where
  reports :
      (opts : Options) (allows : List Text) (app : AppBuildInfo) (f : Text) (scan : Scan)
      (imp : ImportSpec)
      → ((scan_import relative parse_imports opts allows app f scan imp).0 ≡ []) ↔ (
          (scan.0 ≡ [])
          × (let path = import_path imp in
              is_fine opts.strict
                (is_in tier1_packages path)
                (is_in blacklisted_packages path)
                (is_standard path)
                (has_capability_for_import app.manifest path)
                (is_in allows path)
                (has_third_party_capability app.manifest path)
              ≡ true))
  unfolding scan_import is_fine
  reports opts allows app f scan imp = grind (arith, snoc-ne-nil)

  scan_import_iff :
      (opts : Options) (allows : List Text) (app : AppBuildInfo) (f : Text) (scan : Scan)
      (imp : ImportSpec)
      → ((scan_import relative parse_imports opts allows app f scan imp).0 ≡ [])
        ↔ ((scan.0 ≡ []) × IsPermitted opts.strict allows app.manifest (import_path imp))
  scan_import_iff opts allows app f scan imp =
      let (to, from) = reports opts allows app f scan imp in
      let (fine, back) = fine_iff opts.strict allows app.manifest (import_path imp) in
      (λ h. ((to h).0, fine (to h).1), λ (e, p). from (e, back p))

  scan_imports_iff :
      (opts : Options) (allows : List Text) (app : AppBuildInfo) (f : Text) (scan : Scan)
      (imps : List ImportSpec)
      → ((scan_imports relative parse_imports opts allows app f scan imps).0 ≡ [])
        ↔ ((scan.0 ≡ []) × ImportsArePermitted opts.strict allows app.manifest imps)
  unfolding scan_imports
  scan_imports_iff opts allows app f scan [] = (λ h. (h, tt), λ h. h.0)
  scan_imports_iff opts allows app f scan (imp ∷ imps) =
      let (first, first_back) = scan_import_iff opts allows app f scan imp in
      let (later, later_back) =
        scan_imports_iff opts allows app f
          (scan_import relative parse_imports opts allows app f scan imp) imps in
      (
        λ h. let (e, ps) = later h in let (e', p) = first e in (e', (p, ps)),
        λ (e, (p, ps)). later_back (first_back (e, p), ps),
      )

  scan_files_iff :
      (opts : Options) (allows : List Text) (app : AppBuildInfo) (scan : Scan) (fs : List Text)
      (end : Scan)
      → scan_files relative parse_imports opts allows app scan fs ≡ some end
      → (end.0 ≡ [])
        ↔ ((scan.0 ≡ []) × FilesArePermitted parse_imports opts.strict allows app.manifest fs)
  unfolding scan_files
  scan_files_iff opts allows app scan [] end h = (λ e. (ground arith, tt), λ p. ground arith)
  scan_files_iff opts allows app scan (f ∷ fs) end h = elim (Option-cases (parse_imports f)) [
    | inl fails ↦ absurd (ground arith)
    | inr (imps, e) ↦
        let scan' = scan_imports relative parse_imports opts allows app f scan imps in
        let (first, first_back) = scan_imports_iff opts allows app f scan imps in
        let (later, later_back) = scan_files_iff opts allows app scan' fs end (ground arith) in
        (
          λ empty.
              let (e0, rest) = later empty in
              let (e1, here) = first e0 in
              (
                e1,
                (
                  (λ imps' k.
                      subst (ImportsArePermitted opts.strict allows app.manifest) (ground arith)
                        here),
                  rest,
                ),
              ),
          λ (e0, (here, rest)). later_back (first_back (e0, here imps e), rest),
        )
  ]

  scan_apps_iff :
      (opts : Options) (cfg : SiteConfig) (scan : Scan) (apps : List AppBuildInfo) (end : Scan)
      → scan_apps relative parse_imports opts cfg scan apps ≡ some end
      → (end.0 ≡ []) ↔ ((scan.0 ≡ []) × AppsArePermitted parse_imports opts.strict cfg apps)
  unfolding scan_apps
  scan_apps_iff opts cfg scan [] end h = (λ e. (ground arith, tt), λ p. ground arith)
  scan_apps_iff opts cfg scan (app ∷ apps) end h =
      let files =
        scan_files relative parse_imports opts (site_allows cfg app.name) app scan app.go_files in
      elim (Option-cases files) [
        | inl fails ↦ absurd (ground arith)
        | inr (scan', e) ↦
            let (first, first_back) =
              scan_files_iff opts (site_allows cfg app.name) app scan app.go_files scan' e in
            let (later, later_back) = scan_apps_iff opts cfg scan' apps end (ground arith) in
            (
              λ empty.
                  let (e0, rest) = later empty in let (e1, here) = first e0 in (e1, (here, rest)),
              λ (e0, (here, rest)). later_back (first_back (e0, here), rest),
            )
      ]

  scan_files-some :
      (opts : Options) (allows : List Text) (app : AppBuildInfo) (scan : Scan) (fs : List Text)
      → FilesParse parse_imports fs
      → (end : Scan) × (scan_files relative parse_imports opts allows app scan fs ≡ some end)
  unfolding scan_files
  scan_files-some opts allows app scan [] h = (scan, refl)
  scan_files-some opts allows app scan (f ∷ fs) ((imps, e), rest) =
      rw (e, scan_files)
        (scan_files-some opts allows app
          (scan_imports relative parse_imports opts allows app f scan imps) fs rest)

  scan_apps-some :
      (opts : Options) (cfg : SiteConfig) (scan : Scan) (apps : List AppBuildInfo)
      → AppsParse parse_imports apps
      → (end : Scan) × (scan_apps relative parse_imports opts cfg scan apps ≡ some end)
  unfolding scan_apps
  scan_apps-some opts cfg scan [] h = (scan, refl)
  scan_apps-some opts cfg scan (app ∷ apps) (files, rest) =
      let (scan', e) =
        scan_files-some opts (site_allows cfg app.name) app scan app.go_files files in
      rw (e, scan_apps) (scan_apps-some opts cfg scan' apps rest)

  -- When every file parses, the scan ends, and it reports nothing exactly when all that the apps
  -- import is permitted. In strict mode that is a package of tier 1, or one that is not on the
  -- blacklist and is declared: in the standard library it is unlocked by a capability of the app or
  -- allowed for it in vel.yaml, and outside it begins with a declared capability that has a dot. In
  -- bypass mode all that is not on the blacklist is permitted.
  pub scan_app_imports_iff :
      (apps : List AppBuildInfo) (opts : Options) (cfg : SiteConfig)
      → AppsParse parse_imports apps
      → (end : Scan) × (scan_app_imports relative parse_imports apps opts cfg ≡ some end)
        × ((end.0 ≡ []) ↔ AppsArePermitted parse_imports opts.strict cfg apps)
  unfolding scan_app_imports
  scan_app_imports_iff apps opts cfg parses =
      let (end, h) = scan_apps-some opts cfg ([], []) apps parses in
      let (to, from) = scan_apps_iff opts cfg ([], []) apps end h in
      (end, h, (λ e. (to e).1, λ p. from (refl, p)))
