-- ===== src/Build/Discovery/Found.antt =====
-- Which apps and which files the build takes.
use vel.Common.{
  Bool, Bool-cases, In, In-append, List, Text, [], arith, false, has_suffix, inl, inr, lit, not,
  refl, some, subst, sym, true, ◌&&◌, ◌++◌, ◌||◌, ◌↔◌, ◌∷◌, ◌≡◌, ◌⊎◌,
}
use vel.Std.NameMap.{In-put_all, last_named, or_else, put_all, values}
use vel.Build.{AppBuildInfo, AppManifest, is_in}
use vel.Build.Imports.{is_in_iff}
use vel.Build.Discovery.{
  Listing, app_name, discover_apps, discover_apps_from_dir, discover_external, found, unique_files,
  DirEntry, all_files, is_empty, parsed, visit_entry, DiscoverError, Discovered, ManifestFile,
  build_info, failed, not_json, read_manifest, unreadable, visit_entries, listed,
}

-- Where both directories can be read, an app is found exactly when it is the last of its name in
-- the external directory, or that has none of this name and it is the last one in `apps/`.
pub discover_apps_iff :
    (internal external : Listing) (apps inner outer : List AppBuildInfo) (app : AppBuildInfo)
    → discover_apps_from_dir internal ≡ found inner
    → discover_apps_from_dir external ≡ found outer
    → discover_apps internal (some external) ≡ found apps
    → In app apps ↔ (
        or_else (last_named app_name outer app.name) (last_named app_name inner app.name)
        ≡ some app)
unfolding discover_apps discover_external
discover_apps_iff internal external apps inner outer app h k e =
    let same : apps ≡ values (put_all app_name (put_all app_name [] inner) outer) = ground arith in
    rw same (In-put_all app_name inner outer app)

abbrev pub IsTest : Text → Type 0
IsTest f = has_suffix f (lit "_test.go") ≡ true

abbrev pub Distinct : List Text → Type 0
Distinct [] = Unit
Distinct (f ∷ fs) = (¬ In f fs) × Distinct fs

abbrev is_new : List Text → Text → Bool
is_new seen f = not (is_in seen f) && not (has_suffix f (lit "_test.go"))

unique_files_iff :
    (seen fs : List Text) (f : Text)
    → In f (unique_files seen fs) ↔ (In f seen ⊎ (In f fs × (¬ IsTest f)))
unfolding unique_files
unique_files_iff seen [] f = ground arith
unique_files_iff seen (g ∷ gs) f = elim (Bool-cases (is_new seen g)) [
  | inl new ↦
      rw new (ground (arith, unique_files_iff (seen ++ g ∷ []) gs f, In-append f seen (g ∷ [])))
  | inr old ↦ rw old (ground (arith, unique_files_iff seen gs f, is_in_iff seen g))
]

snoc-Distinct : (fs : List Text) (f : Text) → Distinct fs → (¬ In f fs) → Distinct (fs ++ f ∷ [])
snoc-Distinct [] f d n = ((λ h. h), tt)
snoc-Distinct (g ∷ gs) f d n = (
  λ h. elim ((In-append g gs (f ∷ [])).0 h) [ inl i ↦ d.0 i | inr i ↦ n (inl (ground arith)) ],
  snoc-Distinct gs f d.1 (λ i. n (inr i)),
)

unique_files-Distinct : (seen fs : List Text) → Distinct seen → Distinct (unique_files seen fs)
unfolding unique_files
unique_files-Distinct seen [] d = d
unique_files-Distinct seen (g ∷ gs) d = elim (Bool-cases (is_new seen g)) [
  | inl new ↦ rw new (
      unique_files-Distinct (seen ++ g ∷ []) gs
        (snoc-Distinct seen g d (λ i. ground (arith, is_in_iff seen g))))
  | inr old ↦ rw old (unique_files-Distinct seen gs d)
]

-- What is said of the files of an app: it has some, no file twice, and exactly the files of its
-- directories that are no tests.
abbrev pub HasItsFiles : DirEntry → AppBuildInfo → Type 0
HasItsFiles e app =
    (is_empty app.go_files ≡ false)
    × Distinct app.go_files
    × ((f : Text) → In f app.go_files ↔ (In f (all_files e) × (¬ IsTest f)))

abbrev pub IsFrom : List DirEntry → AppBuildInfo → Type 0
IsFrom es app =
    (e : DirEntry) × In e es
    × (e.is_dir ≡ true)
    × (e.manifest ≡ parsed app.manifest)
    × (app.name ≡ app.manifest.name)
    × HasItsFiles e app

unique_files-lem :
    (e : DirEntry)
    → (f : Text) → In f (unique_files [] (all_files e)) ↔ (In f (all_files e) × (¬ IsTest f))
unique_files-lem e f =
    let (to, from) = unique_files_iff [] (all_files e) f in
    (λ i. elim (to i) [ inl no_file ↦ absurd no_file | inr h ↦ h ], λ h. from (inr h))

build_info-IsFrom :
    (e : DirEntry) (files : List Text) (m : AppManifest)
    → files ≡ unique_files [] (all_files e)
    → is_empty files ≡ false
    → e.is_dir ≡ true
    → e.manifest ≡ parsed m
    → IsFrom (e ∷ []) (build_info e files m)
build_info-IsFrom e files m same some_files dir h =
    let files-lem : (f : Text) → In f files ↔ (In f (all_files e) × (¬ IsTest f)) =
      subst (λ fs. (f : Text) → In f fs ↔ (In f (all_files e) × (¬ IsTest f))) (sym same)
        (unique_files-lem e) in
    (
      e,
      inl refl,
      dir,
      h,
      refl,
      (
        some_files,
        subst Distinct (sym same) (unique_files-Distinct [] (all_files e) tt),
        files-lem,
      ),
    )

read_manifest-some :
    (apps apps' : List AppBuildInfo) (e : DirEntry) (app : AppBuildInfo) (files : List Text)
    (file : ManifestFile)
    → read_manifest e files apps file ≡ found apps'
    → In app apps'
    → files ≡ unique_files [] (all_files e)
    → is_empty files ≡ false
    → e.is_dir ≡ true
    → e.manifest ≡ file
    → In app apps ⊎ IsFrom (e ∷ []) app
unfolding read_manifest
read_manifest-some apps apps' e app files unreadable h i same some_files dir k =
    absurd (ground arith)
read_manifest-some apps apps' e app files not_json h i same some_files dir k = absurd (ground arith)
read_manifest-some apps apps' e app files (parsed m) h i same some_files dir k =
    let e' : apps ++ build_info e files m ∷ [] ≡ apps' = ground arith in
    elim ((In-append app apps (build_info e files m ∷ [])).0 (subst (In app) (sym e') i)) [
      | inl before ↦ inl before
      | inr (inl new) ↦
          inr
            (subst (IsFrom (e ∷ [])) (sym new) (build_info-IsFrom e files m same some_files dir k))
      | inr (inr no_app) ↦ absurd no_app
    ]

visit_entry-some :
    (apps apps' : List AppBuildInfo) (e : DirEntry) (app : AppBuildInfo)
    → visit_entry apps e ≡ found apps'
    → In app apps'
    → In app apps ⊎ IsFrom (e ∷ []) app
unfolding visit_entry
visit_entry-some apps apps' e app h i =
    let files = unique_files [] (all_files e) in
    elim (Bool-cases (not e.is_dir || is_empty files)) [
      | inl passed_over ↦ let e' : apps ≡ apps' = ground arith in inl (subst (In app) (sym e') i)
      | inr taken ↦
          read_manifest-some apps apps' e app files e.manifest (ground arith) i refl (ground arith)
            (ground arith) refl
    ]

here_first : (d e : DirEntry) (es : List DirEntry) → In d (e ∷ []) → In d (e ∷ es)
here_first d e es (inl same) = inl same
here_first d e es (inr no_entry) = absurd no_entry

found_or_failed :
    (d : Discovered)
    → ((apps : List AppBuildInfo) × (d ≡ found apps)) ⊎ ((err : DiscoverError) × (d ≡ failed err))
found_or_failed (found apps) = inl (apps, refl)
found_or_failed (failed err) = inr (err, refl)

visit_entries-some :
    (apps apps' : List AppBuildInfo) (es : List DirEntry) (app : AppBuildInfo)
    → visit_entries apps es ≡ found apps'
    → In app apps'
    → In app apps ⊎ IsFrom es app
unfolding visit_entries
visit_entries-some apps apps' [] app h i = inl (subst (In app) (ground arith) i)
visit_entries-some apps apps' (e ∷ es) app h i = elim (found_or_failed (visit_entry apps e)) [
  | inl (next, k) ↦ elim (visit_entries-some next apps' es app (ground arith) i) [
    | inl earlier ↦ elim (visit_entry-some apps next e app k earlier) [
      | inl before ↦ inl before
      | inr from ↦ inr (from.0, here_first from.0 e es from.1, from.2, from.3, from.4, from.5)
    ]
    | inr from ↦ inr (from.0, inr from.1, from.2, from.3, from.4, from.5)
  ]
  | inr (err, k) ↦ absurd (ground arith)
]

-- Each app that is found in a directory comes from an entry that is a directory and whose manifest
-- was read; it has the manifest's name, at least one file, no file twice, and exactly those files
-- of the entry that are no tests.
discover_apps_from_dir-IsFrom :
    (es : List DirEntry) (apps : List AppBuildInfo) (app : AppBuildInfo)
    → discover_apps_from_dir (listed es) ≡ found apps
    → In app apps
    → IsFrom es app
unfolding discover_apps_from_dir
discover_apps_from_dir-IsFrom es apps app h i = elim (visit_entries-some [] apps es app h i) [
  | inl no_app ↦ absurd no_app
  | inr from ↦ from
]
