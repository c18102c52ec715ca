-- ===== src/Apps/Installed.antt =====
-- Which apps are installed, and when every dependency is met.
use vel.Common.{
  All, Bool-cases, In, List, Option, Option-cases, Text, [], append-nil_iff, arith, inl, inr, refl,
  some, true, ℤ, ◌++◌, ◌↔◌, ◌∷◌, ◌≡◌,
}
use vel.Std.NameMap.{
  AreNamed, HasDistinctKeys, get-some_iff, put_all-AreNamed, put_all-HasDistinctKeys, In-put_all,
  last_named, or_else, get, put_all, values,
}
use vel.Apps.{
  App, DirEntry, app_name, discover, discover_from_dir, external_apps, is_installed,
  missing_dependencies, validate_dependencies,
}

abbrev pub IsMet : List App → Text → Type 0
IsMet apps dep = (other : App) × In other apps × (other.name ≡ dep)

-- Every dependency that the apps state is the name of one of `others`.
abbrev pub AreMet : List App → List App → Type 0
AreMet others = All (λ app. All (λ (dep : Text × Text). IsMet others dep.0) app.dependencies)

module _ (by_name : List (Text × App)) (named : AreNamed app_name by_name)
    (distinct : HasDistinctKeys by_name) where
  is_installed_iff : (dep : Text) → (is_installed by_name dep ≡ true) ↔ IsMet (values by_name) dep
  unfolding is_installed
  is_installed_iff dep = elim (Option-cases (get by_name dep)) [
    | inl e ↦
        rw (e, is_installed)
          (
            λ h. cc,
            λ (other, i, k).
                let held = (get-some_iff app_name by_name named distinct dep other).1 (i, k) in cc,
          )
    | inr (app, e) ↦
        rw (e, is_installed)
          (
            λ h.
                let (i, k) = (get-some_iff app_name by_name named distinct dep app).0 e in
                (app, i, k),
            λ h. refl,
          )
  ]

  missing_dependencies_iff :
      (app : Text) (deps : List (Text × Text))
      → (missing_dependencies by_name app deps ≡ [])
        ↔ All (λ (dep : Text × Text). IsMet (values by_name) dep.0) deps
  unfolding missing_dependencies
  missing_dependencies_iff app [] = (λ h. tt, λ h. refl)
  missing_dependencies_iff app ((dep, version) ∷ deps) =
      let (to, from) = is_installed_iff dep in
      let (later, back) = missing_dependencies_iff app deps in
      elim (Bool-cases (is_installed by_name dep)) [
        | inl met ↦ rw met (λ h. (to met, later h), λ h. back h.1)
        | inr missing ↦
            rw missing (λ h. absurd (ground arith), λ h. absurd (ground (arith, from h.0)))
      ]

  validate_dependencies_iff :
      (apps : List App) → (validate_dependencies apps by_name ≡ []) ↔ AreMet (values by_name) apps
  unfolding validate_dependencies
  validate_dependencies_iff [] = (λ h. tt, λ h. refl)
  validate_dependencies_iff (app ∷ apps) =
      let (to, from) = missing_dependencies_iff app.name app.dependencies in
      let (later, back) = validate_dependencies_iff apps in
      let (parts, whole) =
        append-nil_iff (missing_dependencies by_name app.name app.dependencies)
          (validate_dependencies apps by_name) in
      (
        λ h. let (e, rest) = parts h in (to e, later rest),
        λ (met, rest). whole (from met, back rest),
      )

module _ (parse_duration : Text → Option ℤ) where
  -- An app is installed exactly when it is the last of its name that the external directory gives,
  -- or that gives none of this name and it is the last one of `apps/`.
  pub discover_iff :
      (internal : Option (List DirEntry)) (external : Option (Option (List DirEntry))) (app : App)
      → In app (discover parse_duration internal external).0 ↔ (
          or_else
            (last_named app_name (external_apps parse_duration external).0 app.name)
            (last_named app_name (discover_from_dir parse_duration internal).0 app.name)
          ≡ some app)
  unfolding discover
  discover_iff internal external app = In-put_all app_name _ _ app

  -- Discovery reports no error exactly when neither directory gives one and every dependency of
  -- every installed app is the name of an installed app.
  pub discover-errors_iff :
      (internal : Option (List DirEntry)) (external : Option (Option (List DirEntry)))
      → ((discover parse_duration internal external).1 ≡ []) ↔ (
          ((discover_from_dir parse_duration internal).1 ≡ [])
          × ((external_apps parse_duration external).1 ≡ [])
          × AreMet
              (discover parse_duration internal external).0
              (discover parse_duration internal external).0)
  unfolding discover
  discover-errors_iff internal external =
      let inner = (discover_from_dir parse_duration internal).0 in
      let outer = (external_apps parse_duration external).0 in
      let first = put_all app_name [] inner in
      let by_name = put_all app_name first outer in
      let named = put_all-AreNamed app_name first outer (put_all-AreNamed app_name [] inner tt) in
      let distinct =
        put_all-HasDistinctKeys app_name first outer
          (put_all-HasDistinctKeys app_name [] inner tt) in
      let (met, unmet) = validate_dependencies_iff by_name named distinct (values by_name) in
      let (parts, whole) =
        append-nil_iff
          ((discover_from_dir parse_duration internal).1
            ++ (external_apps parse_duration external).1)
          (validate_dependencies (values by_name) by_name) in
      let (both, join) =
        append-nil_iff (discover_from_dir parse_duration internal).1
          (external_apps parse_duration external).1 in
      (
        λ h. let (dirs, deps) = parts h in let (e, f) = both dirs in (e, f, met deps),
        λ (e, f, m). whole (join (e, f), unmet m),
      )
