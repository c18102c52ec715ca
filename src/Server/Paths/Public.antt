-- ===== src/Server/Paths/Public.antt =====
-- Which paths the apps can make public.
use mathlib.Core.List.{append_assoc}
use vel.Common.{
  ==_iff, ==_refl, Bool-cases, In, In-append, In-keep, In-map, List, Text, [], any, any_complete,
  any_sound, ap, arith, false, has_prefix, has_prefix_iff, inl, inr, keep, lit, map, not, refl,
  subst, sym, true, ◌++◌, ◌==◌, ◌||◌, ◌↔◌, ◌∙◌, ◌∷◌, ◌≡◌, ◌≢◌, ◌⊎◌,
}
use vel.Server.Paths.{
  App, Route, exact_paths, framework_prefixes, is_public_path, is_reserved, public_prefixes,
  public_routes,
}

-- The pages and the endpoints that are meant to need no login.
abbrev pub open_pages : List Text
open_pages = map lit (
    "/" ∷ "/login" ∷ "/favicon.ico" ∷ "/robots.txt" ∷ "/auth/login" ∷ "/auth/logout" ∷ "/auth/magic"
    ∷ "/auth/telegram/callback" ∷ "/auth/token" ∷ "/auth/dev" ∷ "/api/health" ∷ "/api/auth"
    ∷ "/api/auth/magic-link/request" ∷ [])

-- The assets of the framework.
abbrev pub asset_folders : List Text
asset_folders = map lit ("/public/" ∷ "/core/vendor/" ∷ "/custom/theme/" ∷ [])

-- What belongs to the framework, so that no app can open it.
abbrev pub framework_routes : List Text
framework_routes = map lit ("/ws/" ∷ "/login" ∷ "/dashboard" ∷ "/auth/" ∷ "/api/" ∷ [])

abbrev pub BeginsIn : List Text → Text → Type 0
BeginsIn folders path = (p : Text) × (t : Text) × In p folders × (path ≡ p ++ t)

-- Some app has a route with this prefix, and the route or the app is public.
abbrev pub Opens : List App → Text → Type 0
Opens apps prefix =
    (a : App) × (r : Route) × In a apps
    × In r a.routes
    × (r.prefix ≡ prefix)
    × ((a.public ≡ true) ⊎ (r.public ≡ true))

abbrev Declares : List App → Text → Type 0
Declares apps prefix =
    (a : App) × (r : Route) × In a apps
    × In r a.routes
    × (r.prefix ≡ prefix)
    × ((a.public || r.public) ≡ true)
    × (is_reserved prefix ≡ false)

abbrev kept_routes : App → List Text
kept_routes a = keep (λ prefix. not (is_reserved prefix)) (public_routes a)

In-kept_routes :
    (a : App) (p : Text)
    → In p (kept_routes a) ↔ (
        (r : Route) × In r a.routes
        × (r.prefix ≡ p)
        × ((a.public || r.public) ≡ true)
        × (is_reserved p ≡ false))
unfolding public_routes
In-kept_routes a p = (
  λ h.
      let (held, free) = (In-keep (λ prefix. not (is_reserved prefix)) p (public_routes a)).0 h in
      let (r, there, e) =
        (In-map (λ r. r.prefix) p (keep (λ r. a.public || r.public) a.routes)).0 held in
      let (there', shared) = (In-keep (λ r. a.public || r.public) r a.routes).0 there in
      (r, there', e, shared, ground arith),
  λ (r, there, e, shared, free).
      (In-keep (λ prefix. not (is_reserved prefix)) p (public_routes a)).1 (
        (In-map (λ r. r.prefix) p (keep (λ r. a.public || r.public) a.routes)).1
            (r, (In-keep (λ r. a.public || r.public) r a.routes).1 (there, shared), e),
        ground arith,
      ),
)

In-public_prefixes : (apps : List App) (p : Text) → In p (public_prefixes apps) ↔ Declares apps p
unfolding public_prefixes
In-public_prefixes [] p = (λ h. absurd h, λ d. absurd d.2)
In-public_prefixes (a ∷ apps) p = (
  λ h. elim ((In-append p (kept_routes a) (public_prefixes apps)).0 h) [
    | inl own ↦
        let (r, there, e, shared, free) = (In-kept_routes a p).0 own in
        (a, r, inl refl, there, e, shared, free)
    | inr other ↦
        let (a', r, held, there, e, shared, free) = (In-public_prefixes apps p).0 other in
        (a', r, inr held, there, e, shared, free)
  ],
  λ (a', r, held, there, e, shared, free).
      (In-append p (kept_routes a) (public_prefixes apps)).1 (elim held [
        | inl same ↦ inl (
            subst (λ x. In p (kept_routes x)) same
              ((In-kept_routes a' p).1 (r, there, e, shared, free)))
        | inr h ↦ inr ((In-public_prefixes apps p).1 (a', r, h, there, e, shared, free))
      ]),
)

any_prefix_iff :
    (path : Text) (ps : List Text)
    → (any (has_prefix path) ps ≡ true) ↔ ((p : Text) × (t : Text) × In p ps × (path ≡ p ++ t))
any_prefix_iff path ps = (
  λ h.
      let (p, held, hit) = any_sound (has_prefix path) ps h in
      let (t, e) = (has_prefix_iff path p).0 hit in (p, t, held, e),
  λ (p, t, held, e). any_complete (has_prefix path) p ps held ((has_prefix_iff path p).1 (t, e)),
)

any_equal_iff : (path : Text) (ps : List Text) → (any (λ p. path == p) ps ≡ true) ↔ In path ps
any_equal_iff path ps = (
  λ h.
      let (p, held, hit) = any_sound (λ p. path == p) ps h in
      subst (λ x. In x ps) (sym ((==_iff path p).0 hit)) held,
  λ held. any_complete (λ p. path == p) path ps held (==_refl path),
)

module _ (prefixes : List Text) (path : Text) where
  is_public_path-other :
      any (λ p. path == p) exact_paths ≡ false
      → any (has_prefix path) framework_prefixes ≡ false
      → is_public_path prefixes path ≡ true
      → any (has_prefix path) prefixes ≡ true
  unfolding is_public_path
  is_public_path-other h k e = subst (λ x. x ≡ true) (rw (h, k) refl) e

  is_public_path-exact :
      any (λ p. path == p) exact_paths ≡ true → is_public_path prefixes path ≡ true
  unfolding is_public_path
  is_public_path-exact h = rw h refl

  is_public_path-framework :
      any (has_prefix path) framework_prefixes ≡ true → is_public_path prefixes path ≡ true
  unfolding is_public_path
  is_public_path-framework h = rw h (ground arith)

  is_public_path-app : any (has_prefix path) prefixes ≡ true → is_public_path prefixes path ≡ true
  unfolding is_public_path
  is_public_path-app h = rw h (ground arith)

same_pages : (path : Text) → In path exact_paths ↔ In path open_pages
same_pages path = ground arith

same_folders :
    (path : Text) → any (has_prefix path) framework_prefixes ≡ any (has_prefix path) asset_folders
same_folders path = refl

is_reserved_iff : (p : Text) → (is_reserved p ≡ true) ↔ BeginsIn framework_routes p
unfolding is_reserved
is_reserved_iff p =
    let same : is_reserved p ≡ any (has_prefix p) framework_routes = ground arith in
    subst (λ b. (b ≡ true) ↔ BeginsIn framework_routes p) (sym same)
      (any_prefix_iff p framework_routes)

unreserved_iff : (p : Text) → (is_reserved p ≡ false) ↔ (¬ BeginsIn framework_routes p)
unreserved_iff p = ground (arith, is_reserved_iff p)

-- The path begins with a route that an app opens and that is below none of the framework's.
abbrev pub IsOpened : List App → Text → Type 0
IsOpened apps path =
    (p : Text) × (t : Text) × Opens apps p × (¬ BeginsIn framework_routes p) × (path ≡ p ++ t)

Declares-iff :
    (apps : List App) (p : Text)
    → Declares apps p ↔ (Opens apps p × (¬ BeginsIn framework_routes p))
Declares-iff apps p = (
  λ (a, r, held, there, e, shared, free).
      ((a, r, held, there, e, ground arith), (unreserved_iff p).0 free),
  λ ((a, r, held, there, e, shared), own).
      (a, r, held, there, e, ground arith, (unreserved_iff p).1 own),
)

-- With the prefixes that the server collects from its apps, a path needs no login exactly when it
-- is one of the thirteen pages and endpoints that are meant to be open, when it begins with one of
-- the three folders of assets, or when it begins with a route that some app opens and that does not
-- itself begin with one of the five routes of the framework.
pub is_public_path_iff :
    (apps : List App) (path : Text)
    → (is_public_path (public_prefixes apps) path ≡ true)
      ↔ (In path open_pages ⊎ BeginsIn asset_folders path ⊎ IsOpened apps path)
is_public_path_iff apps path =
    let exact = any_equal_iff path exact_paths in
    let folder = any_prefix_iff path framework_prefixes in
    let own = any_prefix_iff path (public_prefixes apps) in
    (
      λ h. elim (Bool-cases (any (λ p. path == p) exact_paths)) [
        | inl hit ↦ inl ((same_pages path).0 (exact.0 hit))
        | inr miss ↦ elim (Bool-cases (any (has_prefix path) framework_prefixes)) [
          | inl hit' ↦ inr (inl (folder.0 hit'))
          | inr miss' ↦
              let (p, t, held, e) =
                own.0 (is_public_path-other (public_prefixes apps) path miss miss' h) in
              let (opens, free) = (Declares-iff apps p).0 ((In-public_prefixes apps p).0 held) in
              inr (inr (p, t, opens, free, e))
        ]
      ],
      λ h. elim h [
        | inl e ↦ is_public_path-exact (public_prefixes apps) path (exact.1 ((same_pages path).1 e))
        | inr (inl below) ↦ is_public_path-framework (public_prefixes apps) path (folder.1 below)
        | inr (inr (p, t, opens, free, e)) ↦
            is_public_path-app (public_prefixes apps) path (
              own.1
                (p, t, (In-public_prefixes apps p).1 ((Declares-iff apps p).1 (opens, free)), e))
      ],
    )

-- A proper beginning of `/api/` is no route of the framework.
short_is_unreserved : (p s : Text) → lit "/api/" ≡ p ++ s → s ≢ [] → is_reserved p ≡ false
unfolding is_reserved has_prefix
short_is_unreserved [] s e n = refl
short_is_unreserved (a ∷ []) s e n = ground arith
short_is_unreserved (a ∷ b ∷ []) s e n = ground arith
short_is_unreserved (a ∷ b ∷ c ∷ []) s e n = ground arith
short_is_unreserved (a ∷ b ∷ c ∷ d ∷ []) s e n = ground arith
short_is_unreserved (a ∷ b ∷ c ∷ d ∷ x ∷ []) s e n = absurd (n (ground arith))
short_is_unreserved (a ∷ b ∷ c ∷ d ∷ x ∷ y ∷ p) s e n = absurd (ground arith)

-- The test of reserved prefixes does not keep the API behind the login: when some app opens a route
-- that is a proper beginning of `/api/`, such as `/` or `/a`, then every path below `/api/` needs
-- no login.
pub short_route_exposes_api :
    (apps : List App) (p s t : Text)
    → Opens apps p
    → lit "/api/" ≡ p ++ s
    → s ≢ []
    → is_public_path (public_prefixes apps) (lit "/api/" ++ t) ≡ true
short_route_exposes_api apps p s t opens begins more =
    (is_public_path_iff apps (lit "/api/" ++ t)).1 (
      inr (
        inr (
          p,
          s ++ t,
          opens,
          (unreserved_iff p).0 (short_is_unreserved p s begins more),
          ap (λ x. x ++ t) begins ∙ append_assoc p s t,
        )))
