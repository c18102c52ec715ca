-- ===== src/Server/Paths.antt =====
-- internal/server: the paths that need no login, from authmiddleware.go, and the prefixes that apps
-- make public, from server.go and internal/apps/apps.go.
pub mod Public
mod Tests
use vel.Common.{
  Bool, List, Text, [], any, contains, false, has_prefix, if◌then◌else◌, keep, lit, map, not, true,
  ◌++◌, ◌==◌, ◌||◌, ◌∷◌,
}
use vel.Auth.Request.{Request}

abbrev pub exact_paths : List Text
exact_paths =
    lit "/"
    ∷ lit "/login"
    ∷ lit "/auth/login"
    ∷ lit "/api/health"
    ∷ lit "/api/auth"
    ∷ lit "/auth/magic"
    ∷ lit "/auth/telegram/callback"
    ∷ lit "/auth/token"
    ∷ lit "/auth/dev"
    ∷ lit "/auth/logout"
    ∷ lit "/favicon.ico"
    ∷ lit "/robots.txt"
    ∷ lit "/api/auth/magic-link/request"
    ∷ []

abbrev pub framework_prefixes : List Text
framework_prefixes = lit "/public/" ∷ lit "/core/vendor/" ∷ lit "/custom/theme/" ∷ []

-- `app_public_prefixes` is the package variable that `SetAppPublicRoutes` sets.
unfoldable pub is_public_path : List Text → Text → Bool
is_public_path app_public_prefixes path =
    if any (λ p. path == p) exact_paths
    then true
    else if any (has_prefix path) framework_prefixes
    then true
    else any (has_prefix path) app_public_prefixes

-- A request that likely comes from a browser.
unfoldable pub is_browser_request : Request → Bool
is_browser_request r =
    let accept = r.header (lit "Accept") in
    if contains accept (lit "text/html")
    then true
    else if has_prefix r.path (lit "/api/")
    then false
    else not (contains accept (lit "application/json"))

-- A route of an app: its prefix and its `public` field. The other fields say what it serves.
pub record Route : Type 0 where
  pub prefix : Text
  pub public : Bool

-- The name, the `public` field and the routes of an app, in the order of the map's iteration.
pub record App : Type 0 where
  pub name : Text
  pub public : Bool
  pub routes : List Route

unfoldable pub public_routes : App → List Text
public_routes a = map (λ r. r.prefix) (keep (λ r. a.public || r.public) a.routes)

abbrev pub reserved_prefixes : List Text
reserved_prefixes = lit "/api/" ∷ lit "/auth/" ∷ lit "/dashboard" ∷ lit "/ws/" ∷ lit "/login" ∷ []

-- The safety test of the loop in `New`.
unfoldable pub is_reserved : Text → Bool
is_reserved prefix = any (has_prefix prefix) reserved_prefixes

-- The local `publicPrefixes` after the loop over the apps.
unfoldable pub public_prefixes : List App → List Text
public_prefixes [] = []
public_prefixes (a ∷ apps) =
    keep (λ prefix. not (is_reserved prefix)) (public_routes a) ++ public_prefixes apps
