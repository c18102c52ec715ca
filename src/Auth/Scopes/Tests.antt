-- ===== src/Auth/Scopes/Tests.antt =====
-- Runs of `CheckScope`.
use vel.Common.{
  In, List, Text, [], cut, false, has_prefix, has_suffix, lit, refl, trim_suffix, true, ◌==◌, ◌↔◌,
  ◌∷◌, ◌≡◌,
}
use vel.Auth.Scopes.{check_scope, is_http_method, path_matches, scope_allows, split_scope}
use vel.Auth.Scopes.Rules.{Grants, check_scope_iff}

abbrev monitor : List Text
monitor = lit "GET /api/*" ∷ lit "/public" ∷ []

reads_pass : check_scope monitor (lit "GET") (lit "/api/health") ≡ true
unfolding check_scope scope_allows split_scope path_matches is_http_method ◌==◌ cut has_suffix
    has_prefix trim_suffix
reads_pass = refl

writes_fail : check_scope monitor (lit "POST") (lit "/api/health") ≡ false
unfolding check_scope scope_allows split_scope path_matches is_http_method ◌==◌ cut has_suffix
    has_prefix trim_suffix
writes_fail = refl

check_scope_iff_example :
    (check_scope monitor (lit "GET") (lit "/api/health") ≡ true)
    ↔ ((scope : Text) × In scope monitor × Grants (lit "GET") (lit "/api/health") scope)
check_scope_iff_example = check_scope_iff monitor (lit "GET") (lit "/api/health")
