-- ===== src/Auth/Scopes.antt =====
-- internal/auth/scopes.go: the scopes of an API key against a request's method and path.
pub mod Rules
mod Tests
use vel.Common.{
  Bool, List, Text, [], any, cut, false, has_prefix, has_suffix, if◌then◌else◌, lit, none, not,
  some, trim_suffix, true, ◌&&◌, ◌==◌, ◌∷◌,
}

abbrev pub http_methods : List Text
http_methods =
    lit "GET"
    ∷ lit "POST"
    ∷ lit "PUT"
    ∷ lit "PATCH"
    ∷ lit "DELETE"
    ∷ lit "HEAD"
    ∷ lit "OPTIONS"
    ∷ []

unfoldable pub is_http_method : Text → Bool
is_http_method s = any (λ m. s == m) http_methods

-- The locals `scopeMethod` and `scopePath` after the split at the first space.
unfoldable pub split_scope : Text → Text × Text
split_scope scope = elim (cut b' ' scope) [
  | none ↦ ([], scope)
  | some (candidate, rest) ↦
      if not (candidate == []) && is_http_method candidate then (candidate, rest) else ([], scope)
]

-- The tests of `path` against `scopePath`.
unfoldable pub path_matches : Text → Text → Bool
path_matches scope_path path =
    if has_suffix scope_path (lit "/*")
    then has_prefix path (trim_suffix scope_path (lit "/*"))
    else path == scope_path

-- One round of the loop: does this scope return `true`?
unfoldable pub scope_allows : Text → Text → Text → Bool
scope_allows method path scope =
    if scope == lit "*"
    then true
    else let (scope_method, scope_path) = split_scope scope in
      if not (scope_method == []) && not (scope_method == method)
      then false
      else path_matches scope_path path

unfoldable pub check_scope : List Text → Text → Text → Bool
check_scope scopes method path = any (scope_allows method path) scopes
