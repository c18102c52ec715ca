-- ===== src/Auth/Tokens.antt =====
-- internal/auth/auth.go: the scoped tokens that the server keeps in memory. A call that takes the
-- lock is one step on the list `scopedTokens`.
pub mod Names
pub mod Access
pub mod Mask
mod Tests
use vel.Common.{
  Bool, List, Option, Text, [], any, drop, false, has_prefix, if◌then◌else◌, leb, length, map, none,
  some, take, true, ℕ, ◌++◌, ◌-◌, ◌==◌, ◌∷◌,
}
use vel.Std.Hex.{encode}

pub record ScopedToken : Type 0 where
  pub name : Text
  pub token : Text
  pub scopes : List Text

-- `InitScopedTokens` replaces the list by a copy.
unfoldable pub init_scoped_tokens : List ScopedToken → List ScopedToken
init_scoped_tokens tokens = tokens

-- Four bytes on either side of four bullets (U+2022, three bytes each).
abbrev pub bullets : Text
bullets = 0xe2 ∷ 0x80 ∷ 0xa2 ∷ 0xe2 ∷ 0x80 ∷ 0xa2 ∷ 0xe2 ∷ 0x80 ∷ 0xa2 ∷ 0xe2 ∷ 0x80 ∷ 0xa2 ∷ []

unfoldable pub mask_scoped_token : Text → Text
mask_scoped_token t =
    if leb (length t) 8 then bullets else take 4 t ++ (bullets ++ drop (length t - 4) t)

unfoldable pub masked : ScopedToken → ScopedToken
masked t = record { name = t.name; token = mask_scoped_token t.token; scopes = t.scopes }

unfoldable pub get_scoped_tokens : List ScopedToken → List ScopedToken
get_scoped_tokens tokens = map masked tokens

unfoldable pub get_scoped_tokens_full : List ScopedToken → List ScopedToken
get_scoped_tokens_full tokens = tokens

-- The first `length` digits of as many random bytes.
unfoldable pub generate_random_token : ℕ → Text → Text
generate_random_token n random = take n (encode random)

-- `random` holds the 32 bytes that the call reads. `none` is the error of a name that is taken.
unfoldable pub add_scoped_token :
    List ScopedToken → Text → List Text → Text → Option (Text × List ScopedToken)
add_scoped_token tokens name scopes random =
    if any (λ t. t.name == name) tokens
    then none
    else let token = generate_random_token 32 random in
      some (token, tokens ++ record { name = name; token = token; scopes = scopes } ∷ [])

-- The loop drops the first token of that name.
unfoldable pub remove_scoped_token : List ScopedToken → Text → Bool × List ScopedToken
remove_scoped_token [] name = (false, [])
remove_scoped_token (t ∷ ts) name =
    let rest = remove_scoped_token ts name in
    if t.name == name then (true, ts) else (rest.0, t ∷ rest.1)

-- The loop: the first token that is equal decides.
unfoldable pub check_tokens : List ScopedToken → Text → Text → Text
check_tokens [] token path = []
check_tokens (t ∷ ts) token path =
    if t.token == token
    then if any (λ scope. has_prefix path scope) t.scopes then t.name else []
    else check_tokens ts token path

unfoldable pub check_scoped_token : List ScopedToken → Text → Text → Text
check_scoped_token tokens token path = if token == [] then [] else check_tokens tokens token path
