-- ===== src/Auth/Providers/Keys.antt =====
-- API keys from the header to the identity.
use vel.Common.{
  ==_refl, Bool, List, Text, ap, arith, has_prefix, has_prefix-append, inl, inr, lit, none, refl,
  some, sym, trim_prefix-append, true, ◌++◌, ◌∙◌, ◌∷◌, ◌≡◌, ◌⊎◌,
}
use vel.Std.Hex.{encode}
use vel.Std.Crypto.{Crypto}
use vel.Auth.Types.{Identity}
use vel.Auth.Request.{Request}
use vel.Auth.Users.{ApiKey, UserStore, add_api_key, find_api_key, get_all_api_keys, remove_api_key}
use vel.Auth.Users.Keys.{HasUniqueKeys, add_api_key_success, hide, remove_api_key_success}
use vel.Auth.Providers.{
  api_key_credentials, api_key_extract, bearer, Credentials, Provider, api_key_authenticate,
  api_key_identity, api_key_provider,
}
use vel.Auth.Manager.{try_providers}

-- The stored hash of a key.
abbrev pub hash_of : Crypto → Text → Text
hash_of c key = lit "sha256:" ++ encode (c.sum256 key)

-- The request carries the key, as a bearer token or in its own header.
abbrev pub Carries : Request → Text → Type 0
Carries r key =
    (r.header (lit "Authorization") ≡ lit "Bearer " ++ key)
    ⊎ ((bearer r ≡ none) × (r.header (lit "X-API-Key") ≡ key))

bearer-some :
    (r : Request) (key : Text)
    → r.header (lit "Authorization") ≡ lit "Bearer " ++ key
    → bearer r ≡ some key
bearer-some r key e =
    rw (e, has_prefix-append (lit "Bearer ") key, trim_prefix-append (lit "Bearer ") key) refl

extract-bearer :
    (r : Request) (key : Text)
    → bearer r ≡ some key
    → has_prefix key (lit "vel_ak_") ≡ true
    → api_key_extract r ≡ some (api_key_credentials key)
unfolding api_key_extract
extract-bearer r key e h = ground arith

extract-header :
    (r : Request) (key : Text)
    → bearer r ≡ none
    → r.header (lit "X-API-Key") ≡ key
    → has_prefix key (lit "vel_ak_") ≡ true
    → api_key_extract r ≡ some (api_key_credentials key)
unfolding api_key_extract
extract-header r key e k h = ground arith

extract-Carries :
    (r : Request) (rest : Text)
    → Carries r (lit "vel_ak_" ++ rest)
    → api_key_extract r ≡ some (api_key_credentials (lit "vel_ak_" ++ rest))
extract-Carries r rest (inl e) =
    extract-bearer r (lit "vel_ak_" ++ rest) (bearer-some r (lit "vel_ak_" ++ rest) e)
      (has_prefix-append (lit "vel_ak_") rest)
extract-Carries r rest (inr (none_there, e)) =
    extract-header r (lit "vel_ak_" ++ rest) none_there e (has_prefix-append (lit "vel_ak_") rest)

-- The answer of the API-key provider to the credentials of a key.
authenticate-key :
    (c : Crypto) (us : UserStore) (key : Text)
    → api_key_authenticate c us (api_key_credentials key)
      ≡ elim (find_api_key us (hash_of c key)) [ none ↦ none | some k ↦ some (api_key_identity k) ]
unfolding api_key_authenticate
authenticate-key c us key = refl

try-api_key :
    {W : Type 0} (c : Crypto) (us : UserStore) (ps : List (Provider W)) (w : W) (r : Request)
    (creds : Credentials) (id : Identity)
    → api_key_extract r ≡ some creds
    → api_key_authenticate c us creds ≡ some id
    → try_providers (api_key_provider c us ∷ ps) w r ≡ (some id, w)
unfolding try_providers api_key_provider
try-api_key c us ps w r creds id e h = ground arith

pass_on-api_key :
    {W : Type 0} (c : Crypto) (us : UserStore) (ps : List (Provider W)) (w : W) (r : Request)
    (creds : Credentials)
    → api_key_extract r ≡ some creds
    → api_key_authenticate c us creds ≡ none
    → try_providers (api_key_provider c us ∷ ps) w r ≡ try_providers ps w r
unfolding try_providers api_key_provider
pass_on-api_key c us ps w r creds e h = ground arith

module _ {W : Type 0} (c : Crypto) (ps : List (Provider W)) where
  -- A key that AddAPIKey has stored authenticates every request that carries it, in either header,
  -- with the role and the scopes it was stored with; where no earlier key has the same hash.
  pub added_key_authenticates :
      (us us' : UserStore) (k : ApiKey) (writes : Bool) (w : W) (r : Request) (rest : Text)
      → k.key_hash ≡ hash_of c (lit "vel_ak_" ++ rest)
      → find_api_key us k.key_hash ≡ none
      → add_api_key writes us k ≡ (none, us')
      → Carries r (lit "vel_ak_" ++ rest)
      → try_providers (api_key_provider c us' ∷ ps) w r ≡ (some (api_key_identity k), w)
  added_key_authenticates us us' k writes w r rest hash_e fresh added carries =
      let key = lit "vel_ak_" ++ rest in
      let (found, _) = add_api_key_success us us' k writes k.key_hash added in
      let held : find_api_key us' (hash_of c key) ≡ some k =
        ap (find_api_key us') (sym hash_e) ∙ found ∙ rw (fresh, ==_refl k.key_hash) refl in
      try-api_key c us' ps w r (api_key_credentials key) (api_key_identity k)
        (extract-Carries r rest carries) (authenticate-key c us' key ∙ rw held refl)

  -- Once RemoveAPIKey has taken a key away, a request that carries it is left to the providers that
  -- follow; where no two keys share an id or a hash.
  pub removed_key_is_refused :
      (us us' : UserStore) (k : ApiKey) (writes : Bool) (w : W) (r : Request) (rest : Text)
      → HasUniqueKeys (get_all_api_keys us)
      → find_api_key us (hash_of c (lit "vel_ak_" ++ rest)) ≡ some k
      → remove_api_key writes us k.id ≡ ((true, none), us')
      → Carries r (lit "vel_ak_" ++ rest)
      → try_providers (api_key_provider c us' ∷ ps) w r ≡ try_providers ps w r
  removed_key_is_refused us us' k writes w r rest unique held removed carries =
      let key = lit "vel_ak_" ++ rest in
      let (found, _) = remove_api_key_success us us' k.id writes (hash_of c key) unique removed in
      let gone : find_api_key us' (hash_of c key) ≡ none =
        found ∙ ap (hide k.id) held ∙ rw (==_refl k.id) refl in
      pass_on-api_key c us' ps w r (api_key_credentials key) (extract-Carries r rest carries)
        (authenticate-key c us' key ∙ rw gone refl)
