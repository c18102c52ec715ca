-- ===== src/Auth/Providers.antt =====
-- internal/auth/types.go and the files provider_*.go: the interface of a provider, and the providers
-- for API keys and magic links. `W` is what an authentication may change: the database.
mod Tests
pub mod Keys
pub mod Telegram
use vel.Common.{
  Bool, Option, Text, [], has_prefix, if◌then◌else◌, lit, none, some, trim_prefix, ℕ, ◌++◌, ◌∷◌,
}
use vel.Std.Hex.{encode}
use vel.Std.Crypto.{Crypto}
use vel.Store.{Bucket, Codec}
use vel.Auth.Types.{Identity}
use vel.Auth.Request.{Request}
use vel.Auth.Users.{ApiKey, UserRecord, UserStore, find_api_key, find_user_by_id}
use vel.Auth.MagicLinks.{MagicLink, Result, err, ok, validate}

-- The credentials structs of the three providers.
pub data Credentials : Type 0 where
  api_key_credentials : Text → Credentials
  magic_link_credentials : Text → Credentials
  telegram_credentials : Text → Credentials

pub record Provider (W : Type 0) : Type 0 where
  pub name : Text
  pub extract : Request → Option Credentials
  pub authenticate : W → Credentials → Option Identity × W

-- The token of an `Authorization: Bearer` header, and none behind any other scheme.
abbrev pub bearer : Request → Option Text
bearer r =
    let auth_header = r.header (lit "Authorization") in
    if has_prefix auth_header (lit "Bearer ")
    then some (trim_prefix auth_header (lit "Bearer "))
    else none

abbrev api_key_header : Request → Option Credentials
api_key_header r =
    let api_key = r.header (lit "X-API-Key") in
    if has_prefix api_key (lit "vel_ak_") then some (api_key_credentials api_key) else none

unfoldable pub api_key_extract : Request → Option Credentials
api_key_extract r = elim (bearer r) [
  | none ↦ api_key_header r
  | some token ↦
      if has_prefix token (lit "vel_ak_")
      then some (api_key_credentials token)
      else api_key_header r
]

abbrev pub api_key_identity : ApiKey → Identity
api_key_identity k = record {
  user_id = k.id;
  name = k.name;
  provider = lit "api_key";
  role = k.role;
  scopes = k.scopes;
  meta = (lit "key_id", k.id) ∷ (lit "key_name", k.name) ∷ [];
}

unfoldable pub api_key_authenticate : Crypto → UserStore → Credentials → Option Identity
api_key_authenticate c us (api_key_credentials key) =
    elim (find_api_key us (lit "sha256:" ++ encode (c.sum256 key))) [
      | none ↦ none
      | some k ↦ some (api_key_identity k)
    ]
api_key_authenticate c us (magic_link_credentials token) = none
api_key_authenticate c us (telegram_credentials init_data) = none

unfoldable pub api_key_provider : {W : Type 0} → Crypto → UserStore → Provider W
api_key_provider c us = record {
  name = lit "api_key";
  extract = api_key_extract;
  authenticate = λ w creds. (api_key_authenticate c us creds, w);
}

abbrev pub magic_link_identity : UserRecord → Identity
magic_link_identity u = record {
  user_id = u.id;
  name = u.name;
  provider = lit "magic_link";
  role = u.role;
  scopes = [];
  meta = (lit "auth_method", lit "magic_link") ∷ [];
}

module _ (c : Crypto) {V : Type 0} (b : Bucket V) (j : Codec MagicLink V) (us : UserStore) where
  -- The user that a validated link names, if it is in the users file.
  unfoldable pub linked_user : Result Text → Option Identity
  linked_user (err e) = none
  linked_user (ok user_id) = elim (find_user_by_id us user_id) [
    | none ↦ none
    | some u ↦ some (magic_link_identity u)
  ]

  unfoldable pub magic_link_authenticate : Bool → ℕ → b.Db → Credentials → Option Identity × b.Db
  magic_link_authenticate commits now db (magic_link_credentials token) =
      let (result, db') = validate c b j commits now db token in (linked_user result, db')
  magic_link_authenticate commits now db (api_key_credentials key) = (none, db)
  magic_link_authenticate commits now db (telegram_credentials init_data) = (none, db)

  -- It never extracts: /auth/magic has its own handler.
  unfoldable pub magic_link_provider : Bool → ℕ → Provider b.Db
  magic_link_provider commits now = record {
    name = lit "magic_link";
    extract = λ r. none;
    authenticate = magic_link_authenticate commits now;
  }
