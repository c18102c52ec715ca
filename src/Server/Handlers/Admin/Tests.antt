-- ===== src/Server/Handlers/Admin/Tests.antt =====
-- Runs of the handlers for users and keys, with the digest of the samples.
use vel.Common.{
  In, Text, [], ap, arith, has_prefix, if◌then◌else◌, inl, inr, lit, none, refl, some, true, ◌==◌,
  ◌∷◌, ◌≡◌, ◌≢◌, ◌⊎◌,
}
use vel.Std.Sample.{checksum}
use vel.Std.Hex.{encode, digit}
use vel.Auth.Types.{Identity, Session}
use vel.Auth.Request.{Request, get_identity}
use vel.Auth.Users.{ApiKey, UserStore, UsersFile, add_api_key, find_api_key, save_users}
use vel.Auth.Providers.{api_key_identity, api_key_provider, Provider}
use vel.Auth.Providers.Keys.{Carries, hash_of}
use vel.Auth.Manager.{AuthManager, authenticate, new_auth_manager, register_provider}
use vel.Store.{Bucket, Codec}
use vel.Store.Sample.{assoc_bucket, plain_codec}
use vel.Auth.Providers.Telegram.{telegram_extract, telegram_provider}
use vel.Server.Handlers.{admin_of, answer, done, key_made}
use vel.Server.Handlers.Admin.{
  KeyMaking, NewKey, delete_key, keys_admin, keys_handler, make_key, new_key, plain_key, post_key,
  users_handler,
}
use vel.Server.Handlers.Admin.Access.{IsChange, handed_out_key_authenticates, only_admins_write}
use vel.Server.Handlers.Admin.Revoked.{reused_name_survives}

abbrev no_keys : UsersFile
no_keys = record { users = []; api_keys = [] }

abbrev store : UserStore
store = record { contents = some no_keys; last_mod = 5; on_disk = none }

abbrev admin : Identity
admin = record {
  user_id = lit "karthi";
  name = lit "Karthi";
  provider = lit "magic_link";
  role = lit "admin";
  scopes = [];
  meta = [];
}

abbrev ci : NewKey
ci = record { name = lit "ci"; role = []; scopes = lit "GET /api/*" ∷ [] }

abbrev making : KeyMaking
making = record { writes = true; random = some (171 ∷ []); date = lit "2026-01-02" }

-- A POST of an administrator.
abbrev post : Request
post = record {
  method = lit "POST";
  path = lit "/api/auth/keys";
  raw_query = [];
  header = λ name. [];
  cookie = λ name. none;
  identity = some admin;
}

only_admins_write_example :
    (((users_handler true (some store) none post).1 ≡ some store) ⊎ IsChange post)
    × (((keys_handler checksum making (some store) (some ci) post).1 ≡ some store) ⊎ IsChange post)
only_admins_write_example = only_admins_write checksum true making (some store) none (some ci) post

abbrev key : ApiKey
key = new_key checksum admin ci (171 ∷ []) (lit "2026-01-02")

abbrev after : UserStore
after = record {
  contents = some (record { users = []; api_keys = key ∷ [] });
  last_mod = 5;
  on_disk = some (record { users = []; api_keys = key ∷ [] });
}

abbrev plain : Text
plain = lit "vel_ak_live_ab"

key_is_made :
    keys_handler checksum making (some store) (some ci) post
    ≡ (answer 200 (key_made plain (lit "ci")), some after)
unfolding keys_handler keys_admin post_key make_key plain_key admin_of get_identity add_api_key
    save_users encode digit ◌==◌
key_is_made = refl

unheld : find_api_key store (hash_of checksum plain) ≡ none
unfolding find_api_key
unheld = refl

abbrev next : Request
next = record {
  method = lit "GET";
  path = lit "/api/status";
  raw_query = [];
  header = λ name. if name == lit "X-API-Key" then plain else [];
  cookie = λ name. none;
  identity = none;
}

carries : Carries next plain
unfolding ◌==◌ has_prefix
carries = inr (refl, refl)

abbrev sessions : Bucket Session
sessions = assoc_bucket Session

abbrev json : Codec Session Session
json = plain_codec Session

abbrev telegram : Provider Unit
telegram = telegram_provider checksum (lit "bot") after (λ t. none) 7

-- The manager as the binary sets it up: Telegram in front of the API keys.
abbrev manager : AuthManager Unit
manager =
    register_provider (register_provider (new_auth_manager 168 []) telegram)
      (api_key_provider checksum after)

order : manager.providers ≡ telegram ∷ api_key_provider checksum after ∷ []
unfolding register_provider new_auth_manager
order = refl

telegram_skips : (p : Provider Unit) → In p (telegram ∷ []) → p.extract next ≡ none
unfolding telegram_provider telegram_extract has_prefix ◌==◌
telegram_skips p (inl e) = ap (λ q. q.extract next) e
telegram_skips p (inr i) = absurd i

handed_out_key_authenticates_example :
    (id : Identity) × (get_identity post ≡ some id)
    × (id.role ≡ lit "admin")
    × ((k : ApiKey) × (authenticate sessions json manager true 5 6 [] tt next
          ≡ (some (api_key_identity k, none), [], tt))
        × (k.name ≡ lit "ci")
        × (k.role ≡ lit "viewer")
        × (k.scopes ≡ lit "GET /api/*" ∷ [])
        × (k.created_by ≡ id.user_id))
unfolding ◌==◌
handed_out_key_authenticates_example =
    handed_out_key_authenticates sessions json manager true 5 6 [] tt (telegram ∷ []) [] checksum
      making store after ci post next plain (lit "ci") key_is_made unheld order telegram_skips refl
      carries

named : lit "ci" ≢ []
named e = ground arith

reused_name_survives_example :
    let first = make_key checksum making store admin ci in
    let second = make_key checksum (record making { random = some (172 ∷ []) }) first.1 admin ci in
    let third = delete_key true second.1 (lit "ci") in
    (first.0 ≡ answer 200 (key_made (plain_key (171 ∷ [])) (lit "ci")))
    × (second.0 ≡ answer 200 (key_made (plain_key (172 ∷ [])) (lit "ci")))
    × (third.0 ≡ answer 200 done)
    × (find_api_key third.1 (new_key checksum admin ci (172 ∷ []) (lit "2026-01-02")).key_hash
        ≡ some (new_key checksum admin ci (172 ∷ []) (lit "2026-01-02")))
reused_name_survives_example =
    reused_name_survives checksum no_keys 5 none admin admin ci ci (171 ∷ []) (172 ∷ [])
      (lit "2026-01-02") (lit "2026-01-02") refl named refl refl
