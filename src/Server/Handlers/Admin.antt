-- ===== src/Server/Handlers/Admin.antt =====
-- internal/server/server.go: /api/auth/users and /api/auth/keys.
pub mod Access
pub mod Revoked
mod Tests
use vel.Common.{Bool, List, Option, Text, [], if◌then◌else◌, lit, map, none, some, ◌++◌, ◌==◌, ◌||◌}
use vel.Std.Hex.{encode}
use vel.Std.Crypto.{Crypto}
use vel.Auth.Types.{Identity}
use vel.Auth.Request.{Request}
use vel.Auth.Users.{
  ApiKey, Error, UserIdentity, UserRecord, UserStore, add_api_key, add_user, get_all_api_keys,
  get_all_users, remove_api_key, remove_user,
}
use vel.Server.Handlers.{
  Body, Response, SafeKey, admin_of, answer, done, key_list, key_made, query, refusal, store_error,
  user_list, user_made,
}

-- The bodies of the two POST requests.
pub record NewUser : Type 0 where
  pub id : Text
  pub name : Text
  pub email : Text
  pub role : Text
  pub identities : List UserIdentity

pub record NewKey : Type 0 where
  pub name : Text
  pub role : Text
  pub scopes : List Text

abbrev pub user_of : NewUser → UserRecord
user_of b = record {
  id = b.id;
  name = b.name;
  email = b.email;
  role = if b.role == [] then lit "user" else b.role;
  identities = b.identities;
}

-- `err != nil` is a conflict.
abbrev pub saved : Body → Option Error × UserStore → Response × UserStore
saved body (none, us) = (answer 200 body, us)
saved body (some e, us) = (answer 409 store_error, us)

-- The end of the DELETE cases.
abbrev pub removed : Text → (Bool × Option Error) × UserStore → Response × UserStore
removed message ((found, some e), us) = (answer 500 store_error, us)
removed message ((found, none), us) = (if found then answer 200 done else refusal 404 message, us)

unfoldable pub post_user : Bool → UserStore → Option NewUser → Response × UserStore
post_user writes us none = (refusal 400 (lit "invalid request body"), us)
post_user writes us (some b) =
    if b.id == [] || b.name == []
    then (refusal 400 (lit "id and name are required"), us)
    else saved (user_made (user_of b)) (add_user writes us (user_of b))

unfoldable pub delete_user : Bool → UserStore → Text → Response × UserStore
delete_user writes us id =
    if id == []
    then (refusal 400 (lit "id query parameter required"), us)
    else removed (lit "user not found") (remove_user writes us id)

unfoldable pub users_admin : Bool → UserStore → Option NewUser → Request → Response × UserStore
users_admin writes us body r =
    if r.method == lit "GET"
    then (answer 200 (user_list (get_all_users us)), us)
    else if r.method == lit "POST"
    then post_user writes us body
    else if r.method == lit "DELETE"
    then delete_user writes us (query r (lit "id"))
    else (refusal 405 (lit "Method not allowed"), us)

-- What a handler does to a store that is there; without one there is no AuthManager.
abbrev pub on_store : Response × UserStore → Response × Option UserStore
on_store (response, us) = (response, some us)

unfoldable pub users_handler :
    Bool → Option UserStore → Option NewUser → Request → Response × Option UserStore
users_handler writes none body r = (refusal 500 (lit "auth not configured"), none)
users_handler writes (some us) body r = elim (admin_of r) [
  | none ↦ (refusal 403 (lit "Forbidden"), some us)
  | some id ↦ on_store (users_admin writes us body r)
]

abbrev pub safe_key : ApiKey → SafeKey
safe_key k = record {
  id = k.id;
  name = k.name;
  role = k.role;
  scopes = k.scopes;
  created_by = k.created_by;
  created_at = k.created_at;
}

-- The outcome of the write, the 32 random bytes and the date of a POST of a key.
pub record KeyMaking : Type 0 where
  pub writes : Bool
  pub random : Option Text
  pub date : Text

unfoldable pub plain_key : Text → Text
plain_key bytes = lit "vel_ak_live_" ++ encode bytes

unfoldable pub new_key : Crypto → Identity → NewKey → Text → Text → ApiKey
new_key c id b bytes date = record {
  id = b.name;
  name = b.name;
  key_hash = lit "sha256:" ++ encode (c.sum256 (plain_key bytes));
  role = if b.role == [] then lit "viewer" else b.role;
  scopes = b.scopes;
  created_by = id.user_id;
  created_at = date;
}

unfoldable pub make_key : Crypto → KeyMaking → UserStore → Identity → NewKey → Response × UserStore
make_key c e us id b = elim e.random [
  | none ↦ (refusal 500 (lit "key generation failed"), us)
  | some bytes ↦
      saved (key_made (plain_key bytes) b.name)
        (add_api_key e.writes us (new_key c id b bytes e.date))
]

unfoldable pub post_key :
    Crypto → KeyMaking → UserStore → Identity → Option NewKey → Response × UserStore
post_key c e us id none = (refusal 400 (lit "invalid request body"), us)
post_key c e us id (some b) =
    if b.name == [] then (refusal 400 (lit "name is required"), us) else make_key c e us id b

unfoldable pub delete_key : Bool → UserStore → Text → Response × UserStore
delete_key writes us id =
    if id == []
    then (refusal 400 (lit "id query parameter required"), us)
    else removed (lit "API key not found") (remove_api_key writes us id)

unfoldable pub keys_admin :
    Crypto → KeyMaking → UserStore → Identity → Option NewKey → Request → Response × UserStore
keys_admin c e us id body r =
    if r.method == lit "GET"
    then (answer 200 (key_list (map safe_key (get_all_api_keys us))), us)
    else if r.method == lit "POST"
    then post_key c e us id body
    else if r.method == lit "DELETE"
    then delete_key e.writes us (query r (lit "id"))
    else (refusal 405 (lit "Method not allowed"), us)

unfoldable pub keys_handler :
    Crypto → KeyMaking → Option UserStore → Option NewKey → Request → Response × Option UserStore
keys_handler c e none body r = (refusal 500 (lit "auth not configured"), none)
keys_handler c e (some us) body r = elim (admin_of r) [
  | none ↦ (refusal 403 (lit "Forbidden"), some us)
  | some id ↦ on_store (keys_admin c e us id body r)
]
