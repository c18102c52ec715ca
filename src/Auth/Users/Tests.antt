-- ===== src/Auth/Users/Tests.antt =====
-- Runs of the user store.
use vel.Common.{List, [], arith, lit, none, refl, some, true, ◌==◌, ◌∷◌, ◌≡◌, ◌≢◌}
use vel.Auth.Users.{
  ApiKey, UserRecord, UserStore, add_user, remove_first, remove_user, save_users, add_api_key,
  get_all_api_keys, get_all_users, remove_api_key,
}
use vel.Auth.Users.Records.{IsKeyed}
use vel.Auth.Users.Keys.{HasUniqueKeys}

abbrev karthi : UserRecord
karthi = record {
  id = lit "karthi";
  name = lit "Karthi";
  email = lit "k@example.org";
  role = lit "admin";
  identities = [];
}

abbrev guest : UserRecord
guest = record {
  id = lit "guest";
  name = lit "Guest";
  email = [];
  role = lit "viewer";
  identities = [];
}

abbrev ci_key : ApiKey
ci_key = record {
  id = lit "ak1";
  name = lit "ci";
  key_hash = lit "sha256:00";
  role = lit "viewer";
  scopes = lit "GET /api/*" ∷ [];
  created_by = lit "karthi";
  created_at = [];
}

abbrev holding : List UserRecord → List ApiKey → UserStore
holding users api_keys = record {
  contents = some (record { users = users; api_keys = api_keys });
  last_mod = 5;
  on_disk = some (record { users = users; api_keys = api_keys });
}

abbrev only_karthi : UserStore
only_karthi = holding (karthi ∷ []) []

added : add_user true only_karthi guest ≡ (none, holding (karthi ∷ guest ∷ []) [])
unfolding add_user save_users ◌==◌
added = refl

removed :
    remove_user true (holding (karthi ∷ guest ∷ []) []) (lit "karthi")
    ≡ ((true, none), holding (guest ∷ []) [])
unfolding remove_user save_users remove_first ◌==◌
removed = refl

distinct : lit "guest" ≢ lit "karthi"
distinct e = ground arith

keyed : IsKeyed only_karthi
unfolding get_all_users
keyed = (tt, tt)

IsKeyed-two : IsKeyed (holding (karthi ∷ guest ∷ []) [])
unfolding get_all_users
IsKeyed-two = ((distinct, tt), (tt, tt))

new_guest : lit "karthi" ≢ lit "guest"
new_guest e = ground arith

key_added : add_api_key true only_karthi ci_key ≡ (none, holding (karthi ∷ []) (ci_key ∷ []))
unfolding add_api_key save_users
key_added = refl

key_removed :
    remove_api_key true (holding (karthi ∷ []) (ci_key ∷ [])) (lit "ak1")
    ≡ ((true, none), only_karthi)
unfolding remove_api_key save_users remove_first ◌==◌
key_removed = refl

unique_keys : HasUniqueKeys (get_all_api_keys (holding (karthi ∷ []) (ci_key ∷ [])))
unfolding get_all_api_keys
unique_keys = (tt, tt)
