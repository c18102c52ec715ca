-- ===== src/Auth/Providers/Tests.antt =====
-- Runs of the providers, with the digest of the samples.
use vel.Common.{
  ==_refl, In, List, Option, Text, [], arith, cut, if◌then◌else◌, inl, lit, none, pos, refl, some,
  subst, true, ◌==◌, ◌∷◌, ◌≡◌,
}
use vel.Std.Sample.{checksum}
use vel.Auth.Request.{Request}
use vel.Auth.Users.{
  ApiKey, UserStore, UsersFile, add_api_key, find_api_key, get_all_api_keys, remove_api_key,
  remove_first, save_users, UserRecord, find_user_by_identity, get_all_users,
}
use vel.Auth.Users.Keys.{HasUniqueKeys}
use vel.Auth.Providers.{api_key_provider, telegram_credentials}
use vel.Auth.Providers.Keys.{Carries, hash_of, removed_key_is_refused}
use vel.Auth.Users.{
  UserRecord, find_user_by_identity, get_all_users, ApiKey, UserStore, UsersFile, add_api_key,
  find_api_key, get_all_api_keys, remove_api_key, remove_first, save_users,
}
use vel.Auth.Telegram.{
  User, data_check_string, digits_value, hash_holds, init_data_digest, is_outdated, parse_int,
  parse_magnitude, read_user, validate_init_data, validate_params,
}
use vel.Auth.Telegram.Decimal.{InRange, digits, format_int, format_nat}
use vel.Auth.Telegram.Valid.{IsSigned}
use vel.Auth.Providers.{telegram_credentials, api_key_provider}
use vel.Auth.Providers.Telegram.{
  HasAccount, telegram_authenticate, telegram_identity, telegram_provider, telegram_provider-some,
  telegram_user,
}
use vel.Std.Hex.{byte, decode, digit, digit_value, encode}
use vel.Std.Query.{query_unescape}
use vel.Std.Sort.{insert, sort_slice, text_ltb}
use vel.Std.Values.{
  delete_key, distinct_keys, get_value, join, parse_part, parse_parts, parse_query, sorted_keys,
  split,
}
use vel.Auth.Manager.{try_providers}

abbrev key : ApiKey
key = record {
  id = lit "ak1";
  name = lit "ci";
  key_hash = hash_of checksum (lit "vel_ak_7");
  role = lit "viewer";
  scopes = lit "GET /api/*" ∷ [];
  created_by = lit "karthi";
  created_at = [];
}

abbrev file_of : List ApiKey → UsersFile
file_of keys = record { users = []; api_keys = keys }

abbrev holding : List ApiKey → UserStore
holding keys = record {
  contents = some (file_of keys);
  last_mod = 5;
  on_disk = some (file_of keys);
}

abbrev request : Request
request = record {
  method = lit "GET";
  path = lit "/api/status";
  raw_query = [];
  header = λ name. if name == lit "Authorization" then lit "Bearer vel_ak_7" else [];
  cookie = λ name. none;
  identity = none;
}

carries : Carries request (lit "vel_ak_7")
unfolding ◌==◌
carries = inl refl

nothing_yet : find_api_key (holding []) (hash_of checksum (lit "vel_ak_7")) ≡ none
unfolding find_api_key
nothing_yet = refl

key_added : add_api_key true (holding []) key ≡ (none, holding (key ∷ []))
unfolding add_api_key save_users
key_added = refl

key_found : find_api_key (holding (key ∷ [])) (hash_of checksum (lit "vel_ak_7")) ≡ some key
unfolding find_api_key
key_found = rw (==_refl (hash_of checksum (lit "vel_ak_7"))) refl

key_removed : remove_api_key true (holding (key ∷ [])) (lit "ak1") ≡ ((true, none), holding [])
unfolding remove_api_key save_users remove_first ◌==◌
key_removed = refl

unique_keys : HasUniqueKeys (get_all_api_keys (holding (key ∷ [])))
unfolding get_all_api_keys
unique_keys = (tt, tt)

removed_key_is_refused_example :
    try_providers (api_key_provider {W = Unit} checksum (holding []) ∷ []) tt request
    ≡ try_providers {W = Unit} [] tt request
removed_key_is_refused_example =
    removed_key_is_refused checksum [] (holding (key ∷ [])) (holding []) key true tt request
      (lit "7") unique_keys key_found key_removed carries

abbrev account : User
account = record { id = pos 7; first_name = lit "K"; username = [] }

-- It reads any text as the same user.
abbrev json : Text → Option User
json t = some account

account-InRange : (t : Text) (u : User) → json t ≡ some u → InRange u.id
account-InRange t u e =
    let same : account ≡ u = ground arith in subst (λ x. InRange x.id) same (omega arith)

abbrev karthi : UserRecord
karthi = record {
  id = lit "karthi";
  name = lit "Karthi";
  email = [];
  role = lit "admin";
  identities = record { provider = lit "telegram"; provider_id = lit "7" } ∷ [];
}

abbrev users : UserStore
users = record {
  contents = some (record { users = karthi ∷ []; api_keys = [] });
  last_mod = 5;
  on_disk = none;
}

abbrev init_data : Text
init_data = lit "user=k&auth_date=90&hash=c4"

vouched :
    (telegram_provider checksum (lit "bot") users json 100).authenticate tt
      (telegram_credentials init_data)
    ≡ (some (telegram_identity karthi (lit "7") (lit "K") []), tt)
unfolding telegram_provider telegram_authenticate telegram_user format_int format_nat digits
    find_user_by_identity validate_init_data validate_params init_data_digest hash_holds read_user
    is_outdated parse_int parse_magnitude digits_value data_check_string join sorted_keys
    distinct_keys sort_slice insert text_ltb delete_key get_value parse_query parse_parts parse_part
    split query_unescape cut decode encode byte digit digit_value ◌==◌
vouched = refl

telegram_provider-some_example :
    (d : Text) × (telegram_credentials init_data ≡ telegram_credentials d)
    × ((u : User) × IsSigned checksum (lit "bot") json 100 d u
        × ((rec : UserRecord) × In rec (get_all_users users)
            × HasAccount u rec
            × (lit "karthi" ≡ rec.id)
            × (lit "admin" ≡ rec.role)))
telegram_provider-some_example =
    telegram_provider-some checksum (lit "bot") users json 100 tt tt
      (telegram_credentials init_data) (telegram_identity karthi (lit "7") (lit "K") [])
      account-InRange vouched
