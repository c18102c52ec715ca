-- ===== src/Auth/Legacy/Tests.antt =====
-- Runs of the legacy login.
use vel.Common.{
  Option, Text, [], arith, cut, false, has_prefix, int_eqb, lit, none, pos, refl, some, true, ◌==◌,
  ◌∷◌, ◌≡◌, ◌≢◌,
}
use vel.Std.Query.{query_unescape}
use vel.Std.Values.{get_value, parse_part, parse_parts, parse_query, split}
use vel.Std.Sample.{checksum}
use vel.Auth.Request.{Request}
use vel.Auth.Tokens.{check_scoped_token, check_tokens}
use vel.Auth.Telegram.{User}
use vel.Auth.Legacy.{
  Settings, allowed_only, check, get_user_from_cookie, is_allowed, scoped_user, user_of_bearer,
  user_of_init_data, user_of_query, validate_token,
}
use vel.Auth.Legacy.Evidence.{Evidence, check-some}

abbrev json : Text → Option User
json t = none

abbrev settings : Settings
settings = record {
  bot_token = lit "bot";
  allowed_users = pos 7 ∷ [];
  cookie_secret = lit "secret";
  auth_mode = lit "telegram";
  auth_token = [];
  scoped_tokens = record { name = lit "ci"; token = lit "t"; scopes = lit "/api/" ∷ [] } ∷ [];
  test_mode = false;
}

abbrev request : Request
request = record {
  method = lit "GET";
  path = lit "/api/x";
  raw_query = lit "token=t";
  header = λ name. [];
  cookie = λ name. none;
  identity = none;
}

scoped : check checksum json settings 100 request ≡ some (scoped_user (lit "ci"))
unfolding check get_user_from_cookie allowed_only user_of_bearer user_of_query validate_token
    has_prefix check_scoped_token check_tokens parse_query parse_parts parse_part split cut
    query_unescape get_value ◌==◌
scoped = refl

outside : check checksum json settings 100 (record request { path = lit "/admin" }) ≡ none
unfolding check get_user_from_cookie allowed_only user_of_bearer user_of_query user_of_init_data
    validate_token has_prefix check_scoped_token check_tokens parse_query parse_parts parse_part
    split cut query_unescape get_value ◌==◌
outside = refl

telegram_mode : lit "telegram" ≢ lit "none"
telegram_mode e = ground arith

check-some_example : Evidence checksum json settings 100 request (scoped_user (lit "ci"))
check-some_example =
    check-some checksum json settings 100 request (scoped_user (lit "ci")) refl telegram_mode scoped

abbrev claimed : User
claimed = record { id = pos 7; first_name = lit "anyone"; username = [] }

listed : is_allowed settings (pos 7) ≡ true
unfolding is_allowed int_eqb ◌==◌
listed = refl
