-- ===== src/Server/Handlers/Tokens/Tests.antt =====
-- Runs of the handler for tokens.
use vel.Common.{
  Option, Text, [], arith, cut, false, has_prefix, if◌then◌else◌, inl, lit, none, refl, some, sym,
  trim_prefix, true, ◌==◌, ◌∙◌, ◌∷◌, ◌≡◌, ◌≢◌,
}
use vel.Std.Hex.{encode, digit}
use vel.Std.Sample.{checksum}
use vel.Auth.Types.{Identity}
use vel.Auth.Request.{Request}
use vel.Auth.Tokens.{init_scoped_tokens, add_scoped_token, generate_random_token}
use vel.Auth.Telegram.{User}
use vel.Std.Query.{query_unescape}
use vel.Std.Values.{get_value, parse_query, parse_parts, parse_part, split}
use vel.Auth.Legacy.{
  allowed_only, check, get_user_from_cookie, is_scoped_user, scoped_user, user_of_bearer,
  validate_token, Settings,
}
use vel.Server.Handlers.{answer, token_made}
use vel.Server.Handlers.Tokens.{
  Handled, update_auth, write_scoped_tokens_to_config, ConfigFile, NewToken, TokenState,
  check_auth_not_scoped, config, post_token, tokens_admin, tokens_handler, no_auth,
}
use vel.Server.Handlers.Tokens.Stored.{IsStored, TokenRequest, run_tokens, run_tokens-IsStored}
use vel.Server.Handlers.Tokens.Use.{CarriesToken, IsFullLogin, handed_out_token_opens}

abbrev json : Text → Option User
json t = none

abbrev settings : Settings
settings = record {
  bot_token = [];
  allowed_users = [];
  cookie_secret = [];
  auth_mode = lit "token";
  auth_token = lit "master";
  scoped_tokens = [];
  test_mode = false;
}

abbrev empty_file : ConfigFile
empty_file = record { others = (lit "port", lit "8080") ∷ []; auth = no_auth }

abbrev before : TokenState
before = record { settings = settings; file = config empty_file }

abbrev karthi : Identity
karthi = record {
  user_id = lit "karthi";
  name = lit "Karthi";
  provider = lit "magic_link";
  role = lit "admin";
  scopes = [];
  meta = [];
}

abbrev post : Request
post = record {
  method = lit "POST";
  path = lit "/api/tokens";
  raw_query = [];
  header = λ name. if name == lit "Authorization" then lit "Bearer master" else [];
  cookie = λ name. none;
  identity = some karthi;
}

abbrev ci : NewToken
ci = record { name = lit "ci"; scopes = lit "/api/" ∷ [] }

abbrev asked : TokenRequest checksum json
asked = record {
  managed = true;
  now = 100;
  random = 171 ∷ [];
  body = some ci;
  body_name = [];
  request = post;
}

nothing-IsStored : IsStored before
unfolding init_scoped_tokens
nothing-IsStored = (empty_file, refl, refl)

run_tokens-IsStored_example : IsStored (
    run_tokens checksum json
      (asked
        ∷ record asked { request = record post { method = lit "DELETE" }; body_name = lit "ci" }
        ∷ [])
      before)
run_tokens-IsStored_example =
    run_tokens-IsStored checksum json
      (asked
        ∷ record asked { request = record post { method = lit "DELETE" }; body_name = lit "ci" }
        ∷ [])
      before nothing-IsStored

abbrev made : Handled
made = tokens_handler checksum json false 100 true (171 ∷ []) (some ci) [] post before

handed_out : made ≡ (some (answer 200 (token_made (lit "ci") (lit "ab"))), made.1)
unfolding tokens_handler check_auth_not_scoped check get_user_from_cookie allowed_only
    user_of_bearer is_scoped_user validate_token has_prefix trim_prefix tokens_admin post_token
    add_scoped_token generate_random_token write_scoped_tokens_to_config update_auth encode digit
    ◌==◌
handed_out = refl

same_mode :
    (made.1.settings.test_mode ≡ false)
    × (made.1.settings.auth_mode ≡ lit "token")
    × (made.1.settings.auth_token ≡ lit "master")
unfolding tokens_handler check_auth_not_scoped check get_user_from_cookie allowed_only
    user_of_bearer is_scoped_user validate_token has_prefix trim_prefix tokens_admin post_token
    add_scoped_token generate_random_token write_scoped_tokens_to_config update_auth encode digit
    ◌==◌
same_mode = (refl, refl, refl)

full : lit "ab" ≢ []
full e = ground arith

token_mode : lit "token" ≢ lit "none"
token_mode e = ground arith

no_master : lit "ab" ≢ lit "master"
no_master e = ground arith

abbrev next : Request
next = record {
  method = lit "GET";
  path = lit "/api/status";
  raw_query = lit "token=ab";
  header = λ name. [];
  cookie = λ name. none;
  identity = none;
}

carries : CarriesToken checksum json next (lit "ab")
unfolding get_value parse_query parse_parts parse_part split query_unescape cut ◌==◌
carries = (refl, refl, refl)

handed_out_token_opens_example :
    IsFullLogin checksum json settings 100 post
    × (lit "ci" ≡ lit "ci")
    × (check checksum json made.1.settings 300 next ≡ some (scoped_user (lit "ci")))
handed_out_token_opens_example =
    handed_out_token_opens checksum json 100 300 true (171 ∷ []) ci [] post next before made.1
      (lit "ci") (lit "ab") (lit "/api/") (lit "status") handed_out full tt (inl refl) same_mode.0
      (λ e. token_mode (sym same_mode.1 ∙ e)) (λ e. no_master (e ∙ same_mode.2)) carries refl
