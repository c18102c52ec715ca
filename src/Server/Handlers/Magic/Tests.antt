-- ===== src/Server/Handlers/Magic/Tests.antt =====
-- Runs of the handlers for login links, with the digest of the samples.
use vel.Common.{
  ==_iff, Bool-cases, List, Text, [], arith, contains, cut, false, has_prefix, inl, inr, lit, none,
  refl, some, sym, true, ℕ, ◌==◌, ◌∷◌, ◌≡◌,
}
use vel.Std.Sample.{checksum}
use vel.Std.Hex.{encode, digit}
use vel.Std.Values.{get_value, parse_query, parse_parts, parse_part, split}
use vel.Std.Query.{query_unescape}
use vel.Store.{Bucket, Codec, put_tx}
use vel.Store.Sample.{assoc_bucket, plain_codec}
use vel.Limiter.{allow_in_window, is_recent}
use vel.Auth.Types.{Session}
use vel.Auth.Request.{Request}
use vel.Auth.Sessions.{save}
use vel.Auth.Users.{UserRecord, UserStore, find_user_by_id, to_lower}
use vel.Auth.MagicLinks.{
  Creation, MagicLink, examine, find_link, hash_token, last_link, mark_if_ok, mark_used, pick_link,
  validate,
}
use vel.Auth.MagicLinks.Valid.{IsSole}
use vel.Auth.Providers.{linked_user, magic_link_authenticate, magic_link_provider}
use vel.Auth.Manager.{AuthManager, create_session, get_provider, new_session}
use vel.Server.Limits.{RateLimiter, allow}
use vel.Server.Handlers.{Response, query}
use vel.Server.Handlers.Magic.{
  Login, Logins, after_provider, answer_login, auth_magic, get_client_ip, is_bot, log_in, open_link,
  safe_redirect, use_link,
}
use vel.Server.Handlers.Magic.Evidence.{RestsOnLink, auth_magic-location}
use vel.Server.Handlers.Magic.Once.{HasLinks, one_login_per_link}
use vel.Server.Handlers.Links.{Arrival, MailConfig, magic_link_request}
use vel.Server.Handlers.Links.Mail.{responses_tell_nothing}

abbrev links : Bucket MagicLink
links = assoc_bucket MagicLink

abbrev link_json : Codec MagicLink MagicLink
link_json = plain_codec MagicLink

abbrev sessions : Bucket Session
sessions = assoc_bucket Session

abbrev json : Codec Session Session
json = plain_codec Session

abbrev karthi : UserRecord
karthi = record {
  id = lit "karthi";
  name = lit "Karthi";
  email = lit "k@vel.dev";
  role = lit "admin";
  identities = [];
}

abbrev users : UserStore
users = record {
  contents = some (record { users = karthi ∷ []; api_keys = [] });
  last_mod = 1;
  on_disk = none;
}

-- The link of the token `vel_ml_ab`, whose bytes add up to 929.
abbrev link : MagicLink
link = record {
  id = lit "01";
  token_hash = lit "sha256:a1";
  user_id = lit "karthi";
  expires_at = 1000;
  used = false;
  created_at = 101;
}

abbrev one_link : List (Text × MagicLink)
one_link = (lit "01", link) ∷ []

abbrev manager : ℕ → AuthManager (List (Text × MagicLink))
manager now = record {
  providers = magic_link_provider checksum links link_json users true now ∷ [];
  max_age = 100;
  cookie_name = lit "vel_session";
}

abbrev limiter : RateLimiter
limiter = record { requests = λ ip. []; max = 10; window = 60; skip_ok = false }

abbrev login : Login
login = record {
  remote = lit "10.0.0.1";
  unicode = λ s. s;
  limited_at = 200;
  created_at = 200;
  dated_at = 200;
  random = some (171 ∷ []);
  saves = true;
}

abbrev click : Request
click = record {
  method = lit "GET";
  path = lit "/auth/magic";
  raw_query = lit "ml_token=vel_ml_ab&redirect=/panels";
  header = λ name. [];
  cookie = λ name. none;
  identity = none;
}

abbrev before : Logins (List (Text × Session)) (List (Text × MagicLink))
before = record { limiter = limiter; sessions = []; providers = one_link }

abbrev answer : Response × Logins (List (Text × Session)) (List (Text × MagicLink))
answer = auth_magic sessions json (some (manager 200)) login click before

has_provider : HasLinks checksum sessions json links link_json users (manager 200) true 200
unfolding get_provider magic_link_provider ◌==◌
has_provider = refl

has_provider_again : HasLinks checksum sessions json links link_json users (manager 300) true 300
unfolding get_provider magic_link_provider ◌==◌
has_provider_again = refl

token : query click (lit "ml_token") ≡ lit "vel_ml_ab"
unfolding query get_value parse_query parse_parts parse_part split query_unescape cut ◌==◌
token = refl

sent_on : answer.0.location ≡ some (lit "/panels")
unfolding auth_magic open_link use_link after_provider log_in answer_login safe_redirect allow
    allow_in_window is_recent get_client_ip is_bot to_lower get_provider magic_link_provider
    magic_link_authenticate linked_user find_user_by_id validate mark_if_ok mark_used examine
    find_link last_link pick_link put_tx hash_token encode digit create_session new_session save
    query get_value parse_query parse_parts parse_part split query_unescape cut contains has_prefix
    ◌==◌
sent_on = refl

sole : IsSole checksum links link_json one_link (query click (lit "ml_token")) (lit "01")
sole k ml h t = elim (Bool-cases (lit "01" == k)) [
  | inl same ↦ sym ((==_iff (lit "01") k).0 same)
  | inr other ↦ absurd (ground arith)
]

auth_magic-location_example :
    (is_bot (λ s. s) [] ≡ false)
    × RestsOnLink sessions json
        (manager 200)
        login
        click
        (record before { limiter = (allow limiter (get_client_ip (lit "10.0.0.1") click) 200).1 })
        answer.0
        answer.1
        (lit "/panels")
auth_magic-location_example =
    auth_magic-location sessions json (manager 200) login click before answer.1 answer.0
      (lit "/panels") refl sent_on

one_login_per_link_example :
    (auth_magic sessions json
      (some (manager 300))
      (record login { remote = lit "10.0.0.2" })
      click
      (record before { providers = answer.1.providers })).0.location
    ≡ none
one_login_per_link_example =
    one_login_per_link checksum sessions json links link_json users (manager 200) (manager 300) true
      true 200 300 has_provider has_provider_again login (record login { remote = lit "10.0.0.2" })
      click click before answer.1 (record before { providers = answer.1.providers }) answer.0
      (lit "/panels") (lit "01") sole refl sent_on refl refl

abbrev mail : MailConfig
mail = record { enabled = true; minutes = 15; himalaya = true }

abbrev creation : Creation
creation = record {
  checked_at = 99;
  token_bytes = some (171 ∷ []);
  id_bytes = some (1 ∷ []);
  dated_at = 100;
  created_at = 101;
  commits = true;
}

abbrev ask : Request
ask = record click { method = lit "POST"; path = lit "/api/auth/magic-link/request" }

abbrev arrival : Arrival
arrival = record { remote = lit "10.0.0.1"; unicode = λ s. s; limited_at = 200 }

abbrev asked : Text → Response
asked email =
    (magic_link_request checksum links link_json arrival mail creation (some users) ask (some email)
      limiter (some ((λ user. []), []))).0

responses_tell_nothing_example : asked (lit "k@vel.dev") ≡ asked (lit "x@vel.dev")
responses_tell_nothing_example =
    responses_tell_nothing checksum links link_json mail arrival arrival creation creation users
      users ask ask (some (lit "k@vel.dev")) (some (lit "x@vel.dev")) limiter limiter
      ((λ user. []), []) ((λ user. []), []) refl
