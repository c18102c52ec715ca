-- ===== src/Server/Handlers/Login/Tests.antt =====
-- Runs of the login routes, with the digest of the samples and a short encoding of users.
use vel.Common.{
  All, Option, Text, [], ap, arith, cut, drop, drop-append, false, int_eqb, length, lit, negsuc,
  none, pos, refl, some, suc, take, take-append, true, zero, ℕ, ℤ, ◌++◌, ◌==◌, ◌∷◌, ◌≡◌,
}
use vel.Std.Hex.{IsByte, byte, decode, digit, digit_value, encode}
use vel.Std.Sample.{checksum}
use vel.Std.Query.{query_unescape}
use vel.Std.Values.{
  distinct_keys, get_value, parse_part, parse_parts, parse_query, split, delete_key, join,
  sorted_keys,
}
use vel.Store.{Bucket, Codec}
use vel.Store.Sample.{assoc_bucket, plain_codec}
use vel.Limiter.{allow_in_window, is_recent}
use vel.Auth.Types.{Session}
use vel.Auth.Request.{Request}
use vel.Auth.Users.{UserStore}
use vel.Std.Sort.{insert, sort_slice, text_ltb}
use vel.Auth.Telegram.{
  User, validate_telegram_login, data_check_string, digits_value, hash_holds, is_outdated,
  parse_int, parse_magnitude,
}
use vel.Auth.Legacy.{Settings, is_allowed, admin_user, validate_token}
use vel.Auth.Manager.{AuthManager}
use vel.Server.Limits.{RateLimiter, allow}
use vel.Server.Handlers.{Response}
use vel.Server.Handlers.Magic.{Login, get_client_ip}
use vel.Server.Handlers.Login.{
  auth_token, callback_user, finish_callback, legacy_callback, login_params, refuse_callback,
  telegram_callback, signed_user,
}
use vel.Server.Handlers.Login.Callback.{IsLoggedIn, IsSignedLogin, telegram_callback-location}

abbrev marshal : User → Text
marshal u = elim u.id [
  | pos n ↦ 0 ∷ n ∷ length u.first_name ∷ u.first_name ++ u.username
  | negsuc n ↦ 1 ∷ n ∷ length u.first_name ∷ u.first_name ++ u.username
]

abbrev user_of : ℤ → ℕ → Text → User
user_of id k rest = record { id = id; first_name = take k rest; username = drop k rest }

abbrev unmarshal : Text → Option User
unmarshal [] = none
unmarshal (c ∷ []) = none
unmarshal (c ∷ n ∷ []) = none
unmarshal (zero ∷ n ∷ k ∷ rest) = some (user_of (pos n) k rest)
unmarshal (suc c ∷ n ∷ k ∷ rest) = some (user_of (negsuc n) k rest)

read :
    (id : ℤ) (first_name username : Text)
    → unmarshal (marshal (record { id = id; first_name = first_name; username = username }))
      ≡ some (record { id = id; first_name = first_name; username = username })
read (pos n) f t = ap some (rw (take-append f t, drop-append f t) refl)
read (negsuc n) f t = ap some (rw (take-append f t, drop-append f t) refl)

unmarshal-marshal : (u : User) → unmarshal (marshal u) ≡ some u
unmarshal-marshal u = read u.id u.first_name u.username

abbrev json : Codec User Text
json = record { marshal = marshal; unmarshal = unmarshal; unmarshal-marshal = unmarshal-marshal }

abbrev settings : Text → Settings
settings mode = record {
  bot_token = lit "bot";
  allowed_users = pos 7 ∷ [];
  cookie_secret = lit "secret";
  auth_mode = mode;
  auth_token = lit "master";
  scoped_tokens = [];
  test_mode = false;
}

abbrev sessions : Bucket Session
sessions = assoc_bucket Session

abbrev session_json : Codec Session Session
session_json = plain_codec Session

abbrev limiter : RateLimiter
limiter = record { requests = λ ip. []; max = 10; window = 60; skip_ok = false }

abbrev login : Login
login = record {
  remote = lit "10.0.0.1";
  unicode = λ s. s;
  limited_at = 200;
  created_at = 200;
  dated_at = 200;
  random = none;
  saves = true;
}

abbrev widget : Request
widget = record {
  method = lit "GET";
  path = lit "/auth/telegram/callback";
  raw_query = lit "id=7&first_name=K&auth_date=90&hash=9f";
  header = λ name. [];
  cookie = λ name. none;
  identity = none;
}

abbrev nobody : Option (AuthManager Unit × UserStore)
nobody = none

abbrev called : Response × RateLimiter × sessions.Db
called =
    telegram_callback checksum json (settings (lit "telegram")) sessions session_json nobody login
      100 widget (limiter, [])

sent_on : called.0.location ≡ some (lit "/dashboard")
unfolding telegram_callback finish_callback legacy_callback refuse_callback login_params
    validate_telegram_login is_allowed allow allow_in_window is_recent get_client_ip get_value
    parse_query parse_parts parse_part split query_unescape cut distinct_keys hash_holds decode byte
    digit_value encode digit data_check_string join sorted_keys sort_slice insert text_ltb
    delete_key is_outdated parse_int parse_magnitude digits_value int_eqb ◌==◌
sent_on = refl

telegram_callback-location_example :
    IsSignedLogin checksum (lit "bot") 100 (login_params widget)
    × IsLoggedIn checksum json
        (settings (lit "telegram"))
        sessions
        session_json
        nobody
        login
        []
        (callback_user (login_params widget))
        called.0
        called.2
telegram_callback-location_example =
    telegram_callback-location checksum json (settings (lit "telegram")) sessions session_json
      nobody login 100 widget limiter called.1 [] called.2 called.0 (lit "/dashboard") refl sent_on

abbrev karthi : User
karthi = callback_user (login_params widget)

-- A request that brings the cookie of this user back.
abbrev next : Text → User → Request
next mode u = record widget {
  path = lit "/api/status";
  cookie = λ name. some (signed_user checksum json (settings mode) u).value;
}

abbrev post : Request
post = record widget { method = lit "POST"; path = lit "/auth/token" }

abbrev entered : Response × RateLimiter
entered =
    auth_token checksum json (settings (lit "token")) (lit "10.0.0.1") 200 (lit "master") post
      limiter

well : entered.0.status ≡ 200
unfolding auth_token allow allow_in_window is_recent validate_token ◌==◌
well = refl

entered_cookie :
    entered.0.cookies ≡ signed_user checksum json (settings (lit "token")) admin_user ∷ []
unfolding auth_token allow allow_in_window is_recent validate_token signed_user ◌==◌
entered_cookie = refl

admin-IsText : All IsByte (json.marshal admin_user)
admin-IsText = (
  omega arith,
  (
    omega arith,
    (
      omega arith,
      (
        omega arith,
        (
          omega arith,
          (
            omega arith,
            (
              omega arith,
              (
                omega arith,
                (omega arith, (omega arith, (omega arith, (omega arith, (omega arith, tt))))),
              ),
            ),
          ),
        ),
      ),
    ),
  ),
)
