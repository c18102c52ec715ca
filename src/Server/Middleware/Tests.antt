-- ===== src/Server/Middleware/Tests.antt =====
-- Runs of the chain, over an association list and with one provider.
use vel.Common.{
  List, [], arith, contains, false, has_prefix, if◌then◌else◌, inl, inr, lit, none, refl, some,
  true, ℕ, ◌==◌, ◌∷◌, ◌≡◌, ◌≢◌, ◌⊎◌,
}
use vel.Std.Hex.{digit, encode}
use vel.Store.{Bucket, Codec, put_tx}
use vel.Store.Sample.{assoc_bucket, plain_codec}
use vel.Auth.Types.{Identity, Session, is_expired}
use vel.Auth.Request.{Request, get_identity, set_identity}
use vel.Auth.Sessions.{view, drop_expired, get, save}
use vel.Auth.Sessions.Live.{Call, cleans, gets, run}
use vel.Auth.Providers.{Provider, telegram_credentials}
use vel.Auth.Manager.{
  AuthManager, authenticate, create_session, get_session, loaded_from, new_session, try_providers,
  usable_session,
}
use vel.Server.Paths.{is_public_path, is_browser_request}
use vel.Server.Middleware.{
  Cookie, Passage, set_session_cookie, auth_chain, auth_middleware, login_cookie, login_redirect,
  passes, redirects, require_auth_paths, session_middleware, unauthorized,
}
use vel.Server.Middleware.Origin.{HoldsSession, Vouches}
use vel.Server.Middleware.Gate.{auth_chain-passes, auth_chain-stops}
use vel.Server.Middleware.Login.{login_lasts}

abbrev sessions : Bucket Session
sessions = assoc_bucket Session

abbrev json : Codec Session Session
json = plain_codec Session

abbrev karthi : Identity
karthi = record {
  user_id = lit "karthi";
  name = lit "Karthi";
  provider = lit "telegram";
  role = lit "viewer";
  scopes = [];
  meta = [];
}

-- It accepts any request with initial data in its header.
abbrev telegram : Provider Unit
telegram = record {
  name = lit "telegram";
  extract = λ r.
      if r.header (lit "X-Telegram-Init-Data") == [] then none else some (telegram_credentials []);
  authenticate = λ w creds. (some karthi, w);
}

abbrev manager : AuthManager Unit
manager = record { providers = telegram ∷ []; max_age = 100; cookie_name = lit "vel_session" }

abbrev passage : ℕ → Passage
passage now = record {
  looked_at = now;
  tested_at = now;
  looked_again_at = now;
  tested_again_at = now;
  created_at = now;
  dated_at = now;
  random = some (0x0a ∷ []);
  drops = true;
  drops_again = true;
  saves = true;
}

abbrev plain : Request
plain = record {
  method = lit "GET";
  path = lit "/api/status";
  raw_query = [];
  header = λ name. [];
  cookie = λ name. none;
  identity = none;
}

abbrev from_telegram : Request
from_telegram = record plain {
  header = λ name. if name == lit "X-Telegram-Init-Data" then lit "data" else [];
}

abbrev with_cookie : Request
with_cookie = record plain {
  cookie = λ name. if name == lit "vel_session" then some (lit "0a") else none;
}

abbrev session : Session
session = record {
  id = lit "0a";
  identity = karthi;
  created_at = 10;
  expires_at = 110;
  values = [];
}

abbrev cookie : Cookie
cookie = set_session_cookie manager (lit "0a")

closed : is_public_path [] (lit "/api/status") ≡ false
unfolding is_public_path has_prefix ◌==◌
closed = refl

chain_passes :
    (auth_chain sessions json manager [] (passage 50) ((lit "0a", session) ∷ []) tt with_cookie).0
    ≡ passes (set_identity with_cookie karthi)
unfolding auth_chain session_middleware auth_middleware require_auth_paths get_session
    usable_session is_expired loaded_from get view drop_expired get_identity set_identity
    is_public_path has_prefix ◌==◌
chain_passes = refl

logged_in :
    auth_middleware sessions json manager (passage 10) [] tt from_telegram
    ≡ (set_identity from_telegram karthi, some cookie, (lit "0a", session) ∷ [], tt)
unfolding auth_middleware login_cookie authenticate try_providers create_session new_session save
    put_tx get_session usable_session get_identity set_identity encode digit ◌==◌
logged_in = refl

no_session : (id : Identity) → ¬ HoldsSession sessions json manager 50 [] plain id
no_session id (key, v, s, e, _, _, _, _) = absurd (ground arith)

no_provider : (id : Identity) → ¬ Vouches manager.providers plain id
unfolding ◌==◌
no_provider id (p, creds, w, inl e, k, _) = absurd (ground arith)
no_provider id (p, creds, w, inr e, k, _) = absurd e

to_client : (auth_chain sessions json manager [] (passage 50) [] tt plain).0 ≡ unauthorized
unfolding auth_chain session_middleware auth_middleware require_auth_paths get_session
    usable_session try_providers authenticate get_identity is_public_path is_browser_request
    login_redirect has_prefix contains ◌==◌
to_client = refl

abbrev between : List (ℕ × Call)
between = (20, gets true (lit "0a")) ∷ (30, cleans true) ∷ []

auth_chain-passes_example :
    (id : Identity) × (some karthi ≡ some id)
    × (HoldsSession sessions json manager 50 ((lit "0a", session) ∷ []) with_cookie id
        ⊎ Vouches manager.providers with_cookie id)
unfolding set_identity
auth_chain-passes_example =
    auth_chain-passes sessions json manager [] (passage 50) ((lit "0a", session) ∷ []) tt
      with_cookie (set_identity with_cookie karthi) refl (omega arith) closed chain_passes

auth_chain-stops_example :
    (auth_chain sessions json manager [] (passage 50) [] tt plain).0
    ≡ (if is_browser_request plain then redirects (login_redirect plain) else unauthorized)
auth_chain-stops_example =
    auth_chain-stops sessions json manager [] (passage 50) [] tt plain refl (omega arith) closed
      no_session no_provider

login_lasts_example :
    (id : Identity) × (some karthi ≡ some id)
    × (id.provider ≢ lit "api_key")
    × ((session_middleware sessions json manager
          (passage 100)
          (run sessions json ((lit "0a", session) ∷ []) between)
          with_cookie).0
        ≡ set_identity with_cookie id)
unfolding set_identity set_session_cookie ◌==◌
login_lasts_example =
    login_lasts sessions json manager (passage 10) (passage 100) [] ((lit "0a", session) ∷ []) tt tt
      from_telegram (set_identity from_telegram karthi) with_cookie cookie between logged_in
      (omega arith, (omega arith, tt)) (tt, (tt, tt)) refl (omega arith) (omega arith)
