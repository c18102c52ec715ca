-- ===== src/Auth/Manager/Tests.antt =====
-- Runs of the manager over an association list.
use vel.Common.{
  ==_iff, List, [], false, if◌then◌else◌, lit, none, refl, some, true, ℕ, ◌==◌, ◌∷◌, ◌≡◌,
}
use vel.Std.Hex.{digit, encode}
use vel.Store.{Bucket, Codec, put_tx}
use vel.Store.Sample.{assoc_bucket, plain_codec}
use vel.Auth.Types.{Identity, Session}
use vel.Auth.Request.{Request}
use vel.Auth.Sessions.{save}
use vel.Auth.Sessions.Live.{Call, cleans, deletes, gets}
use vel.Auth.Manager.{AuthManager, create_session, new_session}
use vel.Auth.Manager.Lifetime.{AllSpare}

abbrev sessions : Bucket Session
sessions = assoc_bucket Session

abbrev json : Codec Session Session
json = plain_codec Session

abbrev manager : AuthManager Unit
manager = record { providers = []; max_age = 100; cookie_name = lit "vel_session" }

abbrev karthi : Identity
karthi = record {
  user_id = lit "karthi";
  name = lit "Karthi";
  provider = lit "magic_link";
  role = lit "admin";
  scopes = [];
  meta = [];
}

abbrev session : Session
session = record {
  id = lit "0a1b";
  identity = karthi;
  created_at = 10;
  expires_at = 111;
  values = [];
}

-- A request with the cookie of the session.
abbrev request : Request
request = record {
  method = lit "GET";
  path = lit "/api/status";
  raw_query = [];
  header = λ name. [];
  cookie = λ name. if name == lit "vel_session" then some (lit "0a1b") else none;
  identity = none;
}

abbrev between : List (ℕ × Call)
between = (50, gets true (lit "0a1b")) ∷ (60, cleans true) ∷ (70, deletes true (lit "ff")) ∷ []

created :
    create_session sessions json manager true (some (0x0a ∷ 0x1b ∷ [])) 10 11 [] karthi
    ≡ (some session, (lit "0a1b", session) ∷ [])
unfolding create_session new_session save put_tx encode digit ◌==◌
created = refl

unequal : (lit "ff" == lit "0a1b") ≡ false
unfolding ◌==◌
unequal = refl

spared : AllSpare (lit "0a1b") between
spared = (tt, (tt, ((λ e. cc (e, (==_iff (lit "ff") (lit "0a1b")).1 e, unequal)), tt)))

has_cookie : request.cookie manager.cookie_name ≡ some (lit "0a1b")
unfolding ◌==◌
has_cookie = refl
