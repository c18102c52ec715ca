-- ===== src/Auth/Manager.antt =====
-- internal/auth/manager.go: sessions and providers behind one interface. `W` is what the providers
-- change; the session database is beside it. Each reading of the clock, each read of random bytes
-- and the outcome of each write transaction is an argument.
pub mod Lifetime
mod Tests
use vel.Common.{
  Bool, List, Option, Text, [], eqb, false, find_first, if◌then◌else◌, lit, none, some, true, ℕ,
  ◌*◌, ◌++◌, ◌+◌, ◌==◌, ◌∷◌,
}
use vel.Std.Crypto.{Crypto}
use vel.Std.Hex.{encode}
use vel.Store.{Bucket, Codec}
use vel.Auth.Types.{Identity, Session, hour, is_expired}
use vel.Auth.Request.{Request}
use vel.Auth.Sessions.{Lookup, cleanup, delete, found, get, missing, save, undecodable}
use vel.Auth.MagicLinks.{MagicLink, cleanup_links}
use vel.Auth.Providers.{Provider}

-- The settings and the providers of a manager; the stores are arguments of its methods.
pub record AuthManager (W : Type 0) : Type 0 where
  pub providers : List (Provider W)
  pub max_age : ℕ
  pub cookie_name : Text

-- `max_age_hours` is 0 where the configured number is not positive.
unfoldable pub new_auth_manager : {W : Type 0} → ℕ → Text → AuthManager W
new_auth_manager max_age_hours cookie_name = record {
  providers = [];
  max_age = (if eqb max_age_hours 0 then 168 else max_age_hours) * hour;
  cookie_name = if cookie_name == [] then lit "vel_session" else cookie_name;
}

unfoldable pub register_provider : {W : Type 0} → AuthManager W → Provider W → AuthManager W
register_provider m p = record m { providers = m.providers ++ p ∷ [] }

unfoldable pub get_provider : {W : Type 0} → AuthManager W → Text → Option (Provider W)
get_provider m name = find_first (λ p. p.name == name) m.providers

-- The result of `GetSession`, its three errors first.
pub data Loaded : Type 0 where
  no_cookie lookup_failed not_found : Loaded
  loaded : Session → Loaded

unfoldable pub loaded_from : Lookup → Loaded
loaded_from (found s) = loaded s
loaded_from missing = not_found
loaded_from undecodable = lookup_failed

-- `err == nil && sess != nil && !sess.IsExpired()`
unfoldable pub usable_session : ℕ → Loaded → Option Session
usable_session now (loaded s) = if is_expired now s then none else some s
usable_session now no_cookie = none
usable_session now lookup_failed = none
usable_session now not_found = none

-- The loop over the providers: one that extracts nothing or refuses passes on to the next.
unfoldable pub try_providers : {W : Type 0} → List (Provider W) → W → Request → Option Identity × W
try_providers [] w r = (none, w)
try_providers (p ∷ ps) w r = elim (p.extract r) [
  | none ↦ try_providers ps w r
  | some creds ↦
      let (identity, w') = p.authenticate w creds in
      elim identity [ none ↦ try_providers ps w' r | some id ↦ (some id, w') ]
]

module _ {V W : Type 0} (b : Bucket V) (c : Codec Session V) (m : AuthManager W) where
  unfoldable pub get_session : Bool → ℕ → b.Db → Request → Loaded × b.Db
  get_session commits now db r = elim (r.cookie m.cookie_name) [
    | none ↦ (no_cookie, db)
    | some value ↦ let (looked, db') = get b c commits now db value in (loaded_from looked, db')
  ]

  -- The identity with its session, if it has one. `now` is the clock of the store's lookup, and
  -- `later` that of the second test of expiry.
  unfoldable pub authenticate :
      Bool → ℕ → ℕ → b.Db → W → Request → Option (Identity × Option Session) × b.Db × W
  authenticate commits now later db w r =
      let (got, db') = get_session commits now db r in
      elim (usable_session later got) [
        | some s ↦ (some (s.identity, some s), db', w)
        | none ↦
            let (identity, w') = try_providers m.providers w r in
            elim identity [ none ↦ (none, db', w') | some id ↦ (some (id, none), db', w') ]
      ]

  unfoldable pub new_session : Identity → Text → ℕ → ℕ → Session
  new_session identity id created_at dated_at = record {
    id = id;
    identity = identity;
    created_at = created_at;
    expires_at = dated_at + m.max_age;
    values = [];
  }

  -- The 32 random bytes are read first; both failures are an error and leave the database.
  unfoldable pub create_session :
      Bool → Option Text → ℕ → ℕ → b.Db → Identity → Option Session × b.Db
  create_session commits random created_at dated_at db identity = elim random [
    | none ↦ (none, db)
    | some bytes ↦
        let s = new_session identity (encode bytes) created_at dated_at in
        elim (save b c commits db s) [ none ↦ (none, db) | some db' ↦ (some s, db') ]
  ]

  unfoldable pub destroy_session : Bool → b.Db → Text → b.Db
  destroy_session commits db session_id = delete b c commits db session_id

-- `Cleanup` of the sessions, then of the magic links where there is a store for them; an error of
-- the first leaves out the second. The flag is `false` on an error.
module _ (h : Crypto) {V L : Type 0} (b : Bucket V) (c : Codec Session V) (l : Bucket L) where
  unfoldable pub cleanup_all :
      Codec MagicLink L → Bool → Bool → ℕ → ℕ → b.Db → Option l.Db → Bool × b.Db × Option l.Db
  cleanup_all j commits link_commits now later db links =
      let db' = cleanup b c commits now db in
      if commits
      then elim links [
        | none ↦ (true, db', none)
        | some ls ↦ (link_commits, db', some (cleanup_links h l j link_commits later ls))
      ]
      else (false, db', links)
