-- ===== src/Auth/Sessions/Tests.antt =====
-- Runs of the session store over an association list.
use vel.Common.{List, [], arith, lit, none, refl, some, true, ℕ, ◌==◌, ◌↔◌, ◌∷◌, ◌≡◌}
use vel.Store.{Bucket, Codec, delete_tx}
use vel.Store.Sample.{assoc_bucket, plain_codec}
use vel.Auth.Types.{Identity, Session, is_expired}
use vel.Auth.Sessions.{view, drop_expired, count_from, count_session, found, get, missing, stats}
use vel.Auth.Sessions.Live.{Call, cleans, expected, get-run_iff, gets, run, saves, unexpired}

abbrev sessions : Bucket Session
sessions = assoc_bucket Session

abbrev json : Codec Session Session
json = plain_codec Session

abbrev karthi : Identity
karthi = record {
  user_id = lit "karthi";
  name = lit "Karthi";
  provider = lit "telegram";
  role = lit "admin";
  scopes = [];
  meta = [];
}

abbrev session : Session
session = record { id = lit "s1"; identity = karthi; created_at = 10; expires_at = 20; values = [] }

abbrev history : List (ℕ × Call)
history = (10, saves true session) ∷ (11, gets true (lit "s1")) ∷ (12, cleans true) ∷ []

get_saved : (get sessions json true 15 ((lit "s1", session) ∷ []) (lit "s1")).0 ≡ found session
unfolding get view drop_expired is_expired ◌==◌
get_saved = refl

get_late : get sessions json true 25 ((lit "s1", session) ∷ []) (lit "s1") ≡ (missing, [])
unfolding get view drop_expired is_expired delete_tx ◌==◌
get_late = refl

counted :
    stats sessions json 15 ((lit "s1", session) ∷ [])
    ≡ record { active = 1; oldest = 10; newest = 10 }
unfolding stats count_from count_session
counted = refl

get-run_iff_example :
    ((get sessions json true 15 (run sessions json [] history) (lit "s1")).0 ≡ found session)
    ↔ (unexpired 15 (expected (lit "s1") none history) ≡ some session)
get-run_iff_example =
    get-run_iff sessions json true 15 history [] (lit "s1") session
      (omega arith, (omega arith, (omega arith, tt)))
