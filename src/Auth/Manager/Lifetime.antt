-- ===== src/Auth/Manager/Lifetime.antt =====
-- How long a created session authenticates its requests, and that a destroyed one does not.
use vel.Common.{
  ==_iff, ==_refl, Bool, List, Option, Option-cases, Text, [], ap, arith, inl, inr, none, refl,
  some, subst, sym, true, ℕ, ◌+◌, ◌↔◌, ◌∙◌, ◌∷◌, ◌≡◌, ◌≢◌, ◌≤◌,
}
use vel.Std.Hex.{encode}
use vel.Store.{Bucket, Codec, put_tx}
use vel.Auth.Types.{Identity, Session, is_expired}
use vel.Auth.Request.{Request}
use vel.Auth.Sessions.{Lookup, found, save, get, delete}
use vel.Auth.Sessions.Live.{
  Call, cleans, deletes, expected, expected_after, gets, run, saves, step, unexpired, AllBefore,
  get-run_iff, live,
}
use vel.Auth.Manager.{
  AuthManager, create_session, loaded, loaded_from, new_session, usable_session, get_session,
  authenticate, destroy_session,
}

-- No call of the list removes the session under an id or saves one there.
abbrev pub Spares : Text → Call → Type 0
Spares id (gets commits j) = Unit
Spares id (saves commits s) = s.id ≢ id
Spares id (deletes commits j) = j ≢ id
Spares id (cleans commits) = Unit

abbrev pub AllSpare : Text → List (ℕ × Call) → Type 0
AllSpare id [] = Unit
AllSpare id ((now, e) ∷ es) = Spares id e × AllSpare id es

expected-Spares :
    (id : Text) (o : Option Session) (e : Call) → Spares id e → expected_after id o e ≡ o
unfolding expected_after
expected-Spares id o (gets commits j) h = refl
expected-Spares id o (saves commits s) h = ground (arith, ==_iff s.id id)
expected-Spares id o (deletes commits j) h = ground (arith, ==_iff j id)
expected-Spares id o (cleans commits) h = refl

expected-AllSpare :
    (id : Text) (o : Option Session) (es : List (ℕ × Call)) → AllSpare id es → expected id o es ≡ o
unfolding expected
expected-AllSpare id o [] h = refl
expected-AllSpare id o ((now, e) ∷ es) (p, h) =
    ap (λ x. expected id x es) (expected-Spares id o e p) ∙ expected-AllSpare id o es h

unexpired_iff : (now : ℕ) (s : Session) → (unexpired now (some s) ≡ some s) ↔ (now ≤ s.expires_at)
unfolding is_expired
unexpired_iff now s = ground arith

loaded_from_iff : (l : Lookup) (s : Session) → (loaded_from l ≡ loaded s) ↔ (l ≡ found s)
unfolding loaded_from
loaded_from_iff l s = ground arith

pub usable_loaded :
    (now : ℕ) (s : Session) → now ≤ s.expires_at → usable_session now (loaded s) ≡ some s
unfolding usable_session is_expired
usable_loaded now s h = ground arith

module _ {V W : Type 0} (b : Bucket V) (c : Codec Session V) (m : AuthManager W) where
  -- The session that a successful call creates, and the database that it leaves.
  pub create_session-some :
      (commits : Bool) (random : Option Text) (created_at dated_at : ℕ) (db db' : b.Db)
      (identity : Identity) (s : Session)
      → create_session b c m commits random created_at dated_at db identity ≡ (some s, db')
      → (s.id ≢ [])
        × (db' ≡ b.put db s.id (c.marshal s))
        × (s.identity ≡ identity)
        × (s.expires_at ≡ dated_at + m.max_age)
  unfolding create_session save put_tx new_session
  create_session-some commits random created_at dated_at db db' identity s h =
      elim (Option-cases random) [
        | inl e ↦ absurd (ground arith)
        | inr (bytes, e) ↦ (
          ground (arith, ==_iff (encode bytes) []),
          ground (arith, ==_iff (encode bytes) []),
          ground (arith, ==_iff (encode bytes) []),
          ground (arith, ==_iff (encode bytes) []),
        )
      ]

  run-put :
      (db : b.Db) (s : Session) (es : List (ℕ × Call))
      → s.id ≢ []
      → run b c (b.put db s.id (c.marshal s)) es ≡ run b c db ((0, saves true s) ∷ es)
  unfolding run step save put_tx
  run-put db s es h = ground (arith, ==_iff s.id [])

  expected-saved :
      (s : Session) (o : Option Session) (es : List (ℕ × Call))
      → s.id ≢ []
      → AllSpare s.id es
      → expected s.id o ((0, saves true s) ∷ es) ≡ some s
  unfolding expected expected_after
  expected-saved s o es full h =
      ap (λ x. expected s.id x es) (ground (arith, ==_iff s.id [], ==_refl s.id))
      ∙ expected-AllSpare s.id (some s) es h

  run-delete :
      (db : b.Db) (id : Text) (es : List (ℕ × Call))
      → run b c (delete b c true db id) es ≡ run b c db ((0, deletes true id) ∷ es)
  unfolding run step
  run-delete db id es = refl

  expected-deleted :
      (id : Text) (o : Option Session) (es : List (ℕ × Call))
      → AllSpare id es
      → expected id o ((0, deletes true id) ∷ es) ≡ none
  unfolding expected expected_after
  expected-deleted id o es h =
      ap (λ x. expected id x es) (ground (arith, ==_refl id)) ∙ expected-AllSpare id none es h

  get_session-cookie :
      (commits : Bool) (now : ℕ) (db : b.Db) (r : Request) (id : Text)
      → r.cookie m.cookie_name ≡ some id
      → (get_session b c m commits now db r).0 ≡ loaded_from (get b c commits now db id).0
  unfolding get_session
  get_session-cookie commits now db r id h = ground arith

  -- A session that CreateSession returns is the one that a request with its cookie loads until the
  -- maximal age has passed, and not after: whatever the store is used for in between, as long as
  -- nobody deletes this session or saves another under its id.
  pub created_session_lasts :
      (commits reads : Bool) (random : Option Text) (created_at dated_at now : ℕ) (db db' : b.Db)
      (identity : Identity) (s : Session) (es : List (ℕ × Call)) (r : Request)
      → create_session b c m commits random created_at dated_at db identity ≡ (some s, db')
      → AllBefore now es
      → AllSpare s.id es
      → r.cookie m.cookie_name ≡ some s.id
      → ((get_session b c m reads now (run b c db' es) r).0 ≡ loaded s)
        ↔ (now ≤ dated_at + m.max_age)
  created_session_lasts commits reads random created_at dated_at now db db' identity s es r h before
        spare cookie =
      let (full, put_e, _, expiry) =
        create_session-some commits random created_at dated_at db db' identity s h in
      let same : run b c db' es ≡ run b c db ((0, saves true s) ∷ es) =
        ap (λ x. run b c x es) put_e ∙ run-put db s es full in
      let held : expected s.id (live b c db now s.id) ((0, saves true s) ∷ es) ≡ some s =
        expected-saved s (live b c db now s.id) es full spare in
      let got =
        get-run_iff b c reads now ((0, saves true s) ∷ es) db s.id s (omega arith, before) in
      let looked = loaded_from_iff (get b c reads now (run b c db' es) s.id).0 s in
      let opened = get_session-cookie reads now (run b c db' es) r s.id cookie in
      let alive = unexpired_iff now s in
      let read = ap (λ x. (get b c reads now x s.id).0) same in
      let kept = ap (unexpired now) held in
      (
        λ e.
            subst (λ t. now ≤ t) expiry
              (alive.0 (sym kept ∙ got.0 (sym read ∙ looked.0 (sym opened ∙ e)))),
        λ le.
            opened
            ∙ looked.1 (read ∙ got.1 (kept ∙ alive.1 (subst (λ t. now ≤ t) (sym expiry) le))),
      )

  authenticate-usable :
      (commits : Bool) (now later : ℕ) (db : b.Db) (w : W) (r : Request) (s : Session)
      → usable_session later (get_session b c m commits now db r).0 ≡ some s
      → let (result, _, w') = authenticate b c m commits now later db w r in
        (result ≡ some (s.identity, some s)) × (w' ≡ w)
  unfolding authenticate
  authenticate-usable commits now later db w r s h = (ground arith, ground arith)

  -- A request with the cookie of a session that CreateSession returned is authenticated as its
  -- identity, without a provider, up to the expiry: under the conditions of the session above.
  created_session_authenticates :
      (commits reads : Bool) (random : Option Text) (created_at dated_at now later : ℕ)
      (db db' : b.Db) (w : W) (identity : Identity) (s : Session) (es : List (ℕ × Call))
      (r : Request)
      → create_session b c m commits random created_at dated_at db identity ≡ (some s, db')
      → AllBefore now es
      → AllSpare s.id es
      → r.cookie m.cookie_name ≡ some s.id
      → now ≤ later
      → later ≤ dated_at + m.max_age
      → let (result, _, w') = authenticate b c m reads now later (run b c db' es) w r in
        (result ≡ some (identity, some s)) × (w' ≡ w)
  created_session_authenticates commits reads random created_at dated_at now later db db' w identity
        s es r h before spare cookie le fits =
      let (_, _, who, expiry) =
        create_session-some commits random created_at dated_at db db' identity s h in
      let opened =
        (created_session_lasts commits reads random created_at dated_at now db db' identity s es r h
            before spare cookie).1
          (omega arith) in
      let usable = ap (usable_session later) opened ∙ usable_loaded later s (omega arith) in
      let (result, unchanged) = authenticate-usable reads now later (run b c db' es) w r s usable in
      (result ∙ ap (λ x. some (x, some s)) who, unchanged)

  -- After DestroySession has committed, no request loads a session under that id, until somebody
  -- saves one there again.
  destroyed_session_is_gone :
      (reads : Bool) (now : ℕ) (db : b.Db) (id : Text) (s : Session) (es : List (ℕ × Call))
      (r : Request)
      → AllBefore now es
      → AllSpare id es
      → r.cookie m.cookie_name ≡ some id
      → (get_session b c m reads now (run b c (destroy_session b c m true db id) es) r).0 ≢ loaded s
  unfolding destroy_session
  destroyed_session_is_gone reads now db id s es r before spare cookie e =
      let after = run b c db ((0, deletes true id) ∷ es) in
      let same : run b c (delete b c true db id) es ≡ after = run-delete db id es in
      let held : expected id (live b c db now id) ((0, deletes true id) ∷ es) ≡ none =
        expected-deleted id (live b c db now id) es spare in
      let got =
        (get-run_iff b c reads now ((0, deletes true id) ∷ es) db id s (omega arith, before)).0 (
          ap (λ x. (get b c reads now x id).0) (sym same)
          ∙ (loaded_from_iff _ s).0 (
              sym (get_session-cookie reads now (run b c (delete b c true db id) es) r id cookie)
              ∙ e)) in
      let none_left : unexpired now none ≡ some s = sym (ap (unexpired now) held) ∙ got in
      absurd (ground arith)
