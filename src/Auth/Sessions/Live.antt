-- ===== src/Auth/Sessions/Live.antt =====
-- The session store seen as a map of live sessions: what each call does to it.
use vel.Common.{
  ==_iff, Bool, List, Option, Text, [], ap, arith, false, if◌then◌else◌, none, not, refl, some, sym,
  true, ℕ, ◌&&◌, ◌==◌, ◌↔◌, ◌∙◌, ◌∷◌, ◌≡◌, ◌≤◌,
}
use vel.Store.{Bucket, Codec, delete_tx, put_tx}
use vel.Store.Sweep.{get-sweep, kept}
use vel.Auth.Types.{Session, is_expired}
use vel.Auth.Sessions.{view, drop_expired, found, get, cleanup, delete, is_stale, save}

module _ {V : Type 0} (b : Bucket V) (c : Codec Session V) where
  -- A stored value counts until its session expires.
  abbrev pub live_value : ℕ → Option V → Option Session
  live_value now none = none
  live_value now (some v) = elim (c.unmarshal v) [
    | none ↦ none
    | some s ↦ if is_expired now s then none else some s
  ]

  -- The session that a store holds under an id at an instant.
  abbrev pub live : b.Db → ℕ → Text → Option Session
  live db now id = live_value now (b.get db id)

  -- `Get` finds exactly the live session.
  get-found_iff :
      (commits : Bool) (now : ℕ) (db : b.Db) (id : Text) (s : Session)
      → ((get b c commits now db id).0 ≡ found s) ↔ (live db now id ≡ some s)
  unfolding get view drop_expired
  get-found_iff commits now db id s = ground arith

  live-get :
      (commits : Bool) (now later : ℕ) (db : b.Db) (id j : Text)
      → now ≤ later
      → live (get b c commits now db id).1 later j ≡ live db later j
  unfolding get view drop_expired delete_tx is_expired
  live-get commits now later db id j h = ground (arith, b.get-delete db id j, ==_iff id j)

  live-kept :
      (now later : ℕ) (o : Option V)
      → now ≤ later
      → live_value later (kept b (is_stale b c now) o) ≡ live_value later o
  unfolding is_stale is_expired
  live-kept now later none h = refl
  live-kept now later (some v) h = ground arith

  live-cleanup :
      (commits : Bool) (now later : ℕ) (db : b.Db) (j : Text)
      → now ≤ later
      → live (cleanup b c commits now db) later j ≡ live db later j
  unfolding cleanup
  live-cleanup true now later db j h =
      ap (live_value later) (get-sweep b (is_stale b c now) db j)
      ∙ live-kept now later (b.get db j) h
  live-cleanup false now later db j h = refl

module _ {V : Type 0} (b : Bucket V) (c : Codec Session V) where
  live_value-expires :
      (now : ℕ) (o : Option V) (s : Session) → live_value b c now o ≡ some s → now ≤ s.expires_at
  unfolding is_expired
  live_value-expires now none s h = absurd (ground arith)
  live_value-expires now (some v) s h = ground arith

-- What happens to the store: a read, a write, a removal or a cleanup, with the outcome of its
-- write transaction.
pub data Call : Type 0 where
  gets : Bool → Text → Call
  saves : Bool → Session → Call
  deletes : Bool → Text → Call
  cleans : Bool → Call

module _ {V : Type 0} (b : Bucket V) (c : Codec Session V) where
  -- The database after a save that fails is the one before it.
  abbrev after_save : b.Db → Option b.Db → b.Db
  after_save db none = db
  after_save db (some db') = db'

  unfoldable pub step : b.Db → ℕ × Call → b.Db
  step db (now, gets commits id) = (get b c commits now db id).1
  step db (now, saves commits s) = after_save db (save b c commits db s)
  step db (now, deletes commits id) = delete b c commits db id
  step db (now, cleans commits) = cleanup b c commits now db

  unfoldable pub run : b.Db → List (ℕ × Call) → b.Db
  run db [] = db
  run db (e ∷ es) = run (step db e) es

-- The session that an observer of the calls expects under an id: the last one that was saved, and
-- none after a removal. Reads and cleanups do not count.
unfoldable pub expected_after : Text → Option Session → Call → Option Session
expected_after j o (gets commits id) = o
expected_after j o (saves commits s) =
    if commits && not (s.id == []) && (s.id == j) then some s else o
expected_after j o (deletes commits id) = if commits && (id == j) then none else o
expected_after j o (cleans commits) = o

unfoldable pub expected : Text → Option Session → List (ℕ × Call) → Option Session
expected j o [] = o
expected j o ((now, e) ∷ es) = expected j (expected_after j o e) es

abbrev pub unexpired : ℕ → Option Session → Option Session
unexpired now none = none
unexpired now (some s) = if is_expired now s then none else some s

-- Every call happens no later than the given instant.
abbrev pub AllBefore : ℕ → List (ℕ × Call) → Type 0
AllBefore later [] = Unit
AllBefore later ((now, e) ∷ es) = (now ≤ later) × AllBefore later es

unexpired-after :
    (j : Text) (later : ℕ) (o p : Option Session) (e : Call)
    → unexpired later o ≡ unexpired later p
    → unexpired later (expected_after j o e) ≡ unexpired later (expected_after j p e)
unfolding expected_after
unexpired-after j later o p (gets commits id) h = h
unexpired-after j later o p (saves commits s) h = ground arith
unexpired-after j later o p (deletes commits id) h = ground arith
unexpired-after j later o p (cleans commits) h = h

unexpired-expected :
    (j : Text) (later : ℕ) (o p : Option Session) (es : List (ℕ × Call))
    → unexpired later o ≡ unexpired later p
    → unexpired later (expected j o es) ≡ unexpired later (expected j p es)
unfolding expected
unexpired-expected j later o p [] h = h
unexpired-expected j later o p ((now, e) ∷ es) h =
    unexpired-expected j later (expected_after j o e) (expected_after j p e) es
      (unexpired-after j later o p e h)

module _ {V : Type 0} (b : Bucket V) (c : Codec Session V) where
  unexpired-live_value :
      (later : ℕ) (o : Option V) → unexpired later (live_value b c later o) ≡ live_value b c later o
  unexpired-live_value later none = refl
  unexpired-live_value later (some v) = ground arith

  live-save :
      (later : ℕ) (commits : Bool) (s : Session) (db : b.Db) (j : Text)
      → live b c (after_save b c db (save b c commits db s)) later j
        ≡ unexpired later (expected_after j (live b c db later j) (saves commits s))
  unfolding save put_tx expected_after
  live-save later true s db j = ground (
    arith,
    b.get-put db s.id j (c.marshal s),
    c.unmarshal-marshal s,
    unexpired-live_value later (b.get db j),
  )
  live-save later false s db j = sym (unexpired-live_value later (b.get db j))

  live-delete :
      (later : ℕ) (commits : Bool) (id : Text) (db : b.Db) (j : Text)
      → live b c (delete b c commits db id) later j
        ≡ unexpired later (expected_after j (live b c db later j) (deletes commits id))
  unfolding delete delete_tx expected_after
  live-delete later true id db j =
      ground (arith, b.get-delete db id j, unexpired-live_value later (b.get db j))
  live-delete later false id db j = sym (unexpired-live_value later (b.get db j))

  live-step :
      (later now : ℕ) (e : Call) (db : b.Db) (j : Text)
      → now ≤ later
      → live b c (step b c db (now, e)) later j
        ≡ unexpired later (expected_after j (live b c db later j) e)
  unfolding step expected_after
  live-step later now (gets commits id) db j h =
      live-get b c commits now later db id j h ∙ sym (unexpired-live_value later (b.get db j))
  live-step later now (saves commits s) db j h = live-save later commits s db j
  live-step later now (deletes commits id) db j h = live-delete later commits id db j
  live-step later now (cleans commits) db j h =
      live-cleanup b c commits now later db j h ∙ sym (unexpired-live_value later (b.get db j))

  unexpired_twice :
      (later : ℕ) (o : Option Session) → unexpired later (unexpired later o) ≡ unexpired later o
  unexpired_twice later none = refl
  unexpired_twice later (some s) = ground arith

  live-run :
      (later : ℕ) (es : List (ℕ × Call)) (db : b.Db) (j : Text)
      → AllBefore later es
      → live b c (run b c db es) later j ≡ unexpired later (expected j (live b c db later j) es)
  unfolding run expected
  live-run later [] db j h = sym (unexpired-live_value later (b.get db j))
  live-run later ((now, e) ∷ es) db j (p, h) =
      live-run later es (step b c db (now, e)) j h
      ∙ unexpired-expected j later (live b c (step b c db (now, e)) later j)
          (expected_after j (live b c db later j) e) es
          (ap (unexpired later) (live-step later now e db j p) ∙ unexpired_twice later _)

  -- After any calls, one after another, that happened by now, `Get` finds a session under an id
  -- exactly when it is the last one saved there, with no later removal, and has not expired: expired
  -- entries that `Get` drops on the way and cleanups are never noticed, and calls whose write
  -- transaction fails have no effect.
  pub get-run_iff :
      (commits : Bool) (now : ℕ) (es : List (ℕ × Call)) (db : b.Db) (id : Text) (s : Session)
      → AllBefore now es
      → ((get b c commits now (run b c db es) id).0 ≡ found s)
        ↔ (unexpired now (expected id (live b c db now id) es) ≡ some s)
  get-run_iff commits now es db id s h =
      let same = live-run now es db id h in
      let (to, from) = get-found_iff b c commits now (run b c db es) id s in
      (λ e. sym same ∙ to e, λ e. from (same ∙ e))

  -- No session is found after its expiry, whatever the store holds.
  get-never-expired :
      (commits : Bool) (now : ℕ) (db : b.Db) (id : Text) (s : Session)
      → (get b c commits now db id).0 ≡ found s
      → now ≤ s.expires_at
  unfolding is_expired
  get-never-expired commits now db id s h =
      live_value-expires b c now (b.get db id) s ((get-found_iff b c commits now db id s).0 h)
