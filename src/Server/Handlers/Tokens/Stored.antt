-- ===== src/Server/Handlers/Tokens/Stored.antt =====
-- What is left of the tokens after a restart.
use vel.Common.{
  Bool, List, Option, Text, [], ap, false, if◌then◌else◌, lit, none, refl, some, subst, sym, true,
  ℕ, ◌==◌, ◌∙◌, ◌∷◌, ◌≡◌,
}
use vel.Std.Crypto.{Crypto}
use vel.Auth.Request.{Request}
use vel.Auth.Tokens.{
  ScopedToken, get_scoped_tokens_full, init_scoped_tokens, add_scoped_token, remove_scoped_token,
}
use vel.Auth.Telegram.{User}
use vel.Server.Handlers.{answer, done, token_made, Response}
use vel.Server.Handlers.Tokens.{
  AuthJson, Handled, no_auth, no_object, null_auth, section, update_auth, write_file, after_write,
  ConfigFile, NewToken, made_token, TokenState, config, delete_token, post_token, with_tokens,
  write_scoped_tokens_to_config, written, check_auth_not_scoped, name_to_delete, tokens_admin,
  tokens_handler,
}

abbrev tokens_or_none : Option (List ScopedToken) → List ScopedToken
tokens_or_none none = []
tokens_or_none (some ts) = ts

-- The next start reads these tokens from what stands at `auth`, which is left out or an object.
abbrev pub IsReadAs : List ScopedToken → AuthJson → Type 0
IsReadAs ts no_auth = init_scoped_tokens [] ≡ ts
IsReadAs ts no_object = ⊥
IsReadAs ts null_auth = ⊥
IsReadAs ts (section a) = init_scoped_tokens (tokens_or_none a.tokens) ≡ ts

-- The configuration can be read and gives the next start the tokens of the process.
abbrev pub IsStored : TokenState → Type 0
IsStored s = (f : ConfigFile) × (s.file ≡ config f) × IsReadAs s.settings.scoped_tokens f.auth

written-back : (ts : List ScopedToken) → tokens_or_none (written ts) ≡ ts
written-back [] = refl
written-back (t ∷ ts) = refl

update_auth-IsReadAs :
    (old ts : List ScopedToken) (auth : AuthJson)
    → IsReadAs old auth
    → (a : AuthJson) × (update_auth ts auth ≡ some a) × IsReadAs ts a
unfolding update_auth init_scoped_tokens
update_auth-IsReadAs old ts no_auth h = (_, refl, written-back ts)
update_auth-IsReadAs old ts no_object h = absurd h
update_auth-IsReadAs old ts null_auth h = absurd h
update_auth-IsReadAs old ts (section a) h = (_, refl, written-back ts)

with_tokens-IsStored :
    (response : Response) (s : TokenState) (ts : List ScopedToken)
    → IsStored s
    → IsStored (with_tokens true response s ts).1
unfolding write_scoped_tokens_to_config get_scoped_tokens_full
with_tokens-IsStored response s ts (f, e, k) =
    let (a, new, read) = update_auth-IsReadAs s.settings.scoped_tokens ts f.auth k in
    let s' : TokenState = record s { settings = record s.settings { scoped_tokens = ts } } in
    let wrote : write_scoped_tokens_to_config true ts s.file
        ≡ some (config (record f { auth = a })) =
      ap (write_scoped_tokens_to_config true ts) e ∙ ap (write_file true f) new in
    let same : (with_tokens true response s ts).1.file ≡ config (record f { auth = a }) =
      ap (λ o. (after_write response s' o).1.file) wrote in
    let kept : (with_tokens true response s ts).1.settings.scoped_tokens ≡ ts =
      ap (λ o. (after_write response s' o).1.settings.scoped_tokens) wrote in
    (record f { auth = a }, same, subst (λ x. IsReadAs x a) (sym kept) read)

made_token-IsStored :
    (s : TokenState) (name : Text) (p : Option (Text × List ScopedToken))
    → IsStored s
    → IsStored (made_token true s name p).1
made_token-IsStored s name none h = h
made_token-IsStored s name (some (token, ts)) h =
    with_tokens-IsStored (answer 200 (token_made name token)) s ts h

-- A property of both branches.
either : {A : Type 0} (P : A → Type 0) (b : Bool) {x y : A} → P x → P y → P (if b then x else y)
either P true h k = h
either P false h k = k

abbrev Keeps : Handled → Type 0
Keeps x = IsStored x.1

post_token-IsStored :
    (random : Text) (s : TokenState) (body : Option NewToken)
    → IsStored s
    → Keeps (post_token true random s body)
unfolding post_token
post_token-IsStored random s none h = h
post_token-IsStored random s (some b) h = either Keeps _ h (
    made_token-IsStored s b.name (add_scoped_token s.settings.scoped_tokens b.name b.scopes random)
      h)

delete_token-IsStored :
    (s : TokenState) (name : Text) → IsStored s → Keeps (delete_token true s name)
unfolding delete_token
delete_token-IsStored s name h = either Keeps (name == []) h (
    either Keeps _
      (with_tokens-IsStored (answer 200 done) s
        (remove_scoped_token s.settings.scoped_tokens name).1 h)
      h)

tokens_admin-IsStored :
    (random : Text) (body : Option NewToken) (body_name : Text) (r : Request) (s : TokenState)
    → IsStored s
    → Keeps (tokens_admin true random body body_name r s)
unfolding tokens_admin
tokens_admin-IsStored random body body_name r s h = either Keeps (r.method == lit "GET") h (
    either Keeps (r.method == lit "POST") (post_token-IsStored random s body h) (
      either Keeps (r.method == lit "DELETE")
        (delete_token-IsStored s (name_to_delete r body_name) h) h))

module _ (h : Crypto) (decode_user : Text → Option User) where
  -- Requests of the handler in their order, each with what it is given.
  pub record TokenRequest : Type 0 where
    pub managed : Bool
    pub now : ℕ
    pub random : Text
    pub body : Option NewToken
    pub body_name : Text
    pub request : Request

  unfoldable pub run_tokens : List TokenRequest → TokenState → TokenState
  run_tokens [] s = s
  run_tokens (q ∷ qs) s =
      run_tokens qs
        (tokens_handler h decode_user q.managed q.now true q.random q.body q.body_name q.request
          s).1

  -- The tokens survive a restart: after any requests to the handler, the configuration gives the
  -- next start the tokens of the process, where it did so before and its writes succeed. The
  -- configuration is an object, and its `auth` is left out or an object; with `null` in the place
  -- of either, the write panics.
  pub run_tokens-IsStored :
      (qs : List TokenRequest) (s : TokenState) → IsStored s → IsStored (run_tokens qs s)
  unfolding run_tokens tokens_handler
  run_tokens-IsStored [] s stored = stored
  run_tokens-IsStored (q ∷ qs) s stored = run_tokens-IsStored qs _ (
      either Keeps (check_auth_not_scoped h decode_user q.managed s.settings q.now q.request)
        (tokens_admin-IsStored q.random q.body q.body_name q.request s stored) stored)
