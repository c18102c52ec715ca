-- ===== src/Auth/Tokens/Names.antt =====
-- The names of the scoped tokens: unique under the two calls that change the list.
use vel.Common.{
  ==_iff, ==_refl, Bool-cases, List, Text, [], any, arith, false, inl, inr, refl, some, subst, sym,
  true, ◌++◌, ◌==◌, ◌∷◌, ◌≡◌, ◌≢◌,
}
use vel.Auth.Tokens.{ScopedToken, add_scoped_token, remove_scoped_token, generate_random_token}

abbrev pub IsNew : Text → List ScopedToken → Type 0
IsNew name [] = Unit
IsNew name (t ∷ ts) = (name ≢ t.name) × IsNew name ts

-- No two tokens share a name.
abbrev pub HasUniqueNames : List ScopedToken → Type 0
HasUniqueNames [] = Unit
HasUniqueNames (t ∷ ts) = IsNew t.name ts × HasUniqueNames ts

IsNew-of_any :
    (name : Text) (ts : List ScopedToken) → any (λ t. t.name == name) ts ≡ false → IsNew name ts
IsNew-of_any name [] h = tt
IsNew-of_any name (t ∷ ts) h = ground (arith, ==_iff t.name name, IsNew-of_any name ts)

any_of_IsNew :
    (name : Text) (ts : List ScopedToken) → IsNew name ts → any (λ t. t.name == name) ts ≡ false
any_of_IsNew name [] h = refl
any_of_IsNew name (t ∷ ts) h = ground (arith, ==_iff t.name name, any_of_IsNew name ts)

IsNew-append :
    (name : Text) (ts : List ScopedToken) (t : ScopedToken)
    → IsNew name ts
    → name ≢ t.name
    → IsNew name (ts ++ t ∷ [])
IsNew-append name [] t h k = (k, tt)
IsNew-append name (x ∷ ts) t (n, h) k = (n, IsNew-append name ts t h k)

HasUniqueNames-append :
    (ts : List ScopedToken) (t : ScopedToken)
    → HasUniqueNames ts
    → IsNew t.name ts
    → HasUniqueNames (ts ++ t ∷ [])
HasUniqueNames-append [] t h k = (tt, tt)
HasUniqueNames-append (x ∷ ts) t (n, h) (m, k) =
    (IsNew-append x.name ts t n (λ e. m (sym e)), HasUniqueNames-append ts t h k)

IsNew-remove :
    (name gone : Text) (ts : List ScopedToken)
    → IsNew name ts
    → IsNew name (remove_scoped_token ts gone).1
unfolding remove_scoped_token
IsNew-remove name gone [] h = tt
IsNew-remove name gone (t ∷ ts) h = ground (arith, IsNew-remove name gone ts h.1)

-- The entry that a successful call appends.
abbrev pub new_token : Text → List Text → Text → ScopedToken
new_token name scopes random = record {
  name = name;
  token = generate_random_token 32 random;
  scopes = scopes;
}

pub add_scoped_token-eq_some :
    (ts : List ScopedToken) (name : Text) (scopes : List Text) (random token : Text)
    (us : List ScopedToken)
    → add_scoped_token ts name scopes random ≡ some (token, us)
    → IsNew name ts
      × (token ≡ generate_random_token 32 random)
      × (us ≡ ts ++ new_token name scopes random ∷ [])
unfolding add_scoped_token
add_scoped_token-eq_some ts name scopes random token us h =
    elim (Bool-cases (any (λ t. t.name == name) ts)) [
      | inl taken ↦ absurd (ground arith)
      | inr free ↦ (IsNew-of_any name ts free, ground arith, ground arith)
    ]

pub IsNew-remove_self :
    (name : Text) (ts : List ScopedToken)
    → HasUniqueNames ts
    → IsNew name (remove_scoped_token ts name).1
unfolding remove_scoped_token
IsNew-remove_self name [] u = tt
IsNew-remove_self name (t ∷ ts) (n, u) = elim (Bool-cases (t.name == name)) [
  | inl same ↦ rw same (subst (λ x. IsNew x ts) ((==_iff t.name name).0 same) n)
  | inr other ↦
      rw other ((λ e. cc (other, (==_iff t.name name).1 (sym e))), IsNew-remove_self name ts u)
]

HasUniqueNames-remove :
    (name : Text) (ts : List ScopedToken)
    → HasUniqueNames ts
    → HasUniqueNames (remove_scoped_token ts name).1
unfolding remove_scoped_token
HasUniqueNames-remove name [] u = tt
HasUniqueNames-remove name (t ∷ ts) (n, u) = elim (Bool-cases (t.name == name)) [
  | inl same ↦ rw same u
  | inr other ↦ rw other (IsNew-remove t.name name ts n, HasUniqueNames-remove name ts u)
]

remove-append_new :
    (ts : List ScopedToken) (t : ScopedToken)
    → IsNew t.name ts
    → remove_scoped_token (ts ++ t ∷ []) t.name ≡ (true, ts)
unfolding remove_scoped_token
remove-append_new [] t h = rw (==_refl t.name)
remove-append_new (x ∷ ts) t (n, h) =
    let differs : (x.name == t.name) ≡ false = ground (arith, ==_iff x.name t.name) in
    rw (differs, remove-append_new ts t h)

-- Removing the token that was just added gives the list back.
remove-add :
    (ts : List ScopedToken) (name : Text) (scopes : List Text) (random token : Text)
    (us : List ScopedToken)
    → add_scoped_token ts name scopes random ≡ some (token, us)
    → remove_scoped_token us name ≡ (true, ts)
remove-add ts name scopes random token us h =
    let (free, _, e) = add_scoped_token-eq_some ts name scopes random token us h in
    rw e (remove-append_new ts (new_token name scopes random) free)

-- One call on the list.
pub data TokenStep : List ScopedToken → List ScopedToken → Type 0 where
  added :
      {ts us : List ScopedToken} (name : Text) (scopes : List Text) (random token : Text)
      → add_scoped_token ts name scopes random ≡ some (token, us)
      → TokenStep ts us
  removed :
      {ts us : List ScopedToken} (name : Text)
      → us ≡ (remove_scoped_token ts name).1
      → TokenStep ts us

pub data TokenRun : List ScopedToken → List ScopedToken → Type 0 where
  stop : {ts : List ScopedToken} → TokenRun ts ts
  then : {ts us vs : List ScopedToken} → TokenStep ts us → TokenRun us vs → TokenRun ts vs

TokenStep-HasUniqueNames :
    {ts us : List ScopedToken} → TokenStep ts us → HasUniqueNames ts → HasUniqueNames us
TokenStep-HasUniqueNames (added {ts} {us} name scopes random token h) u =
    let (free, _, e) = add_scoped_token-eq_some ts name scopes random token us h in
    rw e (HasUniqueNames-append ts (new_token name scopes random) u free)
TokenStep-HasUniqueNames (removed {ts} name e) u = rw e (HasUniqueNames-remove name ts u)

TokenRun-HasUniqueNames :
    {ts us : List ScopedToken} → TokenRun ts us → HasUniqueNames ts → HasUniqueNames us
TokenRun-HasUniqueNames stop u = u
TokenRun-HasUniqueNames (then st r) u = TokenRun-HasUniqueNames r (TokenStep-HasUniqueNames st u)

-- Any run of calls of AddScopedToken and RemoveScopedToken keeps the names unique, if they are so
-- at its start, and a removal at its end leaves no token of that name.
run_keeps_unique_names :
    (ts us : List ScopedToken) (name : Text)
    → HasUniqueNames ts
    → TokenRun ts us
    → HasUniqueNames us × IsNew name (remove_scoped_token us name).1
run_keeps_unique_names ts us name u r =
    let v = TokenRun-HasUniqueNames r u in (v, IsNew-remove_self name us v)
