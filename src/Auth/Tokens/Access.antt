-- ===== src/Auth/Tokens/Access.antt =====
-- Who passes `CheckScopedToken`.
use vel.Common.{
  ==_iff, Bool-cases, In, List, Text, [], any, any_complete, any_sound, ap, arith, false,
  has_prefix, has_prefix_iff, inl, inr, refl, some, subst, sym, true, ◌++◌, ◌==◌, ◌↔◌, ◌∙◌, ◌∷◌,
  ◌≡◌, ◌≢◌, ◌⊎◌,
}
use vel.Auth.Tokens.Names.{
  HasUniqueNames, IsNew, add_scoped_token-eq_some, new_token, IsNew-remove_self,
}
use vel.Auth.Tokens.{
  ScopedToken, check_scoped_token, check_tokens, add_scoped_token, remove_scoped_token,
}

-- The first token of the list that carries this text.
abbrev pub Holds : Text → ScopedToken → List ScopedToken → Type 0
Holds token t [] = ⊥
Holds token t (x ∷ ts) = ((x.token ≡ token) × (x ≡ t)) ⊎ ((x.token ≢ token) × Holds token t ts)

-- One of its scopes is a prefix of the path.
abbrev pub Reaches : ScopedToken → Text → Type 0
Reaches t path = (scope : Text) × (rest : Text) × In scope t.scopes × (path ≡ scope ++ rest)

Reaches-iff :
    (t : ScopedToken) (path : Text)
    → (any (λ scope. has_prefix path scope) t.scopes ≡ true) ↔ Reaches t path
Reaches-iff t path = (
  λ h.
      let r = any_sound (λ scope. has_prefix path scope) t.scopes h in
      let p = (has_prefix_iff path r.0).0 r.2 in (r.0, p.0, r.1, p.1),
  λ (scope, rest, h, e).
      any_complete (λ s. has_prefix path s) scope t.scopes h
        ((has_prefix_iff path scope).1 (rest, e)),
)

check_tokens_sound :
    (ts : List ScopedToken) (token path name : Text)
    → name ≢ []
    → check_tokens ts token path ≡ name
    → (t : ScopedToken) × Holds token t ts × Reaches t path × (name ≡ t.name)
unfolding check_tokens
check_tokens_sound [] token path name n h = absurd (n (sym h))
check_tokens_sound (t ∷ ts) token path name n h = elim (Bool-cases (t.token == token)) [
  | inl same ↦ elim (Bool-cases (any (λ scope. has_prefix path scope) t.scopes)) [
    | inl hit ↦ (
      t,
      inl ((==_iff t.token token).0 same, refl),
      (Reaches-iff t path).0 hit,
      sym (rw (same, hit) at h),
    )
    | inr miss ↦ absurd (n (sym (rw (same, miss) at h)))
  ]
  | inr other ↦
      let r = check_tokens_sound ts token path name n (rw other at h) in
      (r.0, inr ((λ e. cc (other, (==_iff t.token token).1 e)), r.1), r.2, r.3)
]

check_tokens_complete :
    (ts : List ScopedToken) (t : ScopedToken) (token path : Text)
    → Holds token t ts
    → Reaches t path
    → check_tokens ts token path ≡ t.name
unfolding check_tokens
check_tokens_complete [] t token path h r = absurd h
check_tokens_complete (x ∷ ts) t token path (inl (e, s)) r =
    let hit : any (λ scope. has_prefix path scope) x.scopes ≡ true =
      (Reaches-iff x path).1 (subst (λ y. Reaches y path) (sym s) r) in
    rw ((==_iff x.token token).1 e, hit) (ap (λ y. y.name) s)
check_tokens_complete (x ∷ ts) t token path (inr (n, h)) r =
    let differs : (x.token == token) ≡ false = ground (arith, ==_iff x.token token) in
    rw differs (check_tokens_complete ts t token path h r)

-- A token passes under a name that is not empty exactly when it is not empty, it is the text of a
-- listed token of that name, the first with that text, and the path begins with one of that
-- token's scopes.
pub check_scoped_token_iff :
    (ts : List ScopedToken) (token path name : Text)
    → name ≢ []
    → (check_scoped_token ts token path ≡ name)
      ↔ ((token ≢ []) × ((t : ScopedToken) × Holds token t ts × Reaches t path × (name ≡ t.name)))
unfolding check_scoped_token
check_scoped_token_iff ts token path name n = elim (Bool-cases (token == [])) [
  | inl empty ↦
      let e : token ≡ [] = (==_iff token []).0 empty in
      rw empty (λ h. absurd (n (sym h)), λ (k, _). absurd (k e))
  | inr full ↦ rw full (
    λ h. (λ e. cc (full, (==_iff token []).1 e), check_tokens_sound ts token path name n h),
    λ (_, (t, holds, reaches, e)). check_tokens_complete ts t token path holds reaches ∙ sym e,
  )
]

Holds-name-ne :
    (name token : Text) (ts : List ScopedToken) (t : ScopedToken)
    → IsNew name ts
    → Holds token t ts
    → name ≢ t.name
Holds-name-ne name token [] t n h = absurd h
Holds-name-ne name token (x ∷ ts) t (d, n) (inl (_, e)) = subst (λ y. name ≢ y.name) e d
Holds-name-ne name token (x ∷ ts) t (d, n) (inr (_, h)) = Holds-name-ne name token ts t n h

-- A removed name is revoked: whatever the token and the path, no check answers with it any more.
removed_name_never_passes :
    (ts : List ScopedToken) (name token path : Text)
    → HasUniqueNames ts
    → name ≢ []
    → check_scoped_token (remove_scoped_token ts name).1 token path ≢ name
removed_name_never_passes ts name token path u n h =
    let (_, (t, holds, _, e)) =
      (check_scoped_token_iff (remove_scoped_token ts name).1 token path name n).0 h in
    Holds-name-ne name token (remove_scoped_token ts name).1 t (IsNew-remove_self name ts u) holds e

-- No listed token carries this text.
abbrev pub IsUnheld : Text → List ScopedToken → Type 0
IsUnheld token [] = Unit
IsUnheld token (t ∷ ts) = (t.token ≢ token) × IsUnheld token ts

Holds-append :
    (ts : List ScopedToken) (t : ScopedToken) → IsUnheld t.token ts → Holds t.token t (ts ++ t ∷ [])
Holds-append [] t h = inl (refl, refl)
Holds-append (x ∷ ts) t (n, h) = inr (n, Holds-append ts t h)

-- The token that AddScopedToken returns passes, under the new name, for every path that begins
-- with one of its scopes, if neither the token nor the name is empty and no earlier token has the
-- same text.
pub added_token_passes :
    (ts : List ScopedToken) (name : Text) (scopes : List Text) (random token : Text)
    (us : List ScopedToken) (scope rest : Text)
    → add_scoped_token ts name scopes random ≡ some (token, us)
    → token ≢ []
    → name ≢ []
    → IsUnheld token ts
    → In scope scopes
    → check_scoped_token us token (scope ++ rest) ≡ name
added_token_passes ts name scopes random token us scope rest h full n unheld listed =
    let (_, te, e) = add_scoped_token-eq_some ts name scopes random token us h in
    let t : ScopedToken = new_token name scopes random in
    let holds : Holds token t us =
      subst (λ y. Holds y t us) (sym te)
        (subst (Holds t.token t) (sym e)
          (Holds-append ts t (subst (λ y. IsUnheld y ts) te unheld))) in
    (check_scoped_token_iff us token (scope ++ rest) name n).1
      (full, (t, holds, (scope, rest, listed, refl), refl))
