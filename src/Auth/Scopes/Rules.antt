-- ===== src/Auth/Scopes/Rules.antt =====
-- What a scope grants, read off its five formats, and that `CheckScope` decides it.
use vel.Common.{
  ==_iff, ==_refl, Bool-cases, In, Lacks, List, Option-cases, Text, [], any_complete, any_sound, ap,
  arith, cut, cut-append, cut_sound, false, has_prefix, has_prefix_iff, has_suffix, has_suffix_iff,
  if◌then◌else◌, inl, inr, lit, not, refl, some, subst, sym, trim_suffix-append, true, ◌&&◌, ◌++◌,
  ◌==◌, ◌↔◌, ◌∙◌, ◌∷◌, ◌≡◌, ◌≢◌, ◌⊎◌,
}
use vel.Auth.Scopes.{
  http_methods, path_matches, is_http_method, split_scope, scope_allows, check_scope,
}

-- A scope names a method in front of a space, or none.
abbrev pub Names : Text → Text → Text → Type 0
Names scope m p = In m http_methods × (scope ≡ m ++ b' ' ∷ p)

-- `/path/*` stands for every path that begins with `/path`; any other path for itself.
abbrev pub Covers : Text → Text → Type 0
Covers scope_path path =
    ((p : Text) × (t : Text) × (scope_path ≡ p ++ lit "/*") × (path ≡ p ++ t))
    ⊎ (((p : Text) → scope_path ≢ p ++ lit "/*") × (path ≡ scope_path))

abbrev pub Grants : Text → Text → Text → Type 0
Grants method path scope =
    (scope ≡ lit "*")
    ⊎ ((p : Text) × Names scope method p × Covers p path)
    ⊎ (((m p : Text) → ¬ Names scope m p) × Covers scope path)

path_matches-wildcard : (p path : Text) → path_matches (p ++ lit "/*") path ≡ has_prefix path p
unfolding path_matches
path_matches-wildcard p path =
    rw ((has_suffix_iff (p ++ lit "/*") (lit "/*")).1 (p, refl))
      (ap (has_prefix path) (trim_suffix-append p (lit "/*")))

path_matches-exact :
    (scope_path path : Text)
    → has_suffix scope_path (lit "/*") ≡ false
    → path_matches scope_path path ≡ (path == scope_path)
unfolding path_matches
path_matches-exact scope_path path h = rw h

not_wildcard :
    (scope_path : Text)
    → has_suffix scope_path (lit "/*") ≡ false
    → (p : Text) → scope_path ≢ p ++ lit "/*"
not_wildcard scope_path h p e = cc (h, (has_suffix_iff scope_path (lit "/*")).1 (p, e))

path_matches_sound :
    (scope_path path : Text) → path_matches scope_path path ≡ true → Covers scope_path path
path_matches_sound scope_path path h = elim (Bool-cases (has_suffix scope_path (lit "/*"))) [
  | inl wild ↦
      let w = (has_suffix_iff scope_path (lit "/*")).0 wild in
      let hit : has_prefix path w.0 ≡ true =
        sym (path_matches-wildcard w.0 path) ∙ ap (λ t. path_matches t path) (sym w.1) ∙ h in
      let below = (has_prefix_iff path w.0).0 hit in inl (w.0, below.0, w.1, below.1)
  | inr exact ↦ inr (
    not_wildcard scope_path exact,
    (==_iff path scope_path).0 (sym (path_matches-exact scope_path path exact) ∙ h),
  )
]

path_matches_complete :
    (scope_path path : Text) → Covers scope_path path → path_matches scope_path path ≡ true
path_matches_complete scope_path path (inl (p, t, e, f)) =
    rw (e, path_matches-wildcard) ((has_prefix_iff path p).1 (t, f))
path_matches_complete scope_path path (inr (plain, e)) =
    elim (Bool-cases (has_suffix scope_path (lit "/*"))) [
      | inl wild ↦ let w = (has_suffix_iff scope_path (lit "/*")).0 wild in absurd (plain w.0 w.1)
      | inr exact ↦ path_matches-exact scope_path path exact ∙ (==_iff path scope_path).1 e
    ]

method-Lacks : (m : Text) → In m http_methods → Lacks b' ' m
method-Lacks m (inl e) = rw e (omega arith)
method-Lacks m (inr (inl e)) = rw e (omega arith)
method-Lacks m (inr (inr (inl e))) = rw e (omega arith)
method-Lacks m (inr (inr (inr (inl e)))) = rw e (omega arith)
method-Lacks m (inr (inr (inr (inr (inl e))))) = rw e (omega arith)
method-Lacks m (inr (inr (inr (inr (inr (inl e)))))) = rw e (omega arith)
method-Lacks m (inr (inr (inr (inr (inr (inr (inl e))))))) = rw e (omega arith)
method-Lacks m (inr (inr (inr (inr (inr (inr (inr e))))))) = absurd e

method-ne-nil : (m : Text) → In m http_methods → m ≢ []
method-ne-nil m h e = elim (subst (λ t. In t http_methods) e h) [
  | inl c ↦ cc
  | inr k ↦ ground arith
]

is_http_method_iff : (m : Text) → (is_http_method m ≡ true) ↔ In m http_methods
unfolding is_http_method
is_http_method_iff m = (
  λ h.
      let r = any_sound (λ x. m == x) http_methods h in
      subst (λ x. In x http_methods) (sym ((==_iff m r.0).0 r.2)) r.1,
  λ h. any_complete (λ x. m == x) m http_methods h ((==_iff m m).1 refl),
)

ne-nil-eq_nil : (m : Text) → m ≢ [] → (m == []) ≡ false
unfolding ◌==◌
ne-nil-eq_nil [] h = absurd (h refl)
ne-nil-eq_nil (c ∷ m) h = refl

-- A method in front of the first space is split off, and nothing else is.
cut-Names : (scope m p : Text) → Names scope m p → cut b' ' scope ≡ some (m, p)
cut-Names scope m p (h, e) = rw (e, cut-append b' ' m p (method-Lacks m h))

split_scope-Names : (scope m p : Text) → Names scope m p → split_scope scope ≡ (m, p)
unfolding split_scope
split_scope-Names scope m p n = rw (
  cut-Names scope m p n,
  split_scope,
  ne-nil-eq_nil m (method-ne-nil m n.0),
  (is_http_method_iff m).1 n.0,
)

Splits : Text → Type 0
Splits scope =
    ((m p : Text) × Names scope m p × (split_scope scope ≡ (m, p)))
    ⊎ (((m p : Text) → ¬ Names scope m p) × (split_scope scope ≡ ([], scope)))

split_scope-Splits : (scope : Text) → Splits scope
unfolding Splits split_scope
split_scope-Splits scope = elim (Option-cases (cut b' ' scope)) [
  | inl none_e ↦ inr (λ m p n. cc (cut-Names scope m p n, none_e), rw (none_e, split_scope))
  | inr ((m, p), some_e) ↦ elim (Bool-cases (not (m == []) && is_http_method m)) [
    | inl good ↦
        let n : Names scope m p =
          ((is_http_method_iff m).0 (ground arith), cut_sound b' ' scope some_e) in
        inl (m, p, n, split_scope-Names scope m p n)
    | inr bad ↦ inr (
      λ m' p' n.
          let same : m ≡ m' = cc (cut-Names scope m' p' n, some_e) in
          let hit : is_http_method m ≡ true = rw same ((is_http_method_iff m').1 n.0) in
          let full : (m == []) ≡ false = rw same (ne-nil-eq_nil m' (method-ne-nil m' n.0)) in
          ground arith,
      rw (some_e, split_scope, bad),
    )
  ]
]

nil_eq : (([] == []) ≡ true)
unfolding ◌==◌
nil_eq = refl

module _ (method path scope : Text) where
  scope_allows-star : scope ≡ lit "*" → scope_allows method path scope ≡ true
  unfolding scope_allows
  scope_allows-star e = rw ((==_iff scope (lit "*")).1 e)

  scope_allows-named :
      (m p : Text)
      → Names scope m p
      → (scope == lit "*") ≡ false
      → scope_allows method path scope ≡ (if m == method then path_matches p path else false)
  unfolding scope_allows
  scope_allows-named m p n star =
      rw (star, split_scope-Names scope m p n, ne-nil-eq_nil m (method-ne-nil m n.0))
        (elim (Bool-cases (m == method)) [ inl same ↦ rw same | inr other ↦ rw other ])

  scope_allows-plain :
      split_scope scope ≡ ([], scope)
      → (scope == lit "*") ≡ false
      → scope_allows method path scope ≡ path_matches scope path
  unfolding scope_allows
  scope_allows-plain e star = rw (star, e, nil_eq)

  scope_allows_sound : scope_allows method path scope ≡ true → Grants method path scope
  unfolding Splits
  scope_allows_sound h = elim (Bool-cases (scope == lit "*")) [
    | inl star ↦ inl ((==_iff scope (lit "*")).0 star)
    | inr other ↦ elim (split_scope-Splits scope) [
      | inl (m, p, n, e) ↦ elim (Bool-cases (m == method)) [
        | inl same ↦
            let hit : path_matches p path ≡ true =
              rw same at (sym (scope_allows-named m p n other) ∙ h) in
            inr (
              inl (
                p,
                subst (λ t. Names scope t p) ((==_iff m method).0 same) n,
                path_matches_sound p path hit,
              ))
        | inr differs ↦
            let miss : false ≡ true = rw differs at (sym (scope_allows-named m p n other) ∙ h) in cc
      ]
      | inr (plain, e) ↦
          inr (inr (plain, path_matches_sound scope path (sym (scope_allows-plain e other) ∙ h)))
    ]
  ]

  scope_allows_complete : Grants method path scope → scope_allows method path scope ≡ true
  unfolding Splits
  scope_allows_complete g = elim (Bool-cases (scope == lit "*")) [
    | inl star ↦ scope_allows-star ((==_iff scope (lit "*")).0 star)
    | inr other ↦ elim g [
      | inl e ↦ scope_allows-star e
      | inr (inl (p, n, c)) ↦
          scope_allows-named method p n other ∙ rw (==_refl method) (path_matches_complete p path c)
      | inr (inr (plain, c)) ↦ elim (split_scope-Splits scope) [
        | inl (m, p, n, e) ↦ absurd (plain m p n)
        | inr (_, e) ↦ scope_allows-plain e other ∙ path_matches_complete scope path c
      ]
    ]
  ]

-- CheckScope returns true exactly when one of the scopes grants the method and the path: the scope
-- is `*`, or it names the method and a path pattern that covers the path, or it names no method and
-- is itself such a pattern. A pattern `p/*` covers the paths that begin with `p`, and any other
-- pattern covers itself. No scopes grant nothing.
pub check_scope_iff :
    (scopes : List Text) (method path : Text)
    → (check_scope scopes method path ≡ true)
      ↔ ((scope : Text) × In scope scopes × Grants method path scope)
unfolding check_scope
check_scope_iff scopes method path = (
  λ h.
      let r = any_sound (scope_allows method path) scopes h in
      (r.0, r.1, scope_allows_sound method path r.0 r.2),
  λ (scope, h, g).
      any_complete (scope_allows method path) scope scopes h
        (scope_allows_complete method path scope g),
)
