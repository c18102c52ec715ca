-- ===== src/Cap/Decision.antt =====
-- Which calls pass.
use vel.Common.{
  ==_iff, Bool, Bool-cases, In, List, Text, [], any_complete, any_sound, arith, false, has_prefix,
  has_prefix_iff, inl, inr, lit, refl, sym, true, ◌++◌, ◌==◌, ◌||◌, ◌↔◌, ◌∙◌, ◌∷◌, ◌≡◌, ◌≢◌, ◌⊎◌,
}
use mathlib.Core.List.{append_assoc, append-nil}
use vel.Cap.{Config, decide, lookup_flag, parent_listed, pass, blacklisted, denied}

-- A key of the map, with whatever value, is a prefix of the package path.
abbrev pub HasParent : List (Text × Bool) → Text → Type 0
HasParent m pkg = (e : Text × Bool) × (rest : Text) × In e m × (pkg ≡ e.0 ++ rest)

abbrev pub IsBlocked : Config → Text → Text → Type 0
IsBlocked cfg pkg fn =
    (lookup_flag cfg.blacklist (pkg ++ (lit "." ++ fn)) ≡ true)
    ⊎ (lookup_flag cfg.site_block (pkg ++ (lit "." ++ fn)) ≡ true)

parent_test :
    (k pkg : Text) → (has_prefix pkg (k ++ lit "/") || has_prefix pkg k) ≡ has_prefix pkg k
parent_test k pkg = elim (Bool-cases (has_prefix pkg (k ++ lit "/"))) [
  | inl deep ↦
      let r = (has_prefix_iff pkg (k ++ lit "/")).0 deep in
      let shallow : has_prefix pkg k ≡ true =
        (has_prefix_iff pkg k).1 (lit "/" ++ r.0, r.1 ∙ append_assoc k (lit "/") r.0) in
      rw (deep, shallow)
  | inr other ↦ rw other
]

parent_listed_iff :
    (m : List (Text × Bool)) (pkg : Text) → (parent_listed m pkg ≡ true) ↔ HasParent m pkg
unfolding parent_listed
parent_listed_iff m pkg = (
  λ h.
      let r = any_sound (λ e. has_prefix pkg (e.0 ++ lit "/") || has_prefix pkg e.0) m h in
      let p = (has_prefix_iff pkg r.0.0).0 (sym (parent_test r.0.0 pkg) ∙ r.2) in
      (r.0, p.0, r.1, p.1),
  λ (e, rest, i, eq).
      any_complete (λ x. has_prefix pkg (x.0 ++ lit "/") || has_prefix pkg x.0) e m i
        (parent_test e.0 pkg ∙ (has_prefix_iff pkg e.0).1 (rest, eq)),
)

-- A flag that is set stands under a key, which is a prefix of itself.
lookup_flag-HasParent :
    (m : List (Text × Bool)) (pkg : Text) → lookup_flag m pkg ≡ true → HasParent m pkg
unfolding lookup_flag
lookup_flag-HasParent [] pkg h = absurd (ground arith)
lookup_flag-HasParent ((k, v) ∷ m) pkg h = elim (Bool-cases (k == pkg)) [
  | inl same ↦ ((k, v), [], inl refl, sym ((==_iff k pkg).0 same) ∙ sym (append-nil k))
  | inr other ↦ let r = lookup_flag-HasParent m pkg (rw other at h) in (r.0, r.1, inr r.2, r.3)
]

flag-parent_listed :
    (m : List (Text × Bool)) (pkg : Text) → lookup_flag m pkg ≡ true → parent_listed m pkg ≡ true
flag-parent_listed m pkg h = (parent_listed_iff m pkg).1 (lookup_flag-HasParent m pkg h)

abbrev is_blocked : Config → Text → Text → Bool
is_blocked cfg pkg fn =
    lookup_flag cfg.blacklist (pkg ++ (lit "." ++ fn))
    || lookup_flag cfg.site_block (pkg ++ (lit "." ++ fn))

IsBlocked-test :
    (cfg : Config) (pkg fn : Text) → is_blocked cfg pkg fn ≡ false → ¬ IsBlocked cfg pkg fn
IsBlocked-test cfg pkg fn h (inl e) = ground arith
IsBlocked-test cfg pkg fn h (inr e) = ground arith

free_test : (cfg : Config) (pkg fn : Text) → ¬ IsBlocked cfg pkg fn → is_blocked cfg pkg fn ≡ false
free_test cfg pkg fn free = elim (Bool-cases (is_blocked cfg pkg fn)) [
  | inl h ↦ absurd (free (ground arith))
  | inr h ↦ h
]

or_true_right : (a b : Bool) → b ≡ true → (a || b) ≡ true
or_true_right a b h = ground arith

decide_tests :
    (cfg : Config) (pkg fn : Text)
    → cfg.mode ≢ lit "bypass"
    → ((decide cfg pkg fn).1 ≡ pass) ↔ (
        (is_blocked cfg pkg fn ≡ false)
        × ((parent_listed cfg.app_caps pkg ≡ true) ⊎ (parent_listed cfg.site_allow pkg ≡ true)))
unfolding decide
decide_tests cfg pkg fn strict = ground (
  arith,
  ==_iff cfg.mode (lit "bypass"),
  flag-parent_listed cfg.app_caps pkg,
  flag-parent_listed cfg.site_allow pkg,
)

-- In strict mode a call passes exactly when it is not blocked and some key of the declared or the
-- site's capabilities is a prefix of its package path. The value under the key plays no part.
pub decide_strict_iff :
    (cfg : Config) (pkg fn : Text)
    → cfg.mode ≢ lit "bypass"
    → ((decide cfg pkg fn).1 ≡ pass)
      ↔ ((¬ IsBlocked cfg pkg fn) × (HasParent cfg.app_caps pkg ⊎ HasParent cfg.site_allow pkg))
decide_strict_iff cfg pkg fn strict =
    let (to, from) = decide_tests cfg pkg fn strict in
    (
      λ h.
          let r = to h in
          (
            λ b. IsBlocked-test cfg pkg fn r.0 b,
            elim r.1 [
              | inl app ↦ inl ((parent_listed_iff cfg.app_caps pkg).0 app)
              | inr site ↦ inr ((parent_listed_iff cfg.site_allow pkg).0 site)
            ],
          ),
      λ (free, listed). from (
        free_test cfg pkg fn free,
        elim listed [
          | inl app ↦ inl ((parent_listed_iff cfg.app_caps pkg).1 app)
          | inr site ↦ inr ((parent_listed_iff cfg.site_allow pkg).1 site)
        ],
      ),
    )

-- Whatever else is declared or allowed, and in either mode, a call whose key is true in the
-- blacklist or among the site's blocks is refused with that key, and logged as denied.
blocked_is_denied :
    (cfg : Config) (pkg fn : Text)
    → IsBlocked cfg pkg fn
    → decide cfg pkg fn ≡ (denied, blacklisted (pkg ++ (lit "." ++ fn)))
unfolding decide
blocked_is_denied cfg pkg fn (inl e) = rw e
blocked_is_denied cfg pkg fn (inr e) = rw (or_true_right _ _ e)

-- A capability that the app sets to false lets the package's calls pass all the same, in strict
-- mode too, unless the call is blocked.
false_capability_passes :
    (cfg : Config) (pkg fn : Text)
    → In (pkg, false) cfg.app_caps
    → ¬ IsBlocked cfg pkg fn
    → (decide cfg pkg fn).1 ≡ pass
unfolding decide
false_capability_passes cfg pkg fn listed free =
    let parent : parent_listed cfg.app_caps pkg ≡ true =
      (parent_listed_iff cfg.app_caps pkg).1 ((pkg, false), [], listed, sym (append-nil pkg)) in
    ground (arith, parent, free_test cfg pkg fn free)
