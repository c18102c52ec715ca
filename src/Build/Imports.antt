-- ===== src/Build/Imports.antt =====
-- Which imports the scan lets through.
use vel.Common.{
  ==_iff, Bool-cases, In, Lacks, List, Text, [], any_complete, any_iff, any_sound, ap, arith,
  contains, cut, eqb, false, has_prefix, has_prefix_iff, if◌then◌else◌, inl, inr, lit, none, refl,
  some, subst, sym, true, ℕ, ◌&&◌, ◌++◌, ◌==◌, ◌||◌, ◌↔◌, ◌∙◌, ◌∷◌, ◌≡◌, ◌≢◌, ◌⊎◌,
}
use vel.Std.Values.{split}
use mathlib.Core.List.{append-nil, append_assoc}
use vel.Build.{
  Capabilities, unlocks, depends_on, is_in, is_or_below, is_standard, keys, tier2_categories,
  first_part, admits_dependency,
}

pub is_in_iff : (xs : List Text) (x : Text) → (is_in xs x ≡ true) ↔ In x xs
is_in_iff xs x = (
  λ h. let (y, i, e) = any_sound (λ y. y == x) xs h in subst (λ z. In z xs) ((==_iff y x).0 e) i,
  λ i. any_complete (λ y. y == x) x xs i ((==_iff x x).1 refl),
)

abbrev pub HasDot : Text → Type 0
HasDot s = In b'.' s

-- The first segment has a dot, as in the name of a host.
abbrev pub HasHost : Text → Type 0
HasHost path = (l : Text) × (r : Text) × (path ≡ l ++ b'.' ∷ r) × Lacks b'/' l

abbrev pub Declares : Capabilities → Text → Type 0
Declares none cap = ⊥
Declares (some caps) cap = In cap (keys caps)

abbrev pub IsOrBelow : Text → Text → Type 0
IsOrBelow path pkg = (path ≡ pkg) ⊎ ((t : Text) × (path ≡ pkg ++ b'/' ∷ t))

-- A declared capability unlocks the package or one above it.
abbrev pub IsUnlocked : Capabilities → Text → Type 0
IsUnlocked m path =
    (c : Text × List Text) × In c tier2_categories
    × Declares m c.0
    × ((pkg : Text) × In pkg c.1 × IsOrBelow path pkg)

-- A declared capability with a dot is a prefix of the path.
abbrev pub IsDependency : Capabilities → Text → Type 0
IsDependency m path = (cap : Text) × Declares m cap × HasDot cap × ((t : Text) × (path ≡ cap ++ t))

contains_iff : (s : Text) → (contains s (lit ".") ≡ true) ↔ HasDot s
unfolding contains has_prefix
contains_iff [] = ground arith
contains_iff (c ∷ s) = ground (arith, contains_iff s)

is_or_below_iff : (path pkg : Text) → (is_or_below path pkg ≡ true) ↔ IsOrBelow path pkg
is_or_below_iff path pkg =
    let slash : (t : Text) → (pkg ++ b'/' ∷ []) ++ t ≡ pkg ++ b'/' ∷ t =
      λ t. append_assoc pkg _ t in
    (
      λ h. elim (Bool-cases (path == pkg)) [
        | inl same ↦ inl ((==_iff path pkg).0 same)
        | inr other ↦
            let (t, e) = (has_prefix_iff path (pkg ++ b'/' ∷ [])).0 (ground arith) in
            inr (t, e ∙ slash t)
      ],
      λ h. elim h [
        | inl e ↦ rw ((==_iff path pkg).1 e)
        | inr (t, e) ↦
            let k = (has_prefix_iff path (pkg ++ b'/' ∷ [])).1 (t, e ∙ sym (slash t)) in
            ground arith
      ],
    )

split_cases : (b : ℕ) (s : Text) → (p : Text) × (ps : List Text) × (split b s ≡ p ∷ ps)
unfolding split
split_cases b [] = ([], [], refl)
split_cases b (c ∷ s) =
    let (p, ps, e) = split_cases b s in
    elim (Bool-cases (eqb c b)) [
      | inl cut ↦ ([], p ∷ ps, rw (e, cut))
      | inr joined ↦ (c ∷ p, ps, rw (e, joined))
    ]

first_part-split :
    (c : ℕ) (s : Text)
    → first_part (split b'/' (c ∷ s)) ≡ (if eqb c b'/' then [] else c ∷ first_part (split b'/' s))
unfolding split
first_part-split c s =
    let (p, ps, e) = split_cases b'/' s in
    elim (Bool-cases (eqb c b'/')) [ inl cut ↦ rw (e, cut) | inr joined ↦ rw (e, joined) ]

host_back :
    (c : ℕ) (s l r : Text)
    → (c ∷ s ≡ l ++ b'.' ∷ r)
    → Lacks b'/' l
    → (c ≡ b'.') ⊎ ((c ≢ b'/') × HasHost s)
host_back c s [] r e k = inl (ground arith)
host_back c s (d ∷ l) r e k = inr (ground arith, (l, r, ground arith, k.1))

host_nil : (l r : Text) → ◌≡◌ {A = Text} [] (l ++ b'.' ∷ r) → ⊥
host_nil [] r e = ground arith
host_nil (d ∷ l) r e = ground arith

host_iff : (path : Text) → HasDot (first_part (split b'/' path)) ↔ HasHost path
unfolding split
host_iff [] = (λ h. absurd h, λ (l, r, e, k). host_nil l r e)
host_iff (c ∷ s) = elim (Bool-cases (eqb c b'/')) [
  | inl cut ↦
      rw (first_part-split c s, cut)
        (
          λ h. absurd h,
          λ (l, r, e, k). elim (host_back c s l r e k) [
            | inl dot ↦ absurd (ground arith)
            | inr (other, h) ↦ absurd (ground arith)
          ],
        )
  | inr joined ↦
      rw (first_part-split c s, joined)
        (
          λ h. elim h [
            | inl dot ↦ ([], s, ground arith, tt)
            | inr later ↦
                let (l, r, e, k) = (host_iff s).0 later in
                (c ∷ l, r, ap (λ t. c ∷ t) e, (ground arith, k))
          ],
          λ (l, r, e, k). elim (host_back c s l r e k) [
            | inl dot ↦ inl (sym dot)
            | inr (other, h) ↦ inr ((host_iff s).1 h)
          ],
        )
]

pub is_standard_iff : (path : Text) → (is_standard path ≡ false) ↔ HasHost path
unfolding is_standard
is_standard_iff path = ground (arith, contains_iff (first_part (split b'/' path)), host_iff path)

-- The test of the whole path and the one of a segment add nothing to the test of the prefix.
prefix_of :
    (path cap : Text)
    → (is_or_below path cap || has_prefix path cap) ≡ true
    → has_prefix path cap ≡ true
prefix_of path cap h = elim (Bool-cases (is_or_below path cap)) [
  | inl below ↦ (has_prefix_iff path cap).1 (elim ((is_or_below_iff path cap).0 below) [
    | inl e ↦ ([], e ∙ sym (append-nil cap))
    | inr (t, e) ↦ (b'/' ∷ t, e)
  ])
  | inr other ↦ ground arith
]

pub unlocks_iff : (m : Capabilities) (path : Text) → (unlocks m path ≡ true) ↔ IsUnlocked m path
unfolding unlocks
unlocks_iff none path = (λ h. cc, λ h. absurd h.2)
unlocks_iff (some caps) path = (
  λ h.
      let (c, i, e) = (any_iff _ tier2_categories).0 h in
      let (pkg, j, f) = (any_iff (λ pkg. is_or_below path pkg && is_in (keys caps) c.0) c.1).0 e in
      (
        c,
        i,
        (is_in_iff (keys caps) c.0).0 (ground arith),
        (pkg, j, (is_or_below_iff path pkg).0 (ground arith)),
      ),
  λ (c, i, d, (pkg, j, f)).
      let declared = (is_in_iff (keys caps) c.0).1 d in
      let below = (is_or_below_iff path pkg).1 f in
      (any_iff _ tier2_categories).1 (c, i, (any_iff _ c.1).1 (pkg, j, ground arith)),
)

pub depends_on_iff :
    (m : Capabilities) (path : Text) → (depends_on m path ≡ true) ↔ IsDependency m path
unfolding depends_on admits_dependency
depends_on_iff none path = (λ h. cc, λ h. absurd h.1)
depends_on_iff (some caps) path = (
  λ h.
      let (cap, i, e) = (any_iff _ (keys caps)).0 h in
      (
        cap,
        i,
        (contains_iff cap).0 (ground arith),
        (has_prefix_iff path cap).0 (prefix_of path cap (ground arith)),
      ),
  λ (cap, i, dot, begins).
      let dotted = (contains_iff cap).1 dot in
      let prefix = (has_prefix_iff path cap).1 begins in
      (any_iff _ (keys caps)).1 (cap, i, ground arith),
)
