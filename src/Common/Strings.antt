-- ===== src/Common/Strings.antt =====
-- Go strings as lists of bytes: literals, `==`, `strings.HasPrefix`, `strings.TrimPrefix`,
-- `strings.HasSuffix`, `strings.TrimSuffix`, `strings.Index` and `strings.LastIndex` of one byte.
use Prim.Native.Nat.{ℕ, ◌-◌}
use Prim.Native.Char.{code}
use Prim.Native.String.{String}
use mathlib.Core.Path.{◌≡◌, refl, sym, ap, ◌∙◌}
use mathlib.Core.Logic.{◌↔◌, ◌≢◌, inl, inr}
use mathlib.Core.Bool.{Bool, true, false}
use mathlib.Core.List.{List, [], ◌∷◌, ◌++◌, reverse, reverse-append, reverse-reverse}
use mathlib.Core.Option
use mathlib.Core.Option.{Option, none, some}
use native.Mathlib.Omega.{arith}
use vel.Common.Tests.{eqb, if◌then◌else◌, Option-cases}
use vel.Common.Lists.{length, take, drop, length-append}

abbrev pub Text : Type 0
Text = List ℕ

-- The bytes of an ASCII literal.
abbrev pub lit : String → Text
lit String.[] = []
lit (String.◌∷◌ c s) = code c ∷ lit s

infix 50 ◌==◌
unfoldable pub ◌==◌ : Text → Text → Bool
[] == [] = true
(x ∷ xs) == (y ∷ ys) = if eqb x y then xs == ys else false
_ == _ = false

pub ==_iff : (s t : Text) → ((s == t) ≡ true) ↔ (s ≡ t)
unfolding ◌==◌
==_iff [] [] = ground arith
==_iff (x ∷ xs) (y ∷ ys) = ground (arith, ==_iff xs ys)
==_iff [] (y ∷ ys) = ground arith
==_iff (x ∷ xs) [] = ground arith

pub ==_refl : (s : Text) → (s == s) ≡ true
==_refl s = (==_iff s s).1 refl

unfoldable pub has_prefix : Text → Text → Bool
has_prefix s [] = true
has_prefix [] (p ∷ ps) = false
has_prefix (c ∷ s) (p ∷ ps) = if eqb c p then has_prefix s ps else false

-- A prefix is what some text extends.
pub has_prefix_iff : (s p : Text) → (has_prefix s p ≡ true) ↔ ((t : Text) × (s ≡ p ++ t))
unfolding has_prefix
has_prefix_iff s [] = (λ _. (s, refl), λ _. refl)
has_prefix_iff [] (p ∷ ps) = (λ h. absurd (ground arith), λ (t, e). ground arith)
has_prefix_iff (c ∷ s) (p ∷ ps) = (
  λ h.
      let r : (t : Text) × (s ≡ ps ++ t) = (has_prefix_iff s ps).0 (ground arith) in
      (r.0, ground (arith, r.1)),
  λ (t, e).
      let k : has_prefix s ps ≡ true = (has_prefix_iff s ps).1 (t, ground arith) in ground arith,
)

pub has_prefix-append : (p t : Text) → has_prefix (p ++ t) p ≡ true
has_prefix-append p t = (has_prefix_iff (p ++ t) p).1 (t, refl)

-- `strings.TrimPrefix`: the text unchanged where the prefix is absent.
unfoldable pub trim_prefix : Text → Text → Text
trim_prefix s p = if has_prefix s p then drop (length p) s else s

pub drop-append : (p t : Text) → drop (length p) (p ++ t) ≡ t
drop-append [] t = refl
drop-append (x ∷ p) t = drop-append p t

pub trim_prefix-append : (p t : Text) → trim_prefix (p ++ t) p ≡ t
unfolding trim_prefix
trim_prefix-append p t = rw has_prefix-append (drop-append p t)

-- `strings.Contains`, the sought text not empty.
unfoldable pub contains : Text → Text → Bool
contains [] p = has_prefix [] p
contains (c ∷ s) p = if has_prefix (c ∷ s) p then true else contains s p

-- `strings.HasSuffix`
unfoldable pub has_suffix : Text → Text → Bool
has_suffix s p = has_prefix (reverse s) (reverse p)

-- `strings.TrimSuffix`
unfoldable pub trim_suffix : Text → Text → Text
trim_suffix s p = if has_suffix s p then take (length s - length p) s else s

pub take-append : (s t : Text) → take (length s) (s ++ t) ≡ s
take-append [] t = refl
take-append (x ∷ s) t = ap (◌∷◌ x) (take-append s t)

pub has_suffix_iff : (s p : Text) → (has_suffix s p ≡ true) ↔ ((t : Text) × (s ≡ t ++ p))
unfolding has_suffix
has_suffix_iff s p = (
  λ h.
      let r = (has_prefix_iff (reverse s) (reverse p)).0 h in
      (
        reverse r.0,
        sym (reverse-reverse s)
            ∙ ap reverse r.1
            ∙ reverse-append (reverse p) r.0
            ∙ ap (◌++◌ (reverse r.0)) (reverse-reverse p),
      ),
  λ (t, e).
      (has_prefix_iff (reverse s) (reverse p)).1 (reverse t, ap reverse e ∙ reverse-append t p),
)

pub trim_suffix-append : (t p : Text) → trim_suffix (t ++ p) p ≡ t
unfolding trim_suffix
trim_suffix-append t p =
    rw ((has_suffix_iff (t ++ p) p).1 (t, refl))
      (ap (λ n. take n (t ++ p)) (omega (arith, length-append {0} t p)) ∙ take-append t p)

-- `strings.Index` of one byte, split at the first hit: what stands before it and after it.
unfoldable pub cut : ℕ → Text → Option (Text × Text)
cut b [] = none
cut b (c ∷ s) = if eqb c b then some ([], s) else Option.map (λ (l, r). (c ∷ l, r)) (cut b s)

-- `strings.LastIndex` of one byte, likewise.
unfoldable pub cut_last : ℕ → Text → Option (Text × Text)
cut_last b [] = none
cut_last b (c ∷ s) = elim (cut_last b s) [
  | some (l, r) ↦ some (c ∷ l, r)
  | none ↦ if eqb c b then some ([], s) else none
]

-- No byte of the text is `b`.
abbrev pub Lacks : ℕ → Text → Type 0
Lacks b [] = Unit
Lacks b (c ∷ s) = (c ≢ b) × Lacks b s

pub cut_last-Lacks : (b : ℕ) (s : Text) → Lacks b s → cut_last b s ≡ none
unfolding cut_last
cut_last-Lacks b [] h = refl
cut_last-Lacks b (c ∷ s) (n, h) = rw (cut_last-Lacks b s h) (ground arith)

-- The text after the last hit is found whole if it holds no hit.
pub cut_last-append : (b : ℕ) (l r : Text) → Lacks b r → cut_last b (l ++ b ∷ r) ≡ some (l, r)
unfolding cut_last
cut_last-append b [] r h = rw (cut_last-Lacks b r h) (ground arith)
cut_last-append b (c ∷ l) r h = rw (cut_last-append b l r h)

pub cut-append : (b : ℕ) (l r : Text) → Lacks b l → cut b (l ++ b ∷ r) ≡ some (l, r)
unfolding cut
cut-append b [] r h = ground arith
cut-append b (c ∷ l) r (n, h) = ground (arith, cut-append b l r h)

pub cut_sound : (b : ℕ) (s : Text) {l r : Text} → cut b s ≡ some (l, r) → s ≡ l ++ b ∷ r
unfolding cut
cut_sound b [] h = absurd (ground arith)
cut_sound b (c ∷ s) h = elim (Option-cases (cut b s)) [
  | inl e ↦ ground arith
  | inr ((l', r'), e) ↦
      let ih : s ≡ l' ++ b ∷ r' = cut_sound b s {l = l'} {r = r'} e in ground arith
]

pub cut_last_sound : (b : ℕ) (s : Text) {l r : Text} → cut_last b s ≡ some (l, r) → s ≡ l ++ b ∷ r
unfolding cut_last
cut_last_sound b [] h = absurd (ground arith)
cut_last_sound b (c ∷ s) h = elim (Option-cases (cut_last b s)) [
  | inl e ↦ ground arith
  | inr ((l', r'), e) ↦
      let ih : s ≡ l' ++ b ∷ r' = cut_last_sound b s {l = l'} {r = r'} e in ground arith
]
