-- ===== src/Apps/Patterns.antt =====
-- The two patterns of app.json: what a name and what a version may be.
use vel.Common.{
  ==_iff, All, Bool, Bool-cases, Text, [], ap, arith, eqb, false, inl, inr, refl, true, ℕ, ◌++◌,
  ◌||◌, ◌↔◌, ◌∙◌, ◌∷◌, ◌≡◌, ◌≢◌, ◌≤◌, ◌⊎◌,
}
use vel.Apps.{
  all_bytes, digits_then, is_digit, is_name_byte, matches_name, span_digits, dot_then,
  matches_semver,
}

abbrev pub IsDigit : ℕ → Type 0
IsDigit c = (b'0' ≤ c) × (c ≤ b'9')

abbrev pub IsNameByte : ℕ → Type 0
IsNameByte c = ((b'a' ≤ c) × (c ≤ b'z')) ⊎ IsDigit c

-- A small letter or a digit, and then small letters, digits and hyphens.
abbrev pub IsAppName : Text → Type 0
IsAppName [] = ⊥
IsAppName (c ∷ s) = IsNameByte c × All (λ d. IsNameByte d ⊎ (d ≡ b'-')) s

abbrev pub IsNumber : Text → Type 0
IsNumber ds = (ds ≢ []) × All IsDigit ds

-- It begins with three numbers, with dots between them.
abbrev pub IsVersion : Text → Type 0
IsVersion v =
    (a : Text) × (b : Text) × (c : Text) × (t : Text) × IsNumber a
    × IsNumber b
    × IsNumber c
    × (v ≡ a ++ b'.' ∷ (b ++ b'.' ∷ (c ++ t)))

all_bytes_iff :
    (p : ℕ → Bool) (P : ℕ → Type 0)
    → ((c : ℕ) → (p c ≡ true) ↔ P c)
    → (s : Text) → (all_bytes p s ≡ true) ↔ All P s
unfolding all_bytes
all_bytes_iff p P each [] = (λ h. tt, λ h. refl)
all_bytes_iff p P each (c ∷ s) = ground (arith, each c, all_bytes_iff p P each s)

pub matches_name_iff : (s : Text) → (matches_name s ≡ true) ↔ IsAppName s
unfolding matches_name
matches_name_iff [] = (λ h. cc, λ h. absurd h)
matches_name_iff (c ∷ s) = ground (
  arith,
  all_bytes_iff (λ d. is_name_byte d || eqb d b'-') (λ d. IsNameByte d ⊎ (d ≡ b'-'))
      (λ d. ground arith) s,
)

-- A text that does not begin with a digit.
abbrev Stops : Text → Type 0
Stops [] = Unit
Stops (c ∷ s) = is_digit c ≡ false

span_sound :
    (s : Text) → (s ≡ (span_digits s).0 ++ (span_digits s).1) × All IsDigit (span_digits s).0
unfolding span_digits
span_sound [] = (refl, tt)
span_sound (c ∷ s) =
    let (e, digits) = span_sound s in
    elim (Bool-cases (is_digit c)) [
      | inl digit ↦ rw digit (ap (λ t. c ∷ t) e, (ground arith, digits))
      | inr other ↦ rw other (refl, tt)
    ]

span-append : (ds rest : Text) → All IsDigit ds → Stops rest → span_digits (ds ++ rest) ≡ (ds, rest)
unfolding span_digits
span-append [] [] h k = refl
span-append [] (c ∷ s) h k = rw k
span-append (d ∷ ds) rest h k =
    let digit : is_digit d ≡ true = ground arith in rw (digit, span-append ds rest h.1 k)

digits_then_sound :
    (next : Text → Bool) (s : Text)
    → digits_then next s ≡ true
    → (ds : Text) × (rest : Text) × IsNumber ds × (s ≡ ds ++ rest) × (next rest ≡ true)
unfolding digits_then
digits_then_sound next s h =
    let (e, digits) = span_sound s in
    (
      (span_digits s).0,
      (span_digits s).1,
      ((λ k. ground (arith, ==_iff (span_digits s).0 [])), digits),
      e,
      ground arith,
    )

digits_then_complete :
    (next : Text → Bool) (ds rest : Text)
    → IsNumber ds
    → Stops rest
    → next rest ≡ true
    → digits_then next (ds ++ rest) ≡ true
unfolding digits_then
digits_then_complete next ds rest number stops h =
    rw (span-append ds rest number.1 stops) (ground (arith, ==_iff ds [], number.0))

digits_then_last : (ds t : Text) → IsNumber ds → digits_then (λ rest. true) (ds ++ t) ≡ true
unfolding digits_then span_digits
digits_then_last [] t number = absurd (number.0 refl)
digits_then_last (d ∷ ds) t number =
    let digit : is_digit d ≡ true = ground arith in
    rw digit (ground (arith, ==_iff (d ∷ (span_digits (ds ++ t)).0) []))

dot_then_sound :
    (next : Text → Bool) (s : Text)
    → dot_then next s ≡ true
    → (rest : Text) × (s ≡ b'.' ∷ rest) × (next rest ≡ true)
unfolding dot_then
dot_then_sound next [] h = cc
dot_then_sound next (c ∷ s) h = (s, ground arith, ground arith)

matches_sound : (v : Text) → matches_semver v ≡ true → IsVersion v
unfolding matches_semver
matches_sound v h =
    let (a, r, num_a, e, h1) = digits_then_sound _ v h in
    let (r1, e1, h2) = dot_then_sound _ r h1 in
    let (b, r2, num_b, e2, h3) = digits_then_sound _ r1 h2 in
    let (r3, e3, h4) = dot_then_sound _ r2 h3 in
    let (c, t, num_c, e4, h5) = digits_then_sound _ r3 h4 in
    (
      a,
      b,
      c,
      t,
      num_a,
      num_b,
      num_c,
      e
          ∙ ap (λ x. a ++ x)
              (e1 ∙ ap (λ x. b'.' ∷ x) (e2 ∙ ap (λ x. b ++ x) (e3 ∙ ap (λ x. b'.' ∷ x) e4))),
    )

pub matches_semver_iff : (v : Text) → (matches_semver v ≡ true) ↔ IsVersion v
unfolding matches_semver dot_then
matches_semver_iff v = (
  matches_sound v,
  λ (a, b, c, t, num_a, num_b, num_c, e). rw e (
      digits_then_complete _ a (b'.' ∷ (b ++ b'.' ∷ (c ++ t))) num_a refl
        (digits_then_complete _ b (b'.' ∷ (c ++ t)) num_b refl (digits_then_last c t num_c))),
)
