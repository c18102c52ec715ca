-- ===== src/Auth/Telegram/Decimal.antt =====
-- strconv.FormatInt in base 10, and what `ParseInt` makes of its digits.
use vel.Common.{
  Bool, Bool-cases, Option-cases, Text, [], ap, arith, eqb, false, if◌then◌else◌, inl, inr, leb,
  ltb, negsuc, pos, refl, some, suc, true, zero, ℕ, ℤ, ◌%◌, ◌*◌, ◌++◌, ◌+◌, ◌-◌, ◌/◌, ◌<◌, ◌∙◌, ◌∷◌,
  ◌≡◌, ◌≢◌, ◌≤◌,
}
use vel.Auth.Telegram.{max_uint, digits_value, two_63, parse_int, parse_magnitude}

-- The digits of `n`, the last of them first to be found; the fuel is more than `n`, which has fewer
-- digits.
unfoldable pub digits : ℕ → ℕ → Text
digits zero n = []
digits (suc fuel) n =
    let rest = digits fuel (n / 10) in (if eqb (n / 10) 0 then [] else rest) ++ (b'0' + n % 10) ∷ []

unfoldable pub format_nat : ℕ → Text
format_nat n = digits (suc n) n

unfoldable pub format_int : ℤ → Text
format_int (pos n) = format_nat n
format_int (negsuc n) = b'-' ∷ format_nat (suc n)

-- The range of int64.
abbrev pub InRange : ℤ → Type 0
InRange (pos n) = n < two_63
InRange (negsuc n) = n < two_63

digits_value-snoc :
    (m n k : ℕ) (s : Text)
    → digits_value m s ≡ some n
    → k < 10
    → 10 * n + k ≤ max_uint
    → digits_value m (s ++ (b'0' + k) ∷ []) ≡ some (10 * n + k)
unfolding digits_value
digits_value-snoc m n k [] h lt fits = ground arith
digits_value-snoc m n k (c ∷ s) h lt fits =
    ground (arith, digits_value-snoc (10 * m + (c - b'0')) n k s)

base : digits_value 0 [] ≡ some 0
unfolding digits_value
base = refl

digits_value-digits :
    (fuel n : ℕ) → n ≤ max_uint → n < fuel → digits_value 0 (digits fuel n) ≡ some n
unfolding digits
digits_value-digits zero n fits h = absurd (omega arith)
digits_value-digits (suc fuel) n fits h = elim (Bool-cases (eqb (n / 10) 0)) [
  | inl small ↦
      rw small (
        digits_value-snoc 0 0 (n % 10) [] base (omega arith) (omega arith) ∙ ap some (ground arith))
  | inr more ↦ rw more (
      digits_value-snoc 0 (n / 10) (n % 10) (digits fuel (n / 10))
        (digits_value-digits fuel (n / 10) (omega arith) (ground arith)) (omega arith) (omega arith)
      ∙ ap some (omega arith))
]

snoc-filled : (s : Text) (c : ℕ) → s ++ c ∷ [] ≢ []
snoc-filled [] c e = ground arith
snoc-filled (x ∷ s) c e = ground arith

digits-filled : (fuel n : ℕ) → digits (suc fuel) n ≢ []
unfolding digits
digits-filled fuel n e = absurd (snoc-filled _ (b'0' + n % 10) e)

-- What ParseInt reads from digits that are there.
parse_magnitude-pos :
    (t : Text) (n : ℕ)
    → digits_value 0 t ≡ some n
    → t ≢ []
    → n < two_63
    → parse_magnitude false t ≡ pos n
unfolding parse_magnitude
parse_magnitude-pos [] n h e lt = absurd (e refl)
parse_magnitude-pos (c ∷ s) n h e lt = rw (h, parse_magnitude) (ground arith)

parse_magnitude-neg :
    (t : Text) (n : ℕ)
    → digits_value 0 t ≡ some (suc n)
    → t ≢ []
    → n < two_63
    → parse_magnitude true t ≡ negsuc n
unfolding parse_magnitude
parse_magnitude-neg [] n h e lt = absurd (e refl)
parse_magnitude-neg (c ∷ s) n h e lt = rw (h, parse_magnitude) (ground arith)

parse_int-digits :
    (t : Text) (n : ℕ) → digits_value 0 t ≡ some n → t ≢ [] → n < two_63 → parse_int t ≡ pos n
unfolding parse_int digits_value
parse_int-digits [] n h e lt = absurd (e refl)
parse_int-digits (c ∷ s) n h e lt = ground (arith, parse_magnitude-pos (c ∷ s) n h e lt)

-- A number of 64 bits is read back as itself.
pub parse_int-format : (i : ℤ) → InRange i → parse_int (format_int i) ≡ i
unfolding format_int format_nat parse_int
parse_int-format (pos n) h =
    parse_int-digits (format_nat n) n (digits_value-digits (suc n) n (omega arith) (omega arith))
      (digits-filled n n) h
parse_int-format (negsuc n) h =
    parse_magnitude-neg (format_nat (suc n)) n
      (digits_value-digits (suc (suc n)) (suc n) (omega arith) (omega arith))
      (digits-filled (suc n) (suc n)) h

clamp :
    (negative : Bool) (n : ℕ)
    → InRange (
        if negative
        then (if eqb n 0 then pos 0 else negsuc (if ltb two_63 n then two_63 - 1 else n - 1))
        else pos (if leb two_63 n then two_63 - 1 else n))
clamp true n = elim (Bool-cases (eqb n 0)) [
  | inl nought ↦ rw nought (omega arith)
  | inr more ↦ rw more (ground arith)
]
clamp false n = ground arith

clamped-InRange : (negative : Bool) (t : Text) → InRange (parse_magnitude negative t)
unfolding parse_magnitude
clamped-InRange negative [] = omega arith
clamped-InRange negative (c ∷ s) = elim (Option-cases (digits_value 0 (c ∷ s))) [
  | inl bad ↦ rw (bad, parse_magnitude) (omega arith)
  | inr (n, e) ↦ rw (e, parse_magnitude) (clamp negative n)
]

-- Whatever the text is, the number fits into 64 bits.
pub parse_int-InRange : (t : Text) → InRange (parse_int t)
unfolding parse_int
parse_int-InRange [] = omega arith
parse_int-InRange (c ∷ s) = elim (Bool-cases (eqb c b'-')) [
  | inl minus ↦ rw minus (clamped-InRange true s)
  | inr other ↦ elim (Bool-cases (eqb c b'+')) [
    | inl plus ↦ rw (other, plus) (clamped-InRange false s)
    | inr digit ↦ rw (other, digit) (clamped-InRange false (c ∷ s))
  ]
]
