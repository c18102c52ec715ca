-- ===== src/Std/Query.antt =====
-- net/url: `QueryEscape` keeps letters, digits and `-_.~`, writes a space as `+` and any other byte
-- as `%XX`; `QueryUnescape` undoes both and refuses a `%` without two digits behind it.
use vel.Common.{
  All, Bool, Bool-cases, Option, Text, [], arith, eqb, if◌then◌else◌, inl, inr, leb, ltb, none,
  refl, some, true, ℕ, ◌%◌, ◌&&◌, ◌+◌, ◌-◌, ◌/◌, ◌<◌, ◌||◌, ◌∙◌, ◌∷◌, ◌≡◌, ◌≢◌,
}
use vel.Std.Hex.{IsByte, byte, digit_value, cons?}

-- The digit of a value below 16, in upper case.
upper_digit : ℕ → ℕ
upper_digit n = if ltb n 10 then b'0' + n else b'A' + n - 10

unfoldable pub is_unreserved : ℕ → Bool
is_unreserved c =
    (leb b'a' c && leb c b'z')
    || (leb b'A' c && leb c b'Z')
    || (leb b'0' c && leb c b'9')
    || eqb c b'-'
    || eqb c b'_'
    || eqb c b'.'
    || eqb c b'~'

unfoldable pub query_escape : Text → Text
unfolding upper_digit
query_escape [] = []
query_escape (c ∷ s) =
    if eqb c b' '
    then b'+' ∷ query_escape s
    else if is_unreserved c
    then c ∷ query_escape s
    else b'%' ∷ upper_digit (c / 16) ∷ upper_digit (c % 16) ∷ query_escape s

unfoldable pub query_unescape : Text → Option Text
query_unescape [] = some []
query_unescape (c ∷ []) = if eqb c b'%' then none else some ((if eqb c b'+' then b' ' else c) ∷ [])
query_unescape (c ∷ d ∷ []) =
    if eqb c b'%'
    then none
    else cons? (some (if eqb c b'+' then b' ' else c)) (query_unescape (d ∷ []))
query_unescape (c ∷ d ∷ e ∷ s) =
    if eqb c b'%'
    then cons? (byte d e) (query_unescape s)
    else cons? (some (if eqb c b'+' then b' ' else c)) (query_unescape (d ∷ e ∷ s))

byte-upper : (b : ℕ) → b < 256 → byte (upper_digit (b / 16)) (upper_digit (b % 16)) ≡ some b
unfolding byte digit_value upper_digit
byte-upper b h = ground arith

-- A plain byte in front of an escaped text stands for itself, and `+` for a space.
unescape-plain :
    (c : ℕ) (s : Text)
    → c ≢ b'%'
    → query_unescape (c ∷ s) ≡ cons? (some (if eqb c b'+' then b' ' else c)) (query_unescape s)
unfolding query_unescape
unescape-plain c [] h = ground arith
unescape-plain c (d ∷ []) h = ground arith
unescape-plain c (d ∷ e ∷ s) h = ground arith

unreserved-ne-percent : (c : ℕ) → is_unreserved c ≡ true → c ≢ b'%'
unfolding is_unreserved
unreserved-ne-percent c h e = ground arith

plain_byte :
    (c : ℕ) (s : Text)
    → is_unreserved c ≡ true
    → cons? (some (if eqb c b'+' then b' ' else c)) (some s) ≡ some (c ∷ s)
unfolding is_unreserved
plain_byte c s h = ground arith

unescape-coded :
    (c : ℕ) (s : Text)
    → c < 256
    → query_unescape (query_escape s) ≡ some s
    → query_unescape (b'%' ∷ upper_digit (c / 16) ∷ upper_digit (c % 16) ∷ query_escape s)
      ≡ some (c ∷ s)
unfolding query_unescape
unescape-coded c s p ih = rw (byte-upper c p, ih)

-- Unescaping undoes escaping.
pub query_unescape-escape : (s : Text) → All IsByte s → query_unescape (query_escape s) ≡ some s
unfolding query_escape
query_unescape-escape [] h = unfold query_unescape in refl
query_unescape-escape (c ∷ s) (p, h) =
    let ih : query_unescape (query_escape s) ≡ some s = query_unescape-escape s h in
    elim (Bool-cases (eqb c b' ')) [
      | inl space ↦
          rw space (unescape-plain b'+' (query_escape s) (omega arith) ∙ rw ih (ground arith))
      | inr other ↦ elim (Bool-cases (is_unreserved c)) [
        | inl kept ↦
            rw (other, kept)
              (unescape-plain c (query_escape s) (unreserved-ne-percent c kept)
                ∙ rw ih (plain_byte c s kept))
        | inr coded ↦ rw (other, coded) (unescape-coded c s p ih)
      ]
    ]
