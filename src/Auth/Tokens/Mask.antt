-- ===== src/Auth/Tokens/Mask.antt =====
-- What a masked token still shows.
use vel.Common.{
  Text, [], ap, ap₂, arith, drop, false, leb, length, length-append, refl, suc, sym, take, ℕ, ◌++◌,
  ◌+◌, ◌-◌, ◌<◌, ◌∙◌, ◌∷◌, ◌≡◌, ◌≤◌,
}
use vel.Auth.Tokens.{bullets, mask_scoped_token}

drop-prefix : (s t : Text) (n : ℕ) → drop (length s + n) (s ++ t) ≡ drop n t
drop-prefix [] t n = let e : 0 + n ≡ n = omega arith in ap (λ k. drop k t) e
drop-prefix (c ∷ s) t n =
    let e : suc (length s) + n ≡ suc (length s + n) = omega arith in
    ap (λ k. drop k (c ∷ (s ++ t))) e ∙ drop-prefix s t n

take-prefix : (s t : Text) → take (length s) (s ++ t) ≡ s
take-prefix [] t = refl
take-prefix (c ∷ s) t = ap (◌∷◌ c) (take-prefix s t)

-- A token of more than eight bytes shows its first four and its last four bytes round the bullets.
mask_scoped_token-long :
    (first middle last : Text)
    → length first ≡ 4
    → length last ≡ 4
    → 0 < length middle
    → mask_scoped_token (first ++ (middle ++ last)) ≡ first ++ (bullets ++ last)
unfolding mask_scoped_token
mask_scoped_token-long first middle last f l m =
    let whole : length (first ++ (middle ++ last)) ≡ 8 + length middle =
      omega (arith, length-append {0} first (middle ++ last), length-append {0} middle last) in
    let long : leb (length (first ++ (middle ++ last))) 8 ≡ false = ground (arith, whole) in
    let front : take 4 (first ++ (middle ++ last)) ≡ first =
      ap (λ n. take n (first ++ (middle ++ last))) (sym f) ∙ take-prefix first (middle ++ last) in
    let count : length (first ++ (middle ++ last)) - 4 ≡ length first + (length middle + 0) =
      omega (arith, whole) in
    let back : drop (length (first ++ (middle ++ last)) - 4) (first ++ (middle ++ last)) ≡ last =
      ap (λ n. drop n (first ++ (middle ++ last))) count
      ∙ drop-prefix first (middle ++ last) (length middle + 0)
      ∙ drop-prefix middle last 0 in
    rw long (ap₂ (λ a b. a ++ (bullets ++ b)) front back)

-- Masking hides all but the first and the last four bytes: two tokens that agree there are masked
-- alike if each is longer than eight bytes, and all tokens of at most eight bytes are masked alike.
mask_hides :
    (first m n last s t : Text)
    → length first ≡ 4
    → length last ≡ 4
    → 0 < length m
    → 0 < length n
    → length s ≤ 8
    → length t ≤ 8
    → (mask_scoped_token (first ++ (m ++ last)) ≡ mask_scoped_token (first ++ (n ++ last)))
      × (mask_scoped_token s ≡ mask_scoped_token t)
unfolding mask_scoped_token
mask_hides first m n last s t f l hm hn hs ht = (
  mask_scoped_token-long first m last f l hm ∙ sym (mask_scoped_token-long first n last f l hn),
  ground arith,
)
