-- ===== src/ErrorLog/Trim.antt =====
-- The last entries of a list that grows.
use vel.Common.{
  Bool-cases, List, [], ap, arith, drop, inl, inr, length, length-append, length-drop, ltb, refl,
  suc, sym, zero, ℕ, ◌++◌, ◌+◌, ◌-◌, ◌∙◌, ◌∷◌, ◌≡◌, ◌≤◌,
}
use vel.ErrorLog.{last_n}

suc-add : (n m : ℕ) → suc (n + m) ≡ suc n + m
suc-add n m = omega arith

module _ {ℓ} {A : Type ℓ} where
  drop-append_left : (n : ℕ) (xs ys : List A) → n ≤ length xs → drop n (xs ++ ys) ≡ drop n xs ++ ys
  drop-append_left zero xs ys h = refl
  drop-append_left (suc n) [] ys h = absurd (omega arith)
  drop-append_left (suc n) (x ∷ xs) ys h = drop-append_left n xs ys (omega arith)

  drop-nil : (n : ℕ) → drop {A = A} n [] ≡ []
  drop-nil zero = refl
  drop-nil (suc n) = refl

  drop-drop : (m n : ℕ) (xs : List A) → drop m (drop n xs) ≡ drop (n + m) xs
  drop-drop m zero xs = ap (λ k. drop k xs) (omega arith)
  drop-drop m (suc n) [] = drop-nil m ∙ sym (drop-nil (suc n + m))
  drop-drop m (suc n) (x ∷ xs) = drop-drop m n xs ∙ ap (λ k. drop k (x ∷ xs)) (suc-add n m)

  pub last_n-drop : (n : ℕ) (xs : List A) → last_n n xs ≡ drop (length xs - n) xs
  unfolding last_n
  last_n-drop n xs = elim (Bool-cases (ltb n (length xs))) [
    | inl more ↦ rw more
    | inr all ↦ let none_dropped : length xs - n ≡ 0 = ground arith in rw (all, none_dropped)
  ]

  -- What is dropped once would be dropped the second time too.
  pub last_n-append : (n : ℕ) (xs ys : List A) → last_n n (last_n n xs ++ ys) ≡ last_n n (xs ++ ys)
  last_n-append n xs ys =
      let a : ℕ = length xs - n in
      let le : a ≤ length xs = omega arith in
      let z : List A = xs ++ ys in
      let joined : last_n n xs ++ ys ≡ drop a z =
        ap (λ t. t ++ ys) (last_n-drop n xs) ∙ sym (drop-append_left a xs ys le) in
      let together : a + (length (drop a z) - n) ≡ length z - n =
        omega (arith, length-drop a z, length-append xs ys) in
      ap (last_n n) joined
      ∙ last_n-drop n (drop a z)
      ∙ drop-drop (length (drop a z) - n) a z
      ∙ ap (λ k. drop k z) together
      ∙ sym (last_n-drop n z)
