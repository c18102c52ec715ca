-- ===== src/Std/Sort.antt =====
-- sort: `sort.Slice` by a strict order, as an insertion sort, and the order of Go's strings. On a
-- list whose elements are all different in the order, any sort gives this result.
use vel.Common.{
  Bool, Bool-cases, In, List, Text, [], ap₂, arith, eqb, false, if◌then◌else◌, inl, inr, ltb, refl,
  subst, sym, true, ◌↔◌, ◌∙◌, ◌∷◌, ◌≡◌, ◌⊎◌,
}

unfoldable pub insert {ℓ} : {A : Type ℓ} → (A → A → Bool) → A → List A → List A
insert less x [] = x ∷ []
insert less x (y ∷ ys) = if less x y then x ∷ y ∷ ys else y ∷ insert less x ys

unfoldable pub sort_slice {ℓ} : {A : Type ℓ} → (A → A → Bool) → List A → List A
sort_slice less [] = []
sort_slice less (x ∷ xs) = insert less x (sort_slice less xs)

-- `s < t` on strings: by the first byte that differs.
unfoldable pub text_ltb : Text → Text → Bool
text_ltb s [] = false
text_ltb [] (d ∷ t) = true
text_ltb (c ∷ s) (d ∷ t) = if ltb c d then true else if eqb c d then text_ltb s t else false

pub text_ltb_irrefl : (s : Text) → text_ltb s s ≡ false
unfolding text_ltb
text_ltb_irrefl [] = refl
text_ltb_irrefl (c ∷ s) = ground (arith, text_ltb_irrefl s)

pub text_ltb_trans :
    (s t u : Text) → text_ltb s t ≡ true → text_ltb t u ≡ true → text_ltb s u ≡ true
unfolding text_ltb
text_ltb_trans [] [] u h k = absurd (ground arith)
text_ltb_trans [] (d ∷ t) [] h k = absurd (ground arith)
text_ltb_trans [] (d ∷ t) (e ∷ u) h k = refl
text_ltb_trans (c ∷ s) [] u h k = absurd (ground arith)
text_ltb_trans (c ∷ s) (d ∷ t) [] h k = absurd (ground arith)
text_ltb_trans (c ∷ s) (d ∷ t) (e ∷ u) h k = ground (arith, text_ltb_trans s t u)

pub text_ltb-total : (s t : Text) → (s ≡ t) ⊎ (text_ltb s t ≡ true) ⊎ (text_ltb t s ≡ true)
unfolding text_ltb
text_ltb-total [] [] = inl refl
text_ltb-total [] (d ∷ t) = inr (inl refl)
text_ltb-total (c ∷ s) [] = inr (inr refl)
text_ltb-total (c ∷ s) (d ∷ t) = ground (arith, text_ltb-total s t)

module _ {A : Type 0} (less : A → A → Bool) where
  -- Every element comes before all that follow it.
  abbrev pub IsSorted : List A → Type 0
  IsSorted [] = Unit
  IsSorted (x ∷ xs) = ((y : A) → In y xs → less x y ≡ true) × IsSorted xs

  -- The order has a verdict on any two elements that stand at different places.
  abbrev pub AreOrdered : List A → Type 0
  AreOrdered [] = Unit
  AreOrdered (x ∷ xs) = ((y : A) → In y xs → (less x y ≡ true) ⊎ (less y x ≡ true)) × AreOrdered xs

  pub In-insert : (z x : A) (xs : List A) → In z (insert less x xs) ↔ ((z ≡ x) ⊎ In z xs)
  unfolding insert
  In-insert z x [] = ground arith
  In-insert z x (y ∷ ys) = elim (Bool-cases (less x y)) [
    | inl lt ↦ rw lt (ground arith)
    | inr ge ↦ rw ge (ground (arith, In-insert z x ys))
  ]

  pub In-sort : (z : A) (xs : List A) → In z (sort_slice less xs) ↔ In z xs
  unfolding sort_slice
  In-sort z [] = ground arith
  In-sort z (x ∷ xs) = ground (arith, In-insert z x (sort_slice less xs), In-sort z xs)

  insert-IsSorted :
      ((x y z : A) → less x y ≡ true → less y z ≡ true → less x z ≡ true)
      → (x : A) (xs : List A) → ((y : A) → In y xs → (less x y ≡ true) ⊎ (less y x ≡ true))
      → IsSorted xs
      → IsSorted (insert less x xs)
  unfolding insert
  insert-IsSorted trans x [] total h = ((λ y k. absurd k), tt)
  insert-IsSorted trans x (y ∷ ys) total (first, h) = elim (Bool-cases (less x y)) [
    | inl lt ↦ rw lt (
      (λ z k. elim k [
        | inl e ↦ subst (λ w. less x w ≡ true) (sym e) lt
        | inr later ↦ trans x y z lt (first z later)
      ]),
      (first, h),
    )
    | inr ge ↦ rw ge (
      (λ z k. elim ((In-insert z x ys).0 k) [
        | inl e ↦ elim (total y (inl refl)) [
          | inl lt ↦ absurd (ground arith)
          | inr gt ↦ subst (λ w. less y w ≡ true) (sym e) gt
        ]
        | inr later ↦ first z later
      ]),
      insert-IsSorted trans x ys (λ z k. total z (inr k)) h,
    )
  ]

  pub sort-IsSorted :
      ((x y z : A) → less x y ≡ true → less y z ≡ true → less x z ≡ true)
      → (xs : List A) → AreOrdered xs
      → IsSorted (sort_slice less xs)
  unfolding sort_slice
  sort-IsSorted trans [] h = tt
  sort-IsSorted trans (x ∷ xs) (total, h) =
      insert-IsSorted trans x (sort_slice less xs) (λ y k. total y ((In-sort y xs).0 k))
        (sort-IsSorted trans xs h)

  no_loop : (x : A) → less x x ≡ false → less x x ≡ true → ⊥
  no_loop x h k = cc (h, k)

  -- Two sorted lists with the same elements are one.
  pub sorted_unique :
      ((x : A) → less x x ≡ false)
      → ((x y z : A) → less x y ≡ true → less y z ≡ true → less x z ≡ true)
      → (xs ys : List A) → IsSorted xs
      → IsSorted ys
      → ((z : A) → In z xs ↔ In z ys)
      → xs ≡ ys
  sorted_unique irrefl trans [] [] h k same = refl
  sorted_unique irrefl trans [] (y ∷ ys) h k same = absurd ((same y).1 (inl refl))
  sorted_unique irrefl trans (x ∷ xs) [] h k same = absurd ((same x).0 (inl refl))
  sorted_unique irrefl trans (x ∷ xs) (y ∷ ys) (first, h) (first', k) same =
      let heads : x ≡ y = elim ((same x).0 (inl refl)) [
        | inl e ↦ e
        | inr later ↦ elim ((same y).1 (inl refl)) [
          | inl e ↦ sym e
          | inr later' ↦
              absurd (no_loop x (irrefl x) (trans x y x (first y later') (first' x later)))
        ]
      ] in
      let tails : xs ≡ ys = sorted_unique irrefl trans xs ys h k (λ z. (
        λ l. elim ((same z).0 (inr l)) [
          | inl e ↦
              absurd
                (no_loop x (irrefl x) (subst (λ w. less x w ≡ true) (e ∙ sym heads) (first z l)))
          | inr l' ↦ l'
        ],
        λ l. elim ((same z).1 (inr l)) [
          | inl e ↦
              absurd (no_loop y (irrefl y) (subst (λ w. less y w ≡ true) (e ∙ heads) (first' z l)))
          | inr l' ↦ l'
        ],
      )) in
      ap₂ (λ z zs. z ∷ zs) heads tails
