-- ===== src/Auth/Telegram/Order.antt =====
-- The signed text of Telegram's parameters does not depend on the order in which they come.
use vel.Common.{
  ==_iff, Bool, Bool-cases, In, In-keep, List, Text, [], any, any_complete, any_sound, ap, ap₂,
  arith, false, inl, inr, keep, lit, map, not, refl, subst, sym, true, ◌++◌, ◌==◌, ◌↔◌, ◌∙◌, ◌∷◌,
  ◌≡◌, ◌⊎◌,
}
use vel.Std.Sort.{
  AreOrdered, In-sort, sort-IsSorted, sort_slice, sorted_unique, text_ltb, text_ltb-total,
  text_ltb_irrefl, text_ltb_trans,
}
use vel.Std.Values.{Values, distinct_keys, get_value, sorted_keys, delete_key, join}
use vel.Std.Crypto.{Crypto}
use vel.Auth.Telegram.{data_check_string, validate_telegram_login}

-- No key has two values: the list is a Go map from strings to strings.
abbrev pub IsMap : Values → Type 0
IsMap [] = Unit
IsMap ((k, v) ∷ vs) = ((w : Text) → ¬ In (k, w) vs) × IsMap vs

-- Two lists of the same pairs.
abbrev pub SameEntries : Values → Values → Type 0
SameEntries vs ws = (k v : Text) → In (k, v) vs ↔ In (k, v) ws

pub In-distinct_keys :
    (k : Text) (vs : Values) → In k (distinct_keys vs) ↔ ((v : Text) × In (k, v) vs)
unfolding distinct_keys
In-distinct_keys k [] = (λ h. absurd h, λ h. absurd h.1)
In-distinct_keys k ((j, w) ∷ vs) =
    let kept = In-keep (λ i. not (i == j)) k (distinct_keys vs) in
    (
      λ h. elim h [
        | inl e ↦ (w, inl (ap (λ x. (x, w)) e))
        | inr later ↦ let r = (In-distinct_keys k vs).0 (kept.0 later).0 in (r.0, inr r.1)
      ],
      λ h. elim (Bool-cases (k == j)) [
        | inl same ↦ inl ((==_iff k j).0 same)
        | inr other ↦ elim h.1 [
          | inl e ↦ inl (ap (λ x. x.0) e)
          | inr later ↦ inr (kept.1 ((In-distinct_keys k vs).1 (h.0, later), rw other refl))
        ]
      ],
    )

AreOrdered-keep :
    {A : Type 0} (less : A → A → Bool) (p : A → Bool) (xs : List A)
    → AreOrdered less xs
    → AreOrdered less (keep p xs)
AreOrdered-keep less p [] h = tt
AreOrdered-keep less p (x ∷ xs) (first, h) = elim (Bool-cases (p x)) [
  | inl kept ↦ rw kept ((λ y k. first y ((In-keep p y xs).0 k).0), AreOrdered-keep less p xs h)
  | inr dropped ↦ rw dropped (AreOrdered-keep less p xs h)
]

pub distinct_keys-AreOrdered : (vs : Values) → AreOrdered text_ltb (distinct_keys vs)
unfolding distinct_keys
distinct_keys-AreOrdered [] = tt
distinct_keys-AreOrdered ((j, w) ∷ vs) = (
  λ y h.
      let differs = ((In-keep (λ i. not (i == j)) y (distinct_keys vs)).0 h).1 in
      ground (arith, text_ltb-total j y, ==_iff y j),
  AreOrdered-keep text_ltb (λ i. not (i == j)) (distinct_keys vs) (distinct_keys-AreOrdered vs),
)

-- Two lists with the same keys give the same sorted keys.
sorted_keys-same :
    (vs ws : Values)
    → ((k : Text) → In k (distinct_keys vs) ↔ In k (distinct_keys ws))
    → sorted_keys vs ≡ sorted_keys ws
unfolding sorted_keys
sorted_keys-same vs ws same =
    sorted_unique text_ltb text_ltb_irrefl text_ltb_trans (sort_slice text_ltb (distinct_keys vs))
      (sort_slice text_ltb (distinct_keys ws))
      (sort-IsSorted text_ltb text_ltb_trans (distinct_keys vs) (distinct_keys-AreOrdered vs))
      (sort-IsSorted text_ltb text_ltb_trans (distinct_keys ws) (distinct_keys-AreOrdered ws))
      (λ k.
        let a = In-sort text_ltb k (distinct_keys vs) in
        let b = In-sort text_ltb k (distinct_keys ws) in
        (λ h. b.1 ((same k).0 (a.0 h)), λ h. a.1 ((same k).1 (b.0 h))))

-- The value of a key's pair, or the empty text where there is none.
abbrev IsValue : Values → Text → Text → Type 0
IsValue vs k x = In (k, x) vs ⊎ (((v : Text) → ¬ In (k, v) vs) × (x ≡ []))

get_value-hit : (j w k : Text) (vs : Values) → (j == k) ≡ true → get_value ((j, w) ∷ vs) k ≡ w
unfolding get_value
get_value-hit j w k vs h = rw h refl

get_value-miss :
    (j w k : Text) (vs : Values) → (j == k) ≡ false → get_value ((j, w) ∷ vs) k ≡ get_value vs k
unfolding get_value
get_value-miss j w k vs h = rw h refl

IsValue-later :
    (j w k x : Text) (vs : Values) → (j == k) ≡ false → IsValue vs k x → IsValue ((j, w) ∷ vs) k x
IsValue-later j w k x vs other (inl held) = inl (inr held)
IsValue-later j w k x vs other (inr (none_there, e)) = inr (
  (λ v h. elim h [
    | inl e' ↦ absurd (cc (other, (==_iff j k).1 (sym (ap (λ p. p.0) e'))))
    | inr later ↦ none_there v later
  ]),
  e,
)

get_value-cases : (vs : Values) (k : Text) → IsValue vs k (get_value vs k)
unfolding get_value
get_value-cases [] k = inr ((λ v h. h), refl)
get_value-cases ((j, w) ∷ vs) k = elim (Bool-cases (j == k)) [
  | inl same ↦
      inl (inl (ap₂ (λ a b. (a, b)) (sym ((==_iff j k).0 same)) (get_value-hit j w k vs same)))
  | inr other ↦
      subst (IsValue ((j, w) ∷ vs) k) (sym (get_value-miss j w k vs other))
        (IsValue-later j w k (get_value vs k) vs other (get_value-cases vs k))
]

IsMap-value : (vs : Values) (k v w : Text) → IsMap vs → In (k, v) vs → In (k, w) vs → v ≡ w
IsMap-value [] k v w m h i = absurd h
IsMap-value ((j, x) ∷ vs) k v w (new, m) (inl e) (inl f) = ap (λ p. p.1) (e ∙ sym f)
IsMap-value ((j, x) ∷ vs) k v w (new, m) (inl e) (inr i) =
    absurd (new w (subst (λ y. In (y, w) vs) (ap (λ p. p.0) e) i))
IsMap-value ((j, x) ∷ vs) k v w (new, m) (inr h) (inl f) =
    absurd (new v (subst (λ y. In (y, v) vs) (ap (λ p. p.0) f) h))
IsMap-value ((j, x) ∷ vs) k v w (new, m) (inr h) (inr i) = IsMap-value vs k v w m h i

get_value-same :
    (vs ws : Values) (k : Text) → IsMap ws → SameEntries vs ws → get_value vs k ≡ get_value ws k
get_value-same vs ws k m same = elim (get_value-cases vs k) [
  | inl held ↦ elim (get_value-cases ws k) [
    | inl held' ↦
        IsMap-value ws k (get_value vs k) (get_value ws k) m ((same k (get_value vs k)).0 held)
          held'
    | inr (none_there, e) ↦ absurd (none_there (get_value vs k) ((same k (get_value vs k)).0 held))
  ]
  | inr (none_there, e) ↦ elim (get_value-cases ws k) [
    | inl held' ↦ absurd (none_there (get_value ws k) ((same k (get_value ws k)).1 held'))
    | inr (_, e') ↦ e ∙ sym e'
  ]
]

distinct_keys-same :
    (vs ws : Values) (k : Text)
    → SameEntries vs ws
    → In k (distinct_keys vs) ↔ In k (distinct_keys ws)
distinct_keys-same vs ws k same =
    let a = In-distinct_keys k vs in
    let b = In-distinct_keys k ws in
    (
      λ h. let r = a.0 h in b.1 (r.0, (same k r.0).0 r.1),
      λ h. let r = b.0 h in a.1 (r.0, (same k r.0).1 r.1),
    )

map-same : (f g : Text → Text) (ks : List Text) → ((k : Text) → f k ≡ g k) → map f ks ≡ map g ks
map-same f g [] h = refl
map-same f g (k ∷ ks) h = ap₂ (λ x xs. x ∷ xs) (h k) (map-same f g ks h)

data_check_string-same :
    (vs ws : Values) → IsMap ws → SameEntries vs ws → data_check_string vs ≡ data_check_string ws
unfolding data_check_string
data_check_string-same vs ws m same = ap (join (b'\n' ∷ [])) (
    map-same (λ k. k ++ b'=' ∷ get_value vs k) (λ k. k ++ b'=' ∷ get_value ws k) (sorted_keys vs)
      (λ k. ap (λ v. k ++ b'=' ∷ v) (get_value-same vs ws k m same))
    ∙ ap (map (λ k. k ++ b'=' ∷ get_value ws k))
        (sorted_keys-same vs ws (λ k. distinct_keys-same vs ws k same)))

delete_key-same :
    (vs ws : Values) (h : Text)
    → SameEntries vs ws
    → SameEntries (delete_key vs h) (delete_key ws h)
unfolding delete_key
delete_key-same vs ws h same k v =
    let a = In-keep (λ (i, x). not (i == h)) (k, v) vs in
    let b = In-keep (λ (i, x). not (i == h)) (k, v) ws in
    (
      λ l. let r = a.0 l in b.1 ((same k v).0 r.0, r.1),
      λ l. let r = b.0 l in a.1 ((same k v).1 r.0, r.1),
    )

IsMap-delete : (vs : Values) (h : Text) → IsMap vs → IsMap (delete_key vs h)
unfolding delete_key
IsMap-delete [] h m = tt
IsMap-delete ((j, w) ∷ vs) h (new, m) = elim (Bool-cases (j == h)) [
  | inl gone ↦ rw gone (IsMap-delete vs h m)
  | inr stays ↦
      rw stays
        ((λ x l. new x ((In-keep (λ (i, y). not (i == h)) (j, x) vs).0 l).0), IsMap-delete vs h m)
]

has_key-same :
    (vs ws : Values) (h : Text)
    → SameEntries vs ws
    → any (λ (k, v). k == h) vs ≡ true
    → any (λ (k, v). k == h) ws ≡ true
has_key-same vs ws h same hit =
    let (p, held, e) = any_sound (λ (k, v). k == h) vs hit in
    any_complete (λ (k, v). k == h) p ws ((same p.0 p.1).0 held) e

-- The verdict on a login of Telegram's widget does not depend on the order in which Go iterates
-- over the map of its parameters: two lists of the same pairs, with one value for each key, are
-- both accepted or both refused.
pub validate_telegram_login-iteration :
    (c : Crypto) (bot_token : Text) (vs ws : Values)
    → IsMap vs
    → IsMap ws
    → SameEntries vs ws
    → validate_telegram_login c bot_token vs ≡ validate_telegram_login c bot_token ws
unfolding validate_telegram_login
validate_telegram_login-iteration c bot_token vs ws m m' same =
    let hash = get_value-same vs ws (lit "hash") m' same in
    let text =
      data_check_string-same (delete_key vs (lit "hash")) (delete_key ws (lit "hash"))
        (IsMap-delete ws (lit "hash") m') (delete_key-same vs ws (lit "hash") same) in
    let back : SameEntries ws vs = λ k v. ((same k v).1, (same k v).0) in
    ground (
      arith,
      hash,
      text,
      has_key-same vs ws (lit "hash") same,
      has_key-same ws vs (lit "hash") back,
    )
