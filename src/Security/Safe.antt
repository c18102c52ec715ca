-- ===== src/Security/Safe.antt =====
-- A path that SafeRelPath accepts stays below the directory it is joined to.
use vel.Common.{
  ==_iff, Bool, Bool-cases, In, Lacks, List, Text, [], ap, arith, contains, eqb, false, has_prefix,
  has_prefix-append, if◌then◌else◌, inl, inr, lit, refl, subst, sym, true, ℕ, ◌==◌, ◌||◌, ◌∙◌, ◌∷◌,
  ◌≡◌, ◌≢◌, ◌⊎◌,
}
use vel.Std.Values.{split, join}
use vel.Security.{push, push_all, rev_onto, accepted, clean, clean_parts, safe_rel_path}

-- A name of a file or directory: it is not empty, neither `.` nor `..`, and has no slash.
abbrev pub IsName : Text → Type 0
IsName p = (p ≢ []) × (p ≢ lit ".") × (p ≢ lit "..") × Lacks b'/' p

-- A part that does not lead upwards.
abbrev IsStep : Text → Type 0
IsStep p = (p ≢ lit "..") × Lacks b'/' p

has_prefix_nil : (s : Text) → has_prefix s [] ≡ true
unfolding has_prefix
has_prefix_nil s = refl

contains-tail : (c : ℕ) (s p : Text) → contains s p ≡ true → contains (c ∷ s) p ≡ true
unfolding contains
contains-tail c s p h = ground arith

contains-prefix : (s p : Text) → has_prefix s p ≡ true → contains s p ≡ true
unfolding contains
contains-prefix [] p h = h
contains-prefix (c ∷ s) p h = ground arith

List-cases : {A : Type 0} (xs : List A) → (xs ≡ []) ⊎ ((x : A) × (ys : List A) × (xs ≡ x ∷ ys))
List-cases [] = inl refl
List-cases (x ∷ ys) = inr (x, ys, refl)

split-cons_sep :
    (b c : ℕ) (s q : Text) (qs : List Text)
    → split b s ≡ q ∷ qs
    → eqb c b ≡ true
    → split b (c ∷ s) ≡ [] ∷ q ∷ qs
unfolding split
split-cons_sep b c s q qs e h = ground arith

split-cons :
    (b c : ℕ) (s q : Text) (qs : List Text)
    → split b s ≡ q ∷ qs
    → eqb c b ≡ false
    → split b (c ∷ s) ≡ (c ∷ q) ∷ qs
unfolding split
split-cons b c s q qs e h = ground arith

-- The parts of a text: the first is a prefix of it, all stand in it, and none holds the separator.
record Parts (b : ℕ) (s : Text) : Type 0 where
  first : Text
  others : List Text
  equal : split b s ≡ first ∷ others
  prefix : has_prefix s first ≡ true
  inside : (p : Text) → In p (first ∷ others) → contains s p ≡ true
  lacks : (p : Text) → In p (first ∷ others) → Lacks b p

has_prefix-cons : (c : ℕ) (s p : Text) → has_prefix s p ≡ true → has_prefix (c ∷ s) (c ∷ p) ≡ true
unfolding has_prefix
has_prefix-cons c s p h = ground arith

parts : (b : ℕ) (s : Text) → Parts b s
unfolding split contains
parts b [] = record {
  first = [];
  others = [];
  equal = refl;
  prefix = has_prefix_nil [];
  inside = λ p h. elim h [
    | inl e ↦ subst (λ x. has_prefix [] x ≡ true) (sym e) (has_prefix_nil [])
    | inr k ↦ absurd k
  ];
  lacks = λ p h. elim h [ inl e ↦ subst (Lacks b) (sym e) tt | inr k ↦ absurd k ];
}
parts b (c ∷ s) =
    let r = parts b s in
    elim (Bool-cases (eqb c b)) [
      | inl sep ↦ record {
        first = [];
        others = r.first ∷ r.others;
        equal = split-cons_sep b c s r.first r.others r.equal sep;
        prefix = has_prefix_nil (c ∷ s);
        inside = λ p h. elim h [
          | inl e ↦
              contains-prefix (c ∷ s) p
                (subst (λ x. has_prefix (c ∷ s) x ≡ true) (sym e) (has_prefix_nil (c ∷ s)))
          | inr k ↦ contains-tail c s p (r.inside p k)
        ];
        lacks = λ p h. elim h [ inl e ↦ subst (Lacks b) (sym e) tt | inr k ↦ r.lacks p k ];
      }
      | inr other ↦
          let longer = has_prefix-cons c s r.first r.prefix in
          record {
            first = c ∷ r.first;
            others = r.others;
            equal = split-cons b c s r.first r.others r.equal other;
            prefix = longer;
            inside = λ p h. elim h [
              | inl e ↦
                  contains-prefix (c ∷ s) p
                    (subst (λ x. has_prefix (c ∷ s) x ≡ true) (sym e) longer)
              | inr k ↦ contains-tail c s p (r.inside p (inr k))
            ];
            lacks = λ p h. elim h [
              | inl e ↦ subst (Lacks b) (sym e) (ground (arith, r.lacks r.first (inl refl)))
              | inr k ↦ r.lacks p (inr k)
            ];
          }
    ]

-- Where the text has no `..`, none of its parts leads upwards.
IsStep-split :
    (path p : Text) → contains path (lit "..") ≡ false → In p (split b'/' path) → IsStep p
IsStep-split path p plain h =
    let r = parts b'/' path in
    let h' = subst (λ l. In p l) r.equal h in
    ((λ e. cc (plain, subst (λ x. contains path x ≡ true) e (r.inside p h'))), r.lacks p h')

-- A list of names.
abbrev pub AllNames : List Text → Type 0
AllNames [] = Unit
AllNames (p ∷ ps) = IsName p × AllNames ps

push-skip :
    (rooted : Bool) (stack : List Text) (p : Text)
    → ((p == []) || (p == lit ".")) ≡ true
    → push rooted stack p ≡ stack
unfolding push
push-skip rooted stack p h = rw h refl

push-name :
    (rooted : Bool) (stack : List Text) (p : Text)
    → ((p == []) || (p == lit ".")) ≡ false
    → p ≢ lit ".."
    → push rooted stack p ≡ p ∷ stack
unfolding push
push-name rooted stack p h up =
    let plain : (p == lit "..") ≡ false = ground (arith, ==_iff p (lit "..")) in rw (h, plain) refl

AllNames-push :
    (rooted : Bool) (stack : List Text) (p : Text)
    → AllNames stack
    → IsStep p
    → AllNames (push rooted stack p)
unfolding push
AllNames-push rooted stack p h (up, lacks) = elim (Bool-cases ((p == []) || (p == lit "."))) [
  | inl skip ↦ subst AllNames (sym (push-skip rooted stack p skip)) h
  | inr kept ↦
      let full : p ≢ [] = ground (arith, ==_iff p []) in
      let other : p ≢ lit "." = ground (arith, ==_iff p (lit ".")) in
      subst AllNames (sym (push-name rooted stack p kept up)) ((full, other, up, lacks), h)
]

AllNames-push_all :
    (rooted : Bool) (stack ps : List Text)
    → AllNames stack
    → ((p : Text) → In p ps → IsStep p)
    → AllNames (push_all rooted stack ps)
unfolding push_all
AllNames-push_all rooted stack [] h steps = h
AllNames-push_all rooted stack (p ∷ ps) h steps =
    AllNames-push_all rooted (push rooted stack p) ps
      (AllNames-push rooted stack p h (steps p (inl refl))) (λ q k. steps q (inr k))

AllNames-rev_onto : (xs ys : List Text) → AllNames xs → AllNames ys → AllNames (rev_onto xs ys)
AllNames-rev_onto [] ys h k = k
AllNames-rev_onto (x ∷ xs) ys (p, h) k = AllNames-rev_onto xs (x ∷ ys) h (p, k)

AllNames-clean : (path : Text) → contains path (lit "..") ≡ false → AllNames (clean_parts path)
unfolding clean_parts
AllNames-clean path plain =
    AllNames-rev_onto (push_all (has_prefix path (lit "/")) [] (split b'/' path)) []
      (AllNames-push_all (has_prefix path (lit "/")) [] (split b'/' path) tt
        (λ p h. IsStep-split path p plain h))
      tt

safe_rel_path-tests :
    (path cleaned : Text)
    → safe_rel_path path ≡ accepted cleaned
    → (path ≢ [])
      × (contains path (lit "..") ≡ false)
      × (cleaned ≡ clean path)
      × (has_prefix (clean path) (lit "/") ≡ false)
unfolding safe_rel_path
safe_rel_path-tests path cleaned h =
    (ground (arith, ==_iff path []), ground arith, ground arith, ground arith)

clean-rooted :
    (path : Text)
    → has_prefix path (lit "/") ≡ true
    → clean path ≡ b'/' ∷ join (lit "/") (clean_parts path)
unfolding clean
clean-rooted path h = rw h refl

clean-relative :
    (path : Text)
    → has_prefix path (lit "/") ≡ false
    → let joined = join (lit "/") (clean_parts path) in
      clean path ≡ (if joined == [] then lit "." else joined)
unfolding clean
clean-relative path h = rw h refl

slash_first : (s : Text) → has_prefix (b'/' ∷ s) (lit "/") ≡ true
slash_first s = has_prefix-append (lit "/") s

-- What SafeRelPath accepts is a chain of names with a slash between them, or a dot for none: no
-- component of it is empty, a dot or two dots, so that it stays below the directory that it is
-- joined to. The names are those that `Clean` leaves of a path that does not begin with a slash.
pub safe_rel_path_below :
    (path cleaned : Text)
    → safe_rel_path path ≡ accepted cleaned
    → AllNames (clean_parts path)
      × (has_prefix path (lit "/") ≡ false)
      × (let joined = join (lit "/") (clean_parts path) in
          cleaned ≡ (if joined == [] then lit "." else joined))
safe_rel_path_below path cleaned h =
    let (_, plain, same, relative) = safe_rel_path-tests path cleaned h in
    let unrooted : has_prefix path (lit "/") ≡ false =
      elim (Bool-cases (has_prefix path (lit "/"))) [
        | inl rooted ↦
            let starts : has_prefix (clean path) (lit "/") ≡ true =
              ap (λ x. has_prefix x (lit "/")) (clean-rooted path rooted)
              ∙ slash_first (join (lit "/") (clean_parts path)) in
            absurd (cc (relative, starts))
        | inr free ↦ free
      ] in
    (AllNames-clean path plain, unrooted, same ∙ clean-relative path unrooted)
