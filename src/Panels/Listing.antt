-- ===== src/Panels/Listing.antt =====
-- The list of panels: which ones it holds, in which order, and that the iteration order of the
-- registry's map does not matter.
use vel.Common.{
  ==_iff, Bool, Bool-cases, In, In-keep, List, Text, [], any, ap, arith, eqb, false, has_prefix,
  if◌then◌else◌, inl, inr, int_ltb, int_ltb-total, int_ltb_irrefl, int_ltb_trans, keep, lit, ltb,
  map, not, refl, sym, true, ℕ, ℤ, ◌==◌, ◌↔◌, ◌∙◌, ◌∷◌, ◌≡◌, ◌≢◌, ◌⊎◌,
}
use vel.Std.Sort.{
  text_ltb, text_ltb_irrefl, text_ltb-total, text_ltb_trans, AreOrdered, In-sort, IsSorted,
  sort-IsSorted, sorted_unique,
}
use vel.Panels.{
  int_ltb, ℤ, PanelInfo, build_panel_list, is_shown, panel_item, panel_less, rank, sorted_panels,
}

-- What the sort compares of two panels, with both ranks as numbers.
abbrev key_less : ℕ → ℕ → ℤ → ℤ → Text → Text → Bool
key_less oi oj p q s t =
    if not (eqb oi oj)
    then ltb oi oj
    else if int_ltb p q
    then true
    else if int_ltb q p
    then false
    else text_ltb s t

key_less_trans :
    (oi oj ok : ℕ) (p q r : ℤ) (s t u : Text)
    → key_less oi oj p q s t ≡ true
    → key_less oj ok q r t u ≡ true
    → key_less oi ok p r s u ≡ true
key_less_trans oi oj ok p q r s t u h k = ground (
  arith,
  int_ltb_trans p q r,
  int_ltb_trans r p q,
  int_ltb_trans q r p,
  int_ltb-total p q,
  int_ltb-total q r,
  int_ltb_irrefl p,
  text_ltb_trans s t u,
)

key_less_irrefl : (oi : ℕ) (p : ℤ) (s : Text) → key_less oi oi p p s s ≡ false
key_less_irrefl oi p s = ground (arith, int_ltb_irrefl p, text_ltb_irrefl s)

key_less-total :
    (oi oj : ℕ) (p q : ℤ) (s t : Text)
    → s ≢ t
    → (key_less oi oj p q s t ≡ true) ⊎ (key_less oj oi q p t s ≡ true)
key_less-total oi oj p q s t h = ground (arith, text_ltb-total s t, int_ltb-total p q)

-- No two panels of the list have the same id in their manifests.
abbrev pub HasUniqueIds : List PanelInfo → Type 0
HasUniqueIds [] = Unit
HasUniqueIds (p ∷ ps) =
    ((q : PanelInfo) → In q ps → p.manifest.id ≢ q.manifest.id) × HasUniqueIds ps

panel_less-key :
    (order : List Text) (e f : PanelInfo)
    → panel_less order e f
      ≡ key_less
          (rank order e.manifest.id)
          (rank order f.manifest.id)
          e.manifest.position
          f.manifest.position
          e.manifest.id
          f.manifest.id
unfolding panel_less
panel_less-key order e f = refl

panel_less_irrefl : (order : List Text) (e : PanelInfo) → panel_less order e e ≡ false
panel_less_irrefl order e =
    panel_less-key order e e
    ∙ key_less_irrefl (rank order e.manifest.id) e.manifest.position e.manifest.id

panel_less_trans :
    (order : List Text) (e f g : PanelInfo)
    → panel_less order e f ≡ true
    → panel_less order f g ≡ true
    → panel_less order e g ≡ true
panel_less_trans order e f g h k =
    panel_less-key order e g
    ∙ key_less_trans (rank order e.manifest.id) (rank order f.manifest.id)
        (rank order g.manifest.id) e.manifest.position f.manifest.position g.manifest.position
        e.manifest.id f.manifest.id g.manifest.id (sym (panel_less-key order e f) ∙ h)
        (sym (panel_less-key order f g) ∙ k)

panel_less-total :
    (order : List Text) (e f : PanelInfo)
    → e.manifest.id ≢ f.manifest.id
    → (panel_less order e f ≡ true) ⊎ (panel_less order f e ≡ true)
panel_less-total order e f h =
    let oi = rank order e.manifest.id in
    let oj = rank order f.manifest.id in
    elim (key_less-total oi oj e.manifest.position f.manifest.position e.manifest.id f.manifest.id
      h) [
        | inl lt ↦ inl (panel_less-key order e f ∙ lt)
        | inr gt ↦ inr (panel_less-key order f e ∙ gt)
      ]

AreOrdered-HasUniqueIds :
    (order : List Text) (shown : PanelInfo → Bool) (ps : List PanelInfo)
    → HasUniqueIds ps
    → AreOrdered (panel_less order) (keep shown ps)
AreOrdered-HasUniqueIds order shown [] h = tt
AreOrdered-HasUniqueIds order shown (p ∷ ps) (new, h) = elim (Bool-cases (shown p)) [
  | inl kept ↦ rw kept (
    (λ q k. panel_less-total order p q (new q ((In-keep shown q ps).0 k).0)),
    AreOrdered-HasUniqueIds order shown ps h,
  )
  | inr dropped ↦ rw dropped (AreOrdered-HasUniqueIds order shown ps h)
]

any_equal : (ds : List Text) (id : Text) → (any (λ d. d == id) ds ≡ true) ↔ In id ds
any_equal [] id = ground arith
any_equal (d ∷ ds) id = ground (arith, ==_iff d id, any_equal ds id)

is_shown-listed :
    (disabled : List Text) (test_mode : Bool) (p : PanelInfo)
    → any (λ d. d == p.manifest.id) disabled ≡ true
    → is_shown disabled test_mode p ≢ true
unfolding is_shown
is_shown-listed disabled test_mode p h k = ground arith

is_shown_iff :
    (disabled : List Text) (test_mode : Bool) (p : PanelInfo)
    → (is_shown disabled test_mode p ≡ true) ↔ (
        (¬ In p.manifest.id disabled)
        × ((test_mode ≡ true) ⊎ (has_prefix p.manifest.id (lit "_") ≡ false)))
unfolding is_shown
is_shown_iff disabled test_mode p =
    let listed = any_equal disabled p.manifest.id in
    (
      λ h. (λ k. absurd (is_shown-listed disabled test_mode p (listed.1 k) h), ground arith),
      λ (free, rest).
          let unlisted : any (λ d. d == p.manifest.id) disabled ≡ false =
            elim (Bool-cases (any (λ d. d == p.manifest.id) disabled)) [
              | inl hit ↦ absurd (free (listed.0 hit))
              | inr miss ↦ miss
            ] in
          ground arith,
    )

sorted_panels-IsSorted :
    (entries : List PanelInfo) (order disabled : List Text) (test_mode : Bool)
    → HasUniqueIds entries
    → IsSorted (panel_less order) (sorted_panels entries order disabled test_mode)
unfolding sorted_panels
sorted_panels-IsSorted entries order disabled test_mode unique =
    sort-IsSorted (panel_less order) (panel_less_trans order)
      (keep (is_shown disabled test_mode) entries)
      (AreOrdered-HasUniqueIds order (is_shown disabled test_mode) entries unique)

abbrev pub IsListed : List Text → Bool → PanelInfo → Type 0
IsListed disabled test_mode p =
    (¬ In p.manifest.id disabled)
    × ((test_mode ≡ true) ⊎ (has_prefix p.manifest.id (lit "_") ≡ false))

-- The panels of the list are those of the registry whose id is not disabled and, outside of test
-- mode, does not begin with an underscore; and every panel comes before all that follow it by the
-- place of its id in `panelOrder`, then by its position, then by its id. The registry holds no two
-- panels with one id.
sorted_panels_lem :
    (entries : List PanelInfo) (order disabled : List Text) (test_mode : Bool) (p : PanelInfo)
    → HasUniqueIds entries
    → (In p (sorted_panels entries order disabled test_mode)
        ↔ (In p entries × IsListed disabled test_mode p))
      × IsSorted (panel_less order) (sorted_panels entries order disabled test_mode)
unfolding sorted_panels
sorted_panels_lem entries order disabled test_mode p unique =
    let shown = is_shown disabled test_mode in
    let (to, from) = In-sort (panel_less order) p (keep shown entries) in
    let (to', from') = In-keep shown p entries in
    let (to'', from'') = is_shown_iff disabled test_mode p in
    (
      (λ h. let (held, s) = to' (to h) in (held, to'' s), λ h. from (from' (h.0, from'' h.1))),
      sorted_panels-IsSorted entries order disabled test_mode unique,
    )

-- The list that the frontend gets does not depend on the order in which Go iterates over the
-- registry: two iterations over the same panels give the same list, if no two have one id.
pub build_panel_list-iteration :
    (entries entries' : List PanelInfo) (order disabled : List Text) (test_mode : Bool)
    → HasUniqueIds entries
    → HasUniqueIds entries'
    → ((p : PanelInfo) → In p entries ↔ In p entries')
    → build_panel_list entries order disabled test_mode
      ≡ build_panel_list entries' order disabled test_mode
unfolding build_panel_list
build_panel_list-iteration entries entries' order disabled test_mode unique unique' same =
    let holds =
      λ (p : PanelInfo). (sorted_panels_lem entries order disabled test_mode p unique).0 in
    let holds' =
      λ (p : PanelInfo). (sorted_panels_lem entries' order disabled test_mode p unique').0 in
    ap (map panel_item) (
      sorted_unique (panel_less order) (panel_less_irrefl order) (panel_less_trans order)
        (sorted_panels entries order disabled test_mode)
        (sorted_panels entries' order disabled test_mode)
        (sorted_panels-IsSorted entries order disabled test_mode unique)
        (sorted_panels-IsSorted entries' order disabled test_mode unique')
        (λ p. (
          λ h. let r = (holds p).0 h in (holds' p).1 ((same p).0 r.0, r.1),
          λ h. let r = (holds' p).0 h in (holds p).1 ((same p).1 r.0, r.1),
        )))
