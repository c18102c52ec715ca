-- ===== src/Panels/Tests.antt =====
-- Runs of the manifest check and of the list of panels.
use vel.Common.{
  Text, [], arith, false, has_prefix, inl, inr, int_ltb, lit, negsuc, none, pos, refl, subst, sym,
  ℤ, ◌==◌, ◌∷◌, ◌≡◌, ◌≢◌,
}
use vel.Std.Sort.{insert, sort_slice}
use vel.Panels.{
  PanelInfo, PanelManifest, build_panel_list, is_shown, missing_field, missing_fields, order_from,
  panel_less, rank, refresh_out_of_range, sorted_panels, validate_manifest_schema,
}
use vel.Panels.Listing.{HasUniqueIds, build_panel_list-iteration}

abbrev manifest : Text → ℤ → PanelManifest
manifest id position = record {
  id = id;
  contract_version = lit "1.0";
  name = lit "n";
  description = lit "d";
  version = lit "1";
  author = lit "a";
  position = position;
  size = lit "half";
  refresh_ms = pos 2000;
  requires = [];
  capabilities = [];
  data_schema = [];
  rate_limit = none;
  config = [];
  data_envelope = false;
  data_source = [];
}

abbrev panel : Text → ℤ → PanelInfo
panel id position = record { manifest = manifest id position; path = []; source = lit "core" }

abbrev cpu : PanelInfo
cpu = panel (lit "cpu") (pos 2)

abbrev disk : PanelInfo
disk = panel (lit "disk") (negsuc 0)

accepted : validate_manifest_schema (manifest (lit "cpu") (pos 1)) ≡ []
unfolding validate_manifest_schema missing_fields int_ltb ◌==◌
accepted = refl

refused :
    validate_manifest_schema (record (manifest [] (pos 1)) { refresh_ms = negsuc 4 })
    ≡ missing_field (lit "id") ∷ refresh_out_of_range (negsuc 4) ∷ []
unfolding validate_manifest_schema missing_fields int_ltb ◌==◌
refused = refl

listed : sorted_panels (cpu ∷ disk ∷ panel (lit "_dev") (pos 0) ∷ []) [] [] false ≡ disk ∷ cpu ∷ []
unfolding sorted_panels sort_slice insert panel_less rank order_from is_shown int_ltb has_prefix
    ◌==◌
listed = refl

differ : lit "cpu" ≢ lit "disk"
differ e = ground arith

differ' : lit "disk" ≢ lit "cpu"
differ' e = ground arith

unique : HasUniqueIds (cpu ∷ disk ∷ [])
unique = (
  (λ q h. elim h [
    | inl e ↦ subst (λ (x : PanelInfo). lit "cpu" ≢ x.manifest.id) (sym e) differ
    | inr k ↦ absurd k
  ]),
  ((λ q h. absurd h), tt),
)

unique' : HasUniqueIds (disk ∷ cpu ∷ [])
unique' = (
  (λ q h. elim h [
    | inl e ↦ subst (λ (x : PanelInfo). lit "disk" ≢ x.manifest.id) (sym e) differ'
    | inr k ↦ absurd k
  ]),
  ((λ q h. absurd h), tt),
)

build_panel_list-iteration_example :
    build_panel_list (cpu ∷ disk ∷ []) (lit "cpu" ∷ []) [] false
    ≡ build_panel_list (disk ∷ cpu ∷ []) (lit "cpu" ∷ []) [] false
build_panel_list-iteration_example =
    build_panel_list-iteration (cpu ∷ disk ∷ []) (disk ∷ cpu ∷ []) (lit "cpu" ∷ []) [] false unique
      unique'
      (λ p. (
        λ h. elim h [ inl e ↦ inr (inl e) | inr k ↦ elim k [ inl e ↦ inl e | inr l ↦ absurd l ] ],
        λ h. elim h [ inl e ↦ inr (inl e) | inr k ↦ elim k [ inl e ↦ inl e | inr l ↦ absurd l ] ],
      ))
