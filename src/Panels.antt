-- ===== src/Panels.antt =====
-- internal/panels/registry.go and types.go: the check of a manifest and the list of panels for the
-- frontend. A map is the list of its entries in the order of one iteration.
pub mod Listing
pub mod Schema
pub mod Discovery
mod Tests
use vel.Common.{
  Bool, List, Option, Text, [], any, eqb, false, has_prefix, if◌then◌else◌, int_ltb, keep, lit, ltb,
  map, none, not, pos, some, suc, true, ℕ, ℤ, ◌&&◌, ◌++◌, ◌==◌, ◌||◌, ◌∷◌,
}
use vel.Std.Sort.{sort_slice, text_ltb}

pub record RateLimitConfig : Type 0 where
  pub window_ms : ℤ
  pub max : ℤ

-- Raw JSON is its bytes, and no bytes where it is nil.
pub record PanelManifest : Type 0 where
  pub id : Text
  pub contract_version : Text
  pub name : Text
  pub description : Text
  pub version : Text
  pub author : Text
  pub position : ℤ
  pub size : Text
  pub refresh_ms : ℤ
  pub requires : List Text
  pub capabilities : List Text
  pub data_schema : Text
  pub rate_limit : Option RateLimitConfig
  pub config : Text
  pub data_envelope : Bool
  pub data_source : Text

pub record PanelInfo : Type 0 where
  pub manifest : PanelManifest
  pub path : Text
  pub source : Text

-- What `validateManifestSchema` reports: each message is what it complains of.
pub data SchemaError : Type 0 where
  missing_field : Text → SchemaError
  unsupported_contract : Text → SchemaError
  invalid_size : Text → SchemaError
  refresh_out_of_range : ℤ → SchemaError

abbrev pub required_fields : PanelManifest → List (Text × Text)
required_fields m =
    (lit "id", m.id)
    ∷ (lit "contractVersion", m.contract_version)
    ∷ (lit "name", m.name)
    ∷ (lit "description", m.description)
    ∷ (lit "version", m.version)
    ∷ (lit "author", m.author)
    ∷ []

unfoldable pub missing_fields : List (Text × Text) → List SchemaError
missing_fields [] = []
missing_fields ((field, val) ∷ fs) =
    let rest = missing_fields fs in if val == [] then missing_field field ∷ rest else rest

abbrev pub one_if : Bool → SchemaError → List SchemaError
one_if b e = if b then e ∷ [] else []

unfoldable pub validate_manifest_schema : PanelManifest → List SchemaError
validate_manifest_schema m =
    missing_fields (required_fields m)
    ++ (one_if (not (m.contract_version == []) && not (m.contract_version == lit "1.0"))
          (unsupported_contract m.contract_version)
        ++ (one_if (not (m.size == []) && not (m.size == lit "half") && not (m.size == lit "full"))
              (invalid_size m.size)
            ++ one_if
                ((int_ltb m.refresh_ms (pos 0) || int_ltb (pos 0) m.refresh_ms)
                  && (int_ltb m.refresh_ms (pos 1000) || int_ltb (pos 300000) m.refresh_ms))
                (refresh_out_of_range m.refresh_ms)))

-- The position of an id in `panelOrder`, the last one if it stands there twice.
unfoldable pub order_from : ℕ → List Text → Text → Option ℕ
order_from i [] id = none
order_from i (x ∷ order) id = elim (order_from (suc i) order id) [
  | none ↦ if x == id then some i else none
  | some j ↦ some j
]

unfoldable pub rank : List Text → Text → ℕ
rank order id = elim (order_from 0 order id) [ none ↦ 99999 | some i ↦ i ]

-- The `less` of the sort.
unfoldable pub panel_less : List Text → PanelInfo → PanelInfo → Bool
panel_less order e f =
    let oi = rank order e.manifest.id in
    let oj = rank order f.manifest.id in
    if not (eqb oi oj)
    then ltb oi oj
    else if int_ltb e.manifest.position f.manifest.position
    then true
    else if int_ltb f.manifest.position e.manifest.position
    then false
    else text_ltb e.manifest.id f.manifest.id

unfoldable pub is_shown : List Text → Bool → PanelInfo → Bool
is_shown disabled test_mode p =
    if any (λ d. d == p.manifest.id) disabled
    then false
    else test_mode || not (has_prefix p.manifest.id (lit "_"))

-- One map of the result; `rate_limit`, `config` and `data_source` are left out where they are empty.
pub record PanelItem : Type 0 where
  pub manifest : PanelManifest
  pub source : Text
  pub rate_limit : Option RateLimitConfig
  pub config : Option Text
  pub data_envelope : Bool
  pub data_source : Option Text

unfoldable pub panel_item : PanelInfo → PanelItem
panel_item p = record {
  manifest = p.manifest;
  source = p.source;
  rate_limit = p.manifest.rate_limit;
  config = if p.manifest.config == [] then none else some p.manifest.config;
  data_envelope = p.manifest.data_envelope;
  data_source = if p.manifest.data_source == [] then none else some p.manifest.data_source;
}

-- `entries` is the registry in the order of its iteration.
unfoldable pub sorted_panels : List PanelInfo → List Text → List Text → Bool → List PanelInfo
sorted_panels entries order disabled test_mode =
    sort_slice (panel_less order) (keep (is_shown disabled test_mode) entries)

unfoldable pub build_panel_list : List PanelInfo → List Text → List Text → Bool → List PanelItem
build_panel_list entries order disabled test_mode =
    map panel_item (sorted_panels entries order disabled test_mode)
