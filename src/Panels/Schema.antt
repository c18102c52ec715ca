-- ===== src/Panels/Schema.antt =====
-- Which manifests pass the check.
use vel.Common.{
  ==_iff, Bool, List, Text, [], arith, false, int_ltb, lit, negsuc, not, pos, ℕ, ℤ, ◌&&◌, ◌++◌,
  ◌==◌, ◌||◌, ◌↔◌, ◌∷◌, ◌≡◌, ◌≢◌, ◌≤◌, ◌⊎◌,
}
use vel.Panels.{
  PanelManifest, SchemaError, missing_fields, one_if, validate_manifest_schema, invalid_size,
  refresh_out_of_range, required_fields, unsupported_contract,
}

-- What the check asks for: the six required fields, the contract version 1.0, a known size or none,
-- and a refresh interval of one second to five minutes or none.
abbrev pub IsValid : PanelManifest → Type 0
IsValid m =
    (m.id ≢ [])
    × (m.name ≢ [])
    × (m.description ≢ [])
    × (m.version ≢ [])
    × (m.author ≢ [])
    × (m.contract_version ≡ lit "1.0")
    × ((m.size ≡ []) ⊎ (m.size ≡ lit "half") ⊎ (m.size ≡ lit "full"))
    × ((m.refresh_ms ≡ pos 0) ⊎ ((n : ℕ) × (m.refresh_ms ≡ pos n) × (1000 ≤ n) × (n ≤ 300000)))

four_nil :
    (xs : List SchemaError) (b c d : Bool) (e f g : SchemaError)
    → (xs ++ (one_if b e ++ (one_if c f ++ one_if d g)) ≡ [])
      ↔ ((xs ≡ []) × (b ≡ false) × (c ≡ false) × (d ≡ false))
four_nil [] b c d e f g = ground arith
four_nil (x ∷ xs) b c d e f g = ground arith

refresh_iff :
    (i : ℤ)
    → (((int_ltb i (pos 0) || int_ltb (pos 0) i)
          && (int_ltb i (pos 1000) || int_ltb (pos 300000) i))
        ≡ false)
      ↔ ((i ≡ pos 0) ⊎ ((n : ℕ) × (i ≡ pos n) × (1000 ≤ n) × (n ≤ 300000)))
unfolding int_ltb
refresh_iff (pos m) = ground arith
refresh_iff (negsuc m) = ground arith

size_iff :
    (s : Text)
    → ((not (s == []) && not (s == lit "half") && not (s == lit "full")) ≡ false)
      ↔ ((s ≡ []) ⊎ (s ≡ lit "half") ⊎ (s ≡ lit "full"))
size_iff s = ground (arith, ==_iff s [], ==_iff s (lit "half"), ==_iff s (lit "full"))

contract_iff :
    (s : Text) → ((s ≢ []) × ((not (s == []) && not (s == lit "1.0")) ≡ false)) ↔ (s ≡ lit "1.0")
contract_iff s = ground (arith, ==_iff s [], ==_iff s (lit "1.0"))

fields_iff :
    (m : PanelManifest)
    → (missing_fields (required_fields m) ≡ []) ↔ (
        (m.id ≢ [])
        × (m.contract_version ≢ [])
        × (m.name ≢ [])
        × (m.description ≢ [])
        × (m.version ≢ [])
        × (m.author ≢ []))
unfolding missing_fields
fields_iff m = ground (
  arith,
  ==_iff m.id [],
  ==_iff m.contract_version [],
  ==_iff m.name [],
  ==_iff m.description [],
  ==_iff m.version [],
  ==_iff m.author [],
)

-- The four parts of the check.
parts_iff :
    (m : PanelManifest)
    → (validate_manifest_schema m ≡ []) ↔ (
        (missing_fields (required_fields m) ≡ [])
        × ((not (m.contract_version == []) && not (m.contract_version == lit "1.0")) ≡ false)
        × ((not (m.size == []) && not (m.size == lit "half") && not (m.size == lit "full")) ≡ false)
        × (((int_ltb m.refresh_ms (pos 0) || int_ltb (pos 0) m.refresh_ms)
              && (int_ltb m.refresh_ms (pos 1000) || int_ltb (pos 300000) m.refresh_ms))
            ≡ false))
unfolding validate_manifest_schema
parts_iff m =
    four_nil (missing_fields (required_fields m))
      (not (m.contract_version == []) && not (m.contract_version == lit "1.0"))
      (not (m.size == []) && not (m.size == lit "half") && not (m.size == lit "full"))
      ((int_ltb m.refresh_ms (pos 0) || int_ltb (pos 0) m.refresh_ms)
        && (int_ltb m.refresh_ms (pos 1000) || int_ltb (pos 300000) m.refresh_ms))
      (unsupported_contract m.contract_version) (invalid_size m.size)
      (refresh_out_of_range m.refresh_ms)

-- A manifest passes the check without a message exactly when it has its six required fields, the
-- contract version 1.0, a size that is `half`, `full` or left out, and a refresh interval that is
-- left out or lies between 1000 and 300000 milliseconds.
pub validate_manifest_schema_iff :
    (m : PanelManifest) → (validate_manifest_schema m ≡ []) ↔ IsValid m
validate_manifest_schema_iff m =
    let parts = parts_iff m in
    let fields = fields_iff m in
    let contract = contract_iff m.contract_version in
    let size = size_iff m.size in
    let refresh = refresh_iff m.refresh_ms in
    (
      λ h.
          let (f, c, s, r) = parts.0 h in
          let (id, version_given, name, description, version, author) = fields.0 f in
          (
            id,
            name,
            description,
            version,
            author,
            contract.0 (version_given, c),
            size.0 s,
            refresh.0 r,
          ),
      λ (id, name, description, version, author, c, s, r).
          let (version_given, c') = contract.1 c in
          parts.1 (
            fields.1 (id, version_given, name, description, version, author),
            c',
            size.1 s,
            refresh.1 r,
          ),
    )
