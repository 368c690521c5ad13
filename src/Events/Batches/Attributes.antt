-- ===== src/Events/Batches/Attributes.antt =====
-- mergePayloadAttributes as a function of keys.
use cloudcompute.Base.{
  ◌≡◌, String, [], ◌∷◌, Bool, true, false, Option, none, some, ite, arith, String_discrete,
}
use cloudcompute.Base.Maps.{lookup, lookup-insert}
use cloudcompute.Manifest.{PayloadAttributes}
use cloudcompute.Events.Batches.{merge_payload_attributes, put_attribute}

module _ {Value : Type 0} where
  -- The last value of a list of attributes under a key that is not nil, if there is one.
  abbrev pub last_value : String → PayloadAttributes Value → Option Value
  last_value key [] = none
  last_value key ((k, v) ∷ src) = elim (last_value key src) [
    | some x ↦ some x
    | none ↦ ite (String_discrete key k) v none
  ]

  -- Is the key there?
  abbrev pub is_key : String → PayloadAttributes Value → Bool
  is_key key [] = false
  is_key key ((k, v) ∷ src) = ite (String_discrete key k) true (is_key key src)

  -- What a merge should leave under a key.
  abbrev pub overridden : Option (Option Value) → Option Value → Bool → Option (Option Value)
  overridden old (some v) known = some (some v)
  overridden (some old) none known = some old
  overridden none none true = some none
  overridden none none false = none

  -- `mergePayloadAttributes` takes a value of the source that is not nil, keeps the old value where
  -- the source has none, and adds the keys that were missing.
  pub merge_payload_attributes_lem :
      (dst src : PayloadAttributes Value) (key : String)
      → lookup String_discrete key (merge_payload_attributes dst src)
        ≡ overridden (lookup String_discrete key dst) (last_value key src) (is_key key src)
  unfolding merge_payload_attributes
  merge_payload_attributes_lem dst [] key = ground arith
  merge_payload_attributes_lem dst ((k, none) ∷ src) key = ground (
    arith,
    merge_payload_attributes_lem (put_attribute k none dst) src key,
    lookup-insert String_discrete k key none dst,
  )
  merge_payload_attributes_lem dst ((k, some v) ∷ src) key = ground (
    arith,
    merge_payload_attributes_lem (put_attribute k (some v) dst) src key,
    lookup-insert String_discrete k key (some v) dst,
  )
