-- ===== src/Events/Batches/Leaks.antt =====
-- What the merges of a batch entry leave in the event of the generator.
use cloudcompute.Base.{
  ℕ, zero, suc, ◌≡◌, refl, List, [], ◌∷◌, true, false, Option, none, some, get_elem?, return, arith,
  ◌>>=◌, >>=-eq-return,
}
use cloudcompute.Manifest.{Uuid, ComputeManifest, PayloadAttributes, shallow_or_deep}
use cloudcompute.Events.{Next}
use cloudcompute.Events.Batches.{
  BatchEvent, BatchEventGenerator, Merged, merge_payload_attributes, entries_of, merge_by_hand,
  write_through, merge_all, finish, next_event,
}

module _ {Value : Type 0} where
  -- The attribute map of the manifest at a position, `none` also where there is no manifest.
  abbrev pub attributes_at : ℕ → List (ComputeManifest Value) → Option (PayloadAttributes Value)
  attributes_at i [] = none
  attributes_at zero (m ∷ ms) = m.inputs.payload_attributes
  attributes_at (suc i) (m ∷ ms) = attributes_at i ms

  module _
      (mergo : ComputeManifest Value → ComputeManifest Value → Option (ComputeManifest Value)) where
    -- One round of the loop that fails nowhere.
    pub record Round (m : ComputeManifest Value) (ms : List (ComputeManifest Value))
        (src : ComputeManifest Value) (r : Merged Value) : Type 0 where
      pub copy : ComputeManifest Value
      pub copied : merge_by_hand (shallow_or_deep true m) src ≡ return copy
      pub taken : ComputeManifest Value
      pub took : mergo copy src ≡ some taken
      pub rest : Merged Value
      pub rest_merged : merge_all mergo ms src ≡ return rest
      pub rest_ok : rest.failed ≡ false
      pub merged : r.merged ≡ taken ∷ rest.merged
      originals : r.originals ≡ write_through m copy ∷ rest.originals

    pub merge_all-cons :
        (m : ComputeManifest Value) (ms : List (ComputeManifest Value))
        (src : ComputeManifest Value) (r : Merged Value)
        → merge_all mergo (m ∷ ms) src ≡ return r
        → r.failed ≡ false
        → Round m ms src r
    unfolding merge_all
    merge_all-cons m ms src r h ok =
        let (copy, copied, after) =
          >>=-eq-return (merge_by_hand (shallow_or_deep true m) src) _ h in
        split copy copied (mergo copy src) refl after
      where
        split :
            (copy : ComputeManifest Value)
            → merge_by_hand (shallow_or_deep true m) src ≡ return copy
            → (merged : Option (ComputeManifest Value)) → mergo copy src ≡ merged
            → (elim merged [
              | none ↦
                  return
                    (record { merged = []; failed = true; originals = write_through m copy ∷ ms })
              | some merged ↦ merge_all mergo ms src >>= λ r. return (record {
                merged = merged ∷ r.merged;
                failed = r.failed;
                originals = write_through m copy ∷ r.originals;
              })
            ])
              ≡ return r
            → Round m ms src r
        split copy copied none took e = absurd (ground arith)
        split copy copied (some merged) took e =
            let (rest, rest_merged, same) = >>=-eq-return (merge_all mergo ms src) _ e in
            record {
              copy = copy;
              copied = copied;
              taken = merged;
              took = took;
              rest = rest;
              rest_merged = rest_merged;
              rest_ok = ground arith;
              merged = ground arith;
              originals = ground arith;
            }

    write_through-attributes :
        (m copy src : ComputeManifest Value) (old : PayloadAttributes Value)
        → merge_by_hand (shallow_or_deep true m) src ≡ return copy
        → m.inputs.payload_attributes ≡ some old
        → (write_through m copy).inputs.payload_attributes
          ≡ some (merge_payload_attributes old (entries_of src.inputs.payload_attributes))
    unfolding merge_by_hand write_through
    write_through-attributes m copy src old h e = ground arith

    merge_all-originals :
        (ms : List (ComputeManifest Value)) (src : ComputeManifest Value) (r : Merged Value) (i : ℕ)
        (old : PayloadAttributes Value)
        → merge_all mergo ms src ≡ return r
        → r.failed ≡ false
        → attributes_at i ms ≡ some old
        → attributes_at i r.originals
          ≡ some (merge_payload_attributes old (entries_of src.inputs.payload_attributes))
    merge_all-originals [] src r i old h ok e = cc
    merge_all-originals (m ∷ ms) src r zero old h ok e =
        let round = merge_all-cons m ms src r h ok in
        rw round.originals (write_through-attributes m round.copy src old round.copied e)
    merge_all-originals (m ∷ ms) src r (suc i) old h ok e =
        let round = merge_all-cons m ms src r h ok in
        rw round.originals
          (merge_all-originals ms src round.rest i old round.rest_merged round.rest_ok e)

    -- What a batch entry merges into a manifest's attributes stays in the generator: where
    -- `NextEvent` succeeds, each manifest of the generator's own event that had an attribute map
    -- has it merged with the override's, and starts from there at the next call.
    pub next_event-leaks :
        (new_uuid : ℕ → Uuid) (beg : BatchEventGenerator Value) (b : BatchEvent Value)
        (n : Next Value (BatchEventGenerator Value)) (i : ℕ) (old : PayloadAttributes Value)
        → get_elem? beg.batch beg.index ≡ some b
        → next_event mergo new_uuid beg ≡ return n
        → n.error ≡ none
        → attributes_at i beg.event.manifests ≡ some old
        → attributes_at i n.generator.event.manifests
          ≡ some (
              merge_payload_attributes old
                (entries_of b.manifest_overrides.inputs.payload_attributes))
    unfolding next_event
    next_event-leaks new_uuid beg b n i old here h ok e =
        let (r, merged, last) =
          >>=-eq-return (merge_all mergo beg.event.manifests b.manifest_overrides)
            (λ r. return (finish mergo beg b (new_uuid beg.index) r)) {b = n} (ground arith) in
        ground
          (arith, last, merge_all-originals beg.event.manifests b.manifest_overrides r i old merged)
