-- ===== src/Events/Batches/Identities.antt =====
-- The ids of the manifests of a batch event.
use cloudcompute.Base.{
  ℕ, ◌≡◌, ◌≢◌, refl, List, [], ◌∷◌, true, false, Option, none, some, get_elem?, return, arith, map,
  All, >>=-eq-return,
}
use cloudcompute.Manifest.{Uuid, nil_uuid, ComputeManifest, shallow_or_deep}
use cloudcompute.Manifest.Place.{manifest_ids}
use cloudcompute.Events.{Next}
use cloudcompute.Events.Batches.{
  BatchEvent, BatchEventGenerator, Merged, merge_uuid, merge_by_hand, merge_all, finish, next_event,
}
use cloudcompute.Events.Batches.Leaks.{merge_all-cons}

module _ {Value : Type 0} where
  -- `mergo.Merge` calls the transformer for the id of a manifest.
  abbrev pub Transforms :
      (ComputeManifest Value → ComputeManifest Value → Option (ComputeManifest Value)) → Type 0
  Transforms mergo =
      (dst src merged : ComputeManifest Value)
      → mergo dst src ≡ some merged
      → merged.manifest_id ≡ merge_uuid dst.manifest_id src.manifest_id

  module _
      (mergo : ComputeManifest Value → ComputeManifest Value → Option (ComputeManifest Value)) where
    merge_by_hand-manifest_id :
        (m src copy : ComputeManifest Value)
        → merge_by_hand (shallow_or_deep true m) src ≡ return copy
        → copy.manifest_id ≡ m.manifest_id
    unfolding merge_by_hand
    merge_by_hand-manifest_id m src copy h = ground arith

    merge_all-manifest_ids :
        (ms : List (ComputeManifest Value)) (src : ComputeManifest Value) (r : Merged Value)
        → Transforms mergo
        → merge_all mergo ms src ≡ return r
        → r.failed ≡ false
        → manifest_ids r.merged ≡ map (λ id. merge_uuid id src.manifest_id) (manifest_ids ms)
    unfolding merge_all
    merge_all-manifest_ids [] src r transforms h ok = ground arith
    merge_all-manifest_ids (m ∷ ms) src r transforms h ok =
        let round = merge_all-cons mergo m ms src r h ok in
        let rest =
          merge_all-manifest_ids ms src round.rest transforms round.rest_merged round.rest_ok in
        let copied = merge_by_hand-manifest_id m src round.copy round.copied in
        rw (round.merged, transforms round.copy src round.taken round.took, copied, rest) refl

    all-overridden :
        (id : Uuid) (ids : List Uuid)
        → id ≢ nil_uuid
        → All (λ i. i ≡ id) (map (λ i. merge_uuid i id) ids)
    unfolding merge_uuid
    all-overridden id [] h = tt
    all-overridden id (i ∷ ids) h = (ground arith, all-overridden id ids h)

    -- Where `NextEvent` succeeds and `mergo.Merge` calls the transformer, each manifest of the
    -- event has the id of the generator's own, or that of the override where this is not nil, so
    -- that such an override gives all manifests one id.
    pub next_event-manifest_ids :
        (new_uuid : ℕ → Uuid) (beg : BatchEventGenerator Value) (b : BatchEvent Value)
        (n : Next Value (BatchEventGenerator Value))
        → Transforms mergo
        → get_elem? beg.batch beg.index ≡ some b
        → next_event mergo new_uuid beg ≡ return n
        → n.error ≡ none
        → (manifest_ids n.event.manifests
            ≡ map
                (λ id. merge_uuid id b.manifest_overrides.manifest_id)
                (manifest_ids beg.event.manifests))
          × (b.manifest_overrides.manifest_id ≢ nil_uuid
              → All (λ id. id ≡ b.manifest_overrides.manifest_id) (manifest_ids n.event.manifests))
    unfolding next_event
    next_event-manifest_ids new_uuid beg b n transforms here h ok =
        let (r, merged, last) =
          >>=-eq-return (merge_all mergo beg.event.manifests b.manifest_overrides)
            (λ r. return (finish mergo beg b (new_uuid beg.index) r)) {b = n} (ground arith) in
        let ids : manifest_ids n.event.manifests
            ≡ map (λ id. merge_uuid id b.manifest_overrides.manifest_id)
                (manifest_ids beg.event.manifests) =
          ground (
            arith,
            last,
            merge_all-manifest_ids beg.event.manifests b.manifest_overrides r transforms merged,
          ) in
        (
          ids,
          λ other. rw ids (
              all-overridden b.manifest_overrides.manifest_id (manifest_ids beg.event.manifests)
                other),
        )
