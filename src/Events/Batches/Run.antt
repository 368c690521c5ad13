-- ===== src/Events/Batches/Run.antt =====
-- The event loop over a BatchEventGenerator.
use cloudcompute.Base.{
  ℕ, zero, suc, ◌+◌, ◌<◌, ◌≡◌, ◌≢◌, refl, subst, String, List, [], ◌∷◌, ◌++◌, true, false, Option,
  none, some, length, get_elem?, return, panic, arith, All, sym, append_assoc, append-nil,
  length-append,
}
use cloudcompute.Manifest.{Uuid, ComputeManifest, Event, shallow_or_deep}
use cloudcompute.Events.{Next, panicked, event_loop}
use cloudcompute.Events.Batches.{
  BatchEvent, BatchEventGenerator, Merged, merge_payload_attributes, merge_actions, entries_of,
  merge_by_hand, write_through, merge_all, finish, next_event, new_batch_event_generator,
}

module _ {Value : Type 0} where
  abbrev pub NoActions : ComputeManifest Value → Type 0
  NoActions m = m.actions ≡ []

  abbrev pub identifiers : List (Event Value) → List String
  identifiers [] = []
  identifiers (e ∷ es) = e.event_identifier ∷ identifiers es

  abbrev pub batch_identifiers : List (BatchEvent Value) → List String
  batch_identifiers [] = []
  batch_identifiers (b ∷ bs) = b.event_identifier ∷ batch_identifiers bs

  get_elem?-at :
      (done bs : List (BatchEvent Value)) (b : BatchEvent Value)
      → get_elem? (done ++ b ∷ bs) (length done) ≡ some b
  get_elem?-at [] bs b = refl
  get_elem?-at (d ∷ done) bs b = get_elem?-at done bs b

  get_elem?-end : (bs : List (BatchEvent Value)) → get_elem? bs (length bs) ≡ none
  get_elem?-end [] = refl
  get_elem?-end (b ∷ bs) = get_elem?-end bs

  module _
      (mergo : ComputeManifest Value → ComputeManifest Value → Option (ComputeManifest Value)) where
    -- With a merge that never fails, and no actions, the loop over the manifests succeeds.
    merge_all_total :
        (src : ComputeManifest Value) (ms : List (ComputeManifest Value))
        → ((dst : ComputeManifest Value) → mergo dst src ≢ none)
        → All NoActions ms
        → (r : Merged Value) × (merge_all mergo ms src ≡ return r)
          × (r.failed ≡ false)
          × All NoActions r.originals
    unfolding merge_all merge_by_hand merge_actions write_through
    merge_all_total src [] total plain =
        (record { merged = []; failed = false; originals = [] }, refl, refl, tt)
    merge_all_total src (m ∷ ms) total plain =
        let (r, eq, ok, rest_plain) = merge_all_total src ms total plain.1 in
        let inputs = m.inputs in
        let attributes = some (
          merge_payload_attributes (entries_of inputs.payload_attributes)
            (entries_of src.inputs.payload_attributes)) in
        let copy : ComputeManifest Value = record (shallow_or_deep true m) {
          inputs = record inputs { payload_attributes = attributes };
          actions = [];
        } in
        let by_hand : merge_by_hand (shallow_or_deep true m) src ≡ return copy =
          ground (arith, plain.0) in
        let (merged, is_merged) = value_of (mergo copy src) (total copy) in
        (
          record {
            merged = merged ∷ r.merged;
            failed = r.failed;
            originals = write_through m copy ∷ r.originals;
          },
          ground (arith, eq, is_merged, by_hand),
          ok,
          (refl, rest_plain),
        )
      where
        value_of :
            (o : Option (ComputeManifest Value))
            → o ≢ none
            → (x : ComputeManifest Value) × (o ≡ some x)
        value_of none h = absurd (h refl)
        value_of (some x) h = (x, refl)

    -- A generator behind the entries `done`, with the entries `bs` to come.
    record Stands (done bs : List (BatchEvent Value)) (beg : BatchEventGenerator Value)
        : Type 0 where
      batch : beg.batch ≡ done ++ bs
      index : beg.index ≡ length done
      size : beg.size ≡ length done + length bs
      plain : All NoActions beg.event.manifests

    record Goes (new_uuid : ℕ → Uuid) (done bs : List (BatchEvent Value)) (b : BatchEvent Value)
        (beg : BatchEventGenerator Value) : Type 0 where
      n : Next Value (BatchEventGenerator Value)
      next : next_event mergo new_uuid beg ≡ return n
      no_error : n.error ≡ none
      more : n.has_next ≡ true
      named : n.event.event_identifier ≡ b.event_identifier
      stands : Stands (done ++ b ∷ []) bs n.generator

    finish-originals :
        (beg : BatchEventGenerator Value) (b : BatchEvent Value) (new_id : Uuid) (r : Merged Value)
        → (finish mergo beg b new_id r).generator.event.manifests ≡ r.originals
    unfolding finish
    finish-originals beg b new_id r = ground arith

    next_event-end :
        (new_uuid : ℕ → Uuid) (done : List (BatchEvent Value)) (beg : BatchEventGenerator Value)
        → Stands done [] beg
        → next_event mergo new_uuid beg ≡ panic
    unfolding next_event
    next_event-end new_uuid done beg s =
        ground (arith, s.batch, s.index, append-nil done, get_elem?-end done)

    next_event-Goes :
        (new_uuid : ℕ → Uuid) (done bs : List (BatchEvent Value)) (b : BatchEvent Value)
        (beg : BatchEventGenerator Value)
        → ((dst src : ComputeManifest Value) → mergo dst src ≢ none)
        → Stands done (b ∷ bs) beg
        → Goes new_uuid done bs b beg
    unfolding next_event
    next_event-Goes new_uuid done bs b beg total s =
        let src = b.manifest_overrides in
        let (r, eq, ok, plain) =
          merge_all_total src beg.event.manifests (λ dst. total dst src) s.plain in
        record {
          n = finish mergo beg b (new_uuid beg.index) r;
          next = ground (arith, eq, s.batch, s.index, get_elem?-at done bs b);
          no_error = ground (arith, ok);
          more = ground (arith, ok, s.size, s.index);
          named = ground (arith, ok);
          stands = record {
            batch = ground (arith, ok, s.batch, append_assoc done (b ∷ []) bs);
            index = ground (arith, ok, s.index, length-append done (b ∷ []));
            size = ground (arith, ok, s.size, length-append done (b ∷ []));
            plain =
                subst (All NoActions) (sym (finish-originals beg b (new_uuid beg.index) r)) plain;
          };
        }

    batch_from :
        (new_uuid : ℕ → Uuid) (fuel : ℕ) (done bs : List (BatchEvent Value))
        (beg : BatchEventGenerator Value)
        → ((dst src : ComputeManifest Value) → mergo dst src ≢ none)
        → Stands done bs beg
        → length bs < fuel
        → (let (events, end) = event_loop (next_event mergo new_uuid) fuel beg in
            (identifiers events ≡ batch_identifiers bs) × (end ≡ panicked))
    unfolding event_loop
    batch_from new_uuid zero done bs beg total s h = absurd (omega arith)
    batch_from new_uuid (suc fuel) done [] beg total s h =
        ground (arith, next_event-end new_uuid done beg s)
    batch_from new_uuid (suc fuel) done (b ∷ bs) beg total s h =
        let go = next_event-Goes new_uuid done bs b beg total s in
        ground (
          arith,
          go.next,
          go.no_error,
          go.more,
          go.named,
          batch_from new_uuid fuel (done ++ b ∷ []) bs go.n.generator total go.stands (omega arith),
        )

    -- Where merging never fails and the manifests have no actions, the loop hands on one event for
    -- each entry of the batch, in order, and then panics: `NextEvent` says that there is a next
    -- event behind the last one, and reads the batch out of range.
    pub batch_loop_panics :
        (new_uuid : ℕ → Uuid) (fuel : ℕ) (e : Event Value) (batch : List (BatchEvent Value))
        → ((dst src : ComputeManifest Value) → mergo dst src ≢ none)
        → All NoActions e.manifests
        → length batch < fuel
        → (let (events, end) =
              event_loop (next_event mergo new_uuid) fuel (new_batch_event_generator e batch) in
            (identifiers events ≡ batch_identifiers batch) × (end ≡ panicked))
    unfolding new_batch_event_generator
    batch_loop_panics new_uuid fuel e batch total plain h =
        batch_from new_uuid fuel [] batch (new_batch_event_generator e batch) total
          (record { batch = refl; index = refl; size = omega arith; plain = plain }) h
