-- ===== src/Compute/Payloads.antt =====
-- When the payloads of an event can be written, with a store that is there.
use cloudcompute.Base.{
  ℕ, suc, ◌≡◌, ◌==◌, refl, String, List, [], ◌∷◌, Bool, true, false, not, ◌||◌, ◌&&◌, Option, none,
  some, cond, All, arith, return, panic, Bool-cases, inl, inr, String_discrete,
}
use cloudcompute.Base.Maps.{Map, insert}
use cloudcompute.Manifest.{Uuid, nil_uuid, ComputeManifest, Event, sort_manifests}
use cloudcompute.Manifest.Place.{manifest_ids, Found}
use cloudcompute.Manifest.Sorting.{IsSortable, sort_manifests_lem}
use cloudcompute.Jobs.{Job}
use cloudcompute.Compute.{
  Names, CloudCompute, PayloadStore, make_job, write_payload, with_payload, build_jobs, sort_first,
  prepare_event, needs_payload, tags_or_new,
}
use cloudcompute.Compute.Built.{get_manifest-All}

abbrev pub has_tags : Option (Map String String) → Bool
has_tags none = false
has_tags (some tags) = true

module _ {Value : Type 0} where
  -- The manifest needs no payload, or has one, or has a map for the tag of one.
  abbrev pub is_writable : ComputeManifest Value → Bool
  is_writable m = not (needs_payload m) || not (m.payload_id == nil_uuid) || has_tags m.tags

  abbrev pub all_writable : List (ComputeManifest Value) → Bool
  all_writable [] = true
  all_writable (m ∷ ms) = is_writable m && all_writable ms

  -- The store opens, and takes every payload.
  pub record IsAvailable (store : PayloadStore Value) : Type 0 where
    pub opened : (manifest payload : Uuid) → store.opens manifest payload ≡ true
    pub taken : (m : ComputeManifest Value) → store.takes m ≡ true

  Found-writable :
      (ms found : List (ComputeManifest Value)) (ids : List Uuid)
      → All (λ m. is_writable m ≡ true) ms
      → Found ms ids found
      → all_writable found ≡ true
  Found-writable ms found [] a f = rw f refl
  Found-writable ms [] (id ∷ ids) a f = elim f [ ]
  Found-writable ms (m ∷ found) (id ∷ ids) a f = ground (
    arith,
    get_manifest-All ms (λ m. is_writable m ≡ true) id m a f.0,
    Found-writable ms found ids a f.2,
  )

  module _ (names : Names) (store : PayloadStore Value) (compute : CloudCompute)
      (new_payload new_job : ℕ → Uuid) where
    -- The manifest with its payload and the tag of it.
    abbrev pub written_as : ℕ → ComputeManifest Value → ComputeManifest Value
    written_as i m =
        let id = new_payload i in
        cond (needs_payload m && m.payload_id == nil_uuid)
          (record m {
            tags =
                some (insert String_discrete "payload" (names.uuid_string id) (tags_or_new m.tags));
            payload_id = id;
          })
          m

    -- One job for each manifest, in their order.
    abbrev pub jobs_of : ℕ → Event Value → List (ComputeManifest Value) → List Job
    jobs_of i e [] = []
    jobs_of i e (m ∷ ms) =
        make_job names compute e (written_as i m) (new_job i) ∷ jobs_of (suc i) e ms

    writes :
        (i : ℕ) (m : ComputeManifest Value)
        → IsAvailable store
        → is_writable m ≡ true
        → with_payload names store compute new_payload new_job i m ≡ return (some (written_as i m))
    unfolding with_payload write_payload
    writes i m available h =
        ground (arith, available.opened m.manifest_id (new_payload i), available.taken m)

    fails :
        (i : ℕ) (m : ComputeManifest Value)
        → IsAvailable store
        → is_writable m ≡ false
        → with_payload names store compute new_payload new_job i m ≡ panic
    unfolding with_payload write_payload
    fails i m available h =
        ground (arith, available.opened m.manifest_id (new_payload i), available.taken m)

    build_jobs-all :
        (i : ℕ) (e : Event Value) (ms : List (ComputeManifest Value))
        → IsAvailable store
        → all_writable ms ≡ true
        → build_jobs names store compute new_payload new_job i e ms ≡ return (some (jobs_of i e ms))
    unfolding build_jobs
    build_jobs-all i e [] available h = refl
    build_jobs-all i e (m ∷ ms) available h = ground (
      arith,
      writes i m available (ground arith),
      build_jobs-all (suc i) e ms available (ground arith),
    )

    -- With a store that is available, a manifest that needs a payload, has none and has no map of
    -- tags makes the jobs of its event panic, wherever it stands.
    pub build_jobs-panics :
        (i : ℕ) (e : Event Value) (ms : List (ComputeManifest Value))
        → IsAvailable store
        → all_writable ms ≡ false
        → build_jobs names store compute new_payload new_job i e ms ≡ panic
    unfolding build_jobs
    build_jobs-panics i e [] available h = cc
    build_jobs-panics i e (m ∷ ms) available h = elim (Bool-cases (is_writable m)) [
      | inl fine ↦ ground (
        arith,
        writes i m available fine,
        build_jobs-panics (suc i) e ms available (ground arith),
      )
      | inr wrong ↦ ground (arith, fails i m available wrong)
    ]

    -- With a store that is available and no event processor, a sortable event that is not sorted
    -- yet, and of which each manifest that needs a payload and has none has a map of tags, is
    -- prepared: the provider is asked to submit one job for each manifest that `SortManifests`
    -- leaves, in that order.
    pub prepare_event_lem :
        (rank : Uuid → ℕ) (e : Event Value)
        → IsSortable rank e.manifests
        → e.is_sorted ≡ false
        → IsAvailable store
        → All (λ m. is_writable m ≡ true) e.manifests
        → (sorted : List (ComputeManifest Value)) × (sort_manifests e
            ≡ return (record e { manifests = sorted }, none))
          × (prepare_event names store compute new_payload new_job none e
              ≡ return (
                  some (record {
                    compute_id = compute.id;
                    jobs = jobs_of 0 (record e { manifests = sorted }) sorted;
                    submission_id_map = [];
                  })))
    unfolding prepare_event sort_first
    prepare_event_lem rank e sortable unsorted available writable =
        let (found, sorted, ok, s) = sort_manifests_lem rank e sortable in
        let all = Found-writable e.manifests found (manifest_ids found) writable ok in
        (
          found,
          sorted,
          ground (
            arith,
            sorted,
            build_jobs-all 0 (record e { manifests = found }) found available all,
          ),
        )
