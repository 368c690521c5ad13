-- ===== src/Compute/Built.antt =====
-- The jobs that RunParallel builds for an event, and their order.
use cloudcompute.Base.{
  ℕ, suc, ◌<◌, ◌≡◌, refl, List, [], ◌∷◌, ◌++◌, true, false, Option, none, some, ℕ_discrete, has,
  has-append, length, All, Distinct, arith, Outcome, return, panic, >>=-eq-return, append_assoc,
  subst, sym, ◌∙◌,
}
use cloudcompute.Toposort.Positions.{index}
use cloudcompute.Manifest.{Uuid, ComputeManifest, Event, get_manifest}
use cloudcompute.Manifest.Place.{manifest_ids, Found}
use cloudcompute.Manifest.Sorting.{IsSortable, IsSortOf, sort_manifests_lem}
use cloudcompute.Jobs.{Job, SubmitJobsInput}
use cloudcompute.Docker.Provider.Linked.{IsInOrder}
use cloudcompute.Compute.{
  Names, CloudCompute, PayloadStore, make_job, write_payload, with_payload, build_jobs, sort_first,
  prepare_event, built,
}

absent-prefix :
    (xs ys : List Uuid) (a : Uuid)
    → Distinct ℕ_discrete (xs ++ a ∷ ys)
    → has ℕ_discrete a xs ≡ false
absent-prefix [] ys a d = refl
absent-prefix (x ∷ xs) ys a d =
    ground (arith, absent-prefix xs ys a d.1, d.0, has-append ℕ_discrete x xs (a ∷ ys))

index-middle :
    (xs ys : List Uuid) (a : Uuid)
    → has ℕ_discrete a xs ≡ false
    → index ℕ_discrete a (xs ++ a ∷ ys) ≡ length xs
index-middle [] ys a h = ground arith
index-middle (x ∷ xs) ys a h = ground (arith, index-middle xs ys a)

has_of_index :
    (xs ys : List Uuid) (a : Uuid)
    → index ℕ_discrete a (xs ++ ys) < length xs
    → has ℕ_discrete a xs ≡ true
has_of_index [] ys a h = absurd (omega arith)
has_of_index (x ∷ xs) ys a h = ground (arith, has_of_index xs ys a)

All-before :
    (done rest ids : List Uuid) (id : Uuid) (deps : List Uuid)
    → done ++ id ∷ rest ≡ ids
    → has ℕ_discrete id done ≡ false
    → All
        (λ d. (has ℕ_discrete d ids ≡ true) × (index ℕ_discrete d ids < index ℕ_discrete id ids))
        deps
    → All (λ d. has ℕ_discrete d done ≡ true) deps
All-before done rest ids id [] e fresh a = tt
All-before done rest ids id (d ∷ deps) e fresh a =
    let before : index ℕ_discrete d (done ++ id ∷ rest) < length done =
      ground (arith, e, a.0, index-middle done rest id fresh) in
    (has_of_index done (id ∷ rest) d before, All-before done rest ids id deps e fresh a.1)

module _ {Value : Type 0} where
  -- Each manifest depends on manifests before it, or in `done`, and no id comes twice.
  abbrev AreInOrder : List Uuid → List (ComputeManifest Value) → Type 0
  AreInOrder done [] = Unit
  AreInOrder done (m ∷ ms) =
      All (λ d. has ℕ_discrete d done ≡ true) m.dependencies
      × (has ℕ_discrete m.manifest_id done ≡ false)
      × AreInOrder (done ++ m.manifest_id ∷ []) ms

  -- The jobs of these manifests.
  abbrev Mirrors : List (ComputeManifest Value) → List Job → Type 0
  Mirrors [] jobs = jobs ≡ []
  Mirrors (m ∷ ms) [] = ⊥
  Mirrors (m ∷ ms) (j ∷ jobs) =
      (j.manifest_id ≡ m.manifest_id) × (j.manifest_dependencies ≡ m.dependencies) × Mirrors ms jobs

  pub get_manifest-All :
      (ms : List (ComputeManifest Value)) (P : ComputeManifest Value → Type 0) (id : Uuid)
      (m : ComputeManifest Value)
      → All P ms
      → get_manifest ms id ≡ (m, none)
      → P m
  unfolding get_manifest
  get_manifest-All [] P id m a h = cc
  get_manifest-All (x ∷ ms) P id m a h = elim (ℕ_discrete x.manifest_id id) [
    | yes e ↦ let same : x ≡ m = ground arith in subst P same a.0
    | no n ↦ get_manifest-All ms P id m a.1 (ground arith)
  ]

  module _ (ms : List (ComputeManifest Value)) (ids : List Uuid) (s : IsSortOf ms ids) where
    Found-AreInOrder :
        (done : List Uuid) (found : List (ComputeManifest Value))
        → done ++ manifest_ids found ≡ ids
        → Found ms (manifest_ids found) found
        → AreInOrder done found
    Found-AreInOrder done [] e f = tt
    Found-AreInOrder done (m ∷ found) e f =
        let fresh =
          absent-prefix done (manifest_ids found) m.manifest_id
            (subst (Distinct ℕ_discrete) (sym e) s.once) in
        (
          All-before done (manifest_ids found) ids m.manifest_id m.dependencies e fresh (
              get_manifest-All ms
                (λ m.
                  All
                    (λ d.
                      (has ℕ_discrete d ids ≡ true)
                      × (index ℕ_discrete d ids < index ℕ_discrete m.manifest_id ids))
                    m.dependencies)
                m.manifest_id m s.before f.0),
          fresh,
          Found-AreInOrder (done ++ m.manifest_id ∷ []) found
              (append_assoc done (m.manifest_id ∷ []) (manifest_ids found) ∙ e) f.2,
        )

  Mirrors-IsInOrder :
      (done : List Uuid) (ms : List (ComputeManifest Value)) (jobs : List Job)
      → AreInOrder done ms
      → Mirrors ms jobs
      → IsInOrder done jobs
  Mirrors-IsInOrder done [] jobs o h = rw h tt
  Mirrors-IsInOrder done (m ∷ ms) [] o h = elim h [ ]
  Mirrors-IsInOrder done (m ∷ ms) (j ∷ jobs) o h =
      rw (h.0, h.1) (o.0, o.1, Mirrors-IsInOrder (done ++ m.manifest_id ∷ []) ms jobs o.2 h.2)

  -- A step of the loop that yields jobs.
  record Built (make : ComputeManifest Value → Job) (rest : Outcome (Option (List Job)))
      (written : Option (ComputeManifest Value)) (jobs : List Job) : Type 0 where
    manifest : ComputeManifest Value
    was_written : written ≡ some manifest
    later : List Job
    went_on : rest ≡ return (some later)
    yields : jobs ≡ make manifest ∷ later

  built-Built :
      (make : ComputeManifest Value → Job) (rest : Outcome (Option (List Job)))
      (written : Option (ComputeManifest Value)) (jobs : List Job)
      → built make rest written ≡ return (some jobs)
      → Built make rest written jobs
  built-Built make rest none jobs h = absurd (ground arith)
  built-Built make panic (some m) jobs h = absurd (ground arith)
  built-Built make (return none) (some m) jobs h = absurd (ground arith)
  built-Built make (return (some later)) (some m) jobs h = record {
    manifest = m;
    was_written = refl;
    later = later;
    went_on = refl;
    yields = ground arith;
  }

  write_payload-keeps :
      (names : Names) (store : PayloadStore Value) (id : Uuid) (m m' : ComputeManifest Value)
      → write_payload names store id m ≡ return (some m')
      → (m'.manifest_id ≡ m.manifest_id) × (m'.dependencies ≡ m.dependencies)
  unfolding write_payload
  write_payload-keeps names store id m m' h = ground arith

  module _ (names : Names) (store : PayloadStore Value) (compute : CloudCompute)
      (new_payload new_job : ℕ → Uuid) where
    with_payload-keeps :
        (i : ℕ) (m m' : ComputeManifest Value)
        → with_payload names store compute new_payload new_job i m ≡ return (some m')
        → (m'.manifest_id ≡ m.manifest_id) × (m'.dependencies ≡ m.dependencies)
    unfolding with_payload
    with_payload-keeps i m m' h =
        ground (arith, write_payload-keeps names store (new_payload i) m m')

    build_jobs-Mirrors :
        (i : ℕ) (e : Event Value) (ms : List (ComputeManifest Value)) (jobs : List Job)
        → build_jobs names store compute new_payload new_job i e ms ≡ return (some jobs)
        → Mirrors ms jobs
    unfolding build_jobs make_job
    build_jobs-Mirrors i e [] jobs h = ground arith
    build_jobs-Mirrors i e (m ∷ ms) jobs h =
        let (written, made, after) =
          >>=-eq-return (with_payload names store compute new_payload new_job i m)
            (built (λ m'. make_job names compute e m' (new_job i))
              (build_jobs names store compute new_payload new_job (suc i) e ms))
            h in
        let b =
          built-Built (λ m'. make_job names compute e m' (new_job i))
            (build_jobs names store compute new_payload new_job (suc i) e ms) written jobs after in
        let keeps = with_payload-keeps i m b.manifest (ground (arith, made, b.was_written)) in
        rw b.yields (keeps.0, keeps.1, build_jobs-Mirrors (suc i) e ms b.later b.went_on)

    -- Whatever the stores and the uuids: where a sortable event that is not sorted yet is prepared
    -- without an event processor, the jobs that the provider is asked to submit stand in an order
    -- in which each comes behind the jobs on whose manifests it depends, and no manifest has two.
    pub prepare_event-IsInOrder :
        (rank : Uuid → ℕ) (e : Event Value) (input : SubmitJobsInput)
        → IsSortable rank e.manifests
        → e.is_sorted ≡ false
        → prepare_event names store compute new_payload new_job none e ≡ return (some input)
        → IsInOrder [] input.jobs
    unfolding prepare_event sort_first
    prepare_event-IsInOrder rank e input sortable unsorted h =
        let (found, sorted, ok, s) = sort_manifests_lem rank e sortable in
        let built_jobs : build_jobs names store compute new_payload new_job 0
              (record e { manifests = found }) found
            ≡ return (some input.jobs) =
          ground (arith, sorted) in
        Mirrors-IsInOrder [] found input.jobs
          (Found-AreInOrder e.manifests (manifest_ids found) s [] found refl ok)
          (build_jobs-Mirrors 0 (record e { manifests = found }) found input.jobs built_jobs)
