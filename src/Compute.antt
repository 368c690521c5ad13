-- ===== src/Compute.antt =====
-- cloudcompute.go: what `RunParallel` does with one event, from sorting its manifests to saving its
-- jobs. The SDK's store, its names of environment variables, the event processor, the provider and
-- the job store are parameters, and so are the uuids that `uuid.New` draws, by the position of the
-- manifest. A slice and its copies are values: the room behind a manifest's environment is left
-- out.
pub mod Environment
pub mod Built
pub mod Payloads
pub mod Named
pub mod Concurrency
pub mod Submission
use cloudcompute.Base.{
  ℕ, zero, suc, ◌==◌, ltb, String, List, [], ◌∷◌, ◌++◌, Bool, true, false, not, ◌||◌, Option, none,
  some, cond, String_discrete, length, Outcome, return, panic, ◌>>=◌,
}
use cloudcompute.Base.Maps.{Map, insert}
use cloudcompute.Base.Text.{join}
use cloudcompute.Toposort.{SortError}
use cloudcompute.Manifest.{
  Uuid, nil_uuid, KeyValuePair, KeyValuePairs, PayloadAttributes, ComputeManifest, Event,
  sort_manifests,
}
use cloudcompute.KeyValues.{has_key, merge}
use cloudcompute.Jobs.{Job, SubmitJobsInput}

-- Names of environment variables of the SDK, its profile in lower case, and the text of a uuid.
pub record Names : Type 0 where
  pub payload_id : String
  pub manifest_id : String
  pub event_identifier : String
  pub event_number : String
  pub plugin_definition : String
  pub profile : String
  pub uuid_string : Uuid → String

pub record CloudCompute : Type 0 where
  pub id : Uuid
  pub job_queue : String

-- The store of the SDK: whether it opens for a manifest and a payload, and takes the payload.
pub record PayloadStore (Value : Type 0) : Type 0 where
  pub opens : Uuid → Uuid → Bool
  pub takes : ComputeManifest Value → Bool

abbrev pub some_entries : {A : Type 0} → List A → Bool
some_entries [] = false
some_entries (x ∷ xs) = true

abbrev pub some_attributes : {Value : Type 0} → Option (PayloadAttributes Value) → Bool
some_attributes none = false
some_attributes (some attributes) = some_entries attributes

abbrev pub tags_or_new : Option (Map String String) → Map String String
tags_or_new none = []
tags_or_new (some tags) = tags

abbrev pub add_unless : KeyValuePairs → String → KeyValuePairs → KeyValuePairs
add_unless env key more = cond (has_key env key) env (env ++ more)

abbrev pair : String → String → KeyValuePair
pair name value = record { name = name; value = value }

abbrev pub cons_job : Job → Option (List Job) → Option (List Job)
cons_job job none = none
cons_job job (some jobs) = some (job ∷ jobs)

module _ {Value : Type 0} where
  -- A tag is written into a map that may be nil.
  abbrev pub tag_payload :
      String
      → Uuid
      → ComputeManifest Value
      → Option (Map String String)
      → Outcome (Option (ComputeManifest Value))
  tag_payload text id m none = panic
  tag_payload text id m (some tags) = return (
      some (record m { tags = some (insert String_discrete "payload" text tags); payload_id = id }))

  -- `WritePayload`, where the payload gets the id `id`: the manifest afterwards, `none` for an
  -- error.
  unfoldable pub write_payload :
      Names
      → PayloadStore Value
      → Uuid
      → ComputeManifest Value
      → Outcome (Option (ComputeManifest Value))
  write_payload names store id m =
      cond (m.payload_id == nil_uuid)
        (cond (store.opens m.manifest_id id)
          (cond (store.takes m) (tag_payload (names.uuid_string id) id m m.tags) (return none))
          (return none))
        (return (some m))

  abbrev pub needs_payload : ComputeManifest Value → Bool
  needs_payload m =
      some_attributes m.inputs.payload_attributes
      || some_entries m.inputs.data_sources
      || some_entries m.actions

  -- The environment of the job of a manifest.
  unfoldable pub job_environment : Names → Event Value → ComputeManifest Value → KeyValuePairs
  job_environment names e m =
      let manifest_id = names.uuid_string m.manifest_id in
      let env =
        m.inputs.environment
        ++ pair names.payload_id (names.uuid_string m.payload_id)
          ∷ pair names.manifest_id manifest_id
          ∷ [] in
      let env = add_unless env names.event_identifier (
        pair names.event_identifier e.event_identifier
        ∷ pair names.event_number e.event_identifier
        ∷ []) in
      let env = add_unless env names.manifest_id (pair names.manifest_id manifest_id ∷ []) in
      merge (env ++ pair names.plugin_definition m.plugin_definition ∷ [])
        e.additional_event_env_vars

  unfoldable pub job_tags :
      Names → CloudCompute → Event Value → ComputeManifest Value → Uuid → Map String String
  job_tags names compute e m job_id = insert String_discrete "job" (names.uuid_string job_id) (
      insert String_discrete "manifest" (names.uuid_string m.manifest_id) (
        insert String_discrete "event" (names.uuid_string e.id)
          (insert String_discrete "compute" (names.uuid_string compute.id) (tags_or_new m.tags))))

  unfoldable pub job_name_of : Names → CloudCompute → Event Value → Uuid → String
  job_name_of names compute e job_id = join names.profile (
      join "_c_" (
        join (names.uuid_string compute.id)
          (join "_e_" (join (names.uuid_string e.id) (join "_j_" (names.uuid_string job_id))))))

  unfoldable pub make_job : Names → CloudCompute → Event Value → ComputeManifest Value → Uuid → Job
  unfolding job_environment job_tags job_name_of
  make_job names compute e m job_id = record {
    id = job_id;
    event_id = e.id;
    per_event_loop_num = e.per_event_loop_num;
    manifest_id = m.manifest_id;
    payload_id = m.payload_id;
    job_name = job_name_of names compute e job_id;
    job_queue = compute.job_queue;
    job_definition = m.plugin_definition;
    container_overrides = record {
      command = m.command;
      environment = job_environment names e m;
      resource_requirements = m.resource_requirements;
    };
    depends_on = [];
    manifest_dependencies = m.dependencies;
    parameters = m.inputs.parameters;
    tags = job_tags names compute e m job_id;
    retry_attempts = m.retry_attempts;
    job_timeout = m.job_timeout;
    submitted_job = none;
  }

  -- The jobs of a manifest, once its payload is written, and of those behind it.
  abbrev pub built :
      (ComputeManifest Value → Job)
      → Outcome (Option (List Job))
      → Option (ComputeManifest Value)
      → Outcome (Option (List Job))
  built make rest none = return none
  built make rest (some m) = rest >>= λ jobs. return (cons_job (make m) jobs)

  module _ (names : Names) (store : PayloadStore Value) (compute : CloudCompute)
      (new_payload new_job : ℕ → Uuid) where
    -- The payload of the manifest at position `i`, where it needs one.
    unfoldable pub with_payload :
        ℕ → ComputeManifest Value → Outcome (Option (ComputeManifest Value))
    unfolding write_payload
    with_payload i m =
        cond (needs_payload m) (write_payload names store (new_payload i) m) (return (some m))

    -- The loop over the manifests from position `i`; `none` where a payload could not be written,
    -- and the event is given up.
    unfoldable pub build_jobs :
        ℕ → Event Value → List (ComputeManifest Value) → Outcome (Option (List Job))
    unfolding with_payload make_job
    build_jobs i e [] = return (some [])
    build_jobs i e (m ∷ ms) =
        let rest = build_jobs (suc i) e ms in
        with_payload i m >>= built (λ m'. make_job names compute e m' (new_job i)) rest

    -- The event as it is after sorting, whether that failed or not.
    unfoldable pub sort_first : Event Value → Outcome (Event Value)
    unfolding sort_manifests
    sort_first e = cond e.is_sorted (return e) (sort_manifests e >>= λ (sorted, err). return sorted)

    abbrev pub processed :
        Option (Event Value → Option (Event Value)) → Event Value → Option (Event Value)
    processed none e = some e
    processed (some process) e = process e

    abbrev pub input_for : Option (List Job) → Option SubmitJobsInput
    input_for none = none
    input_for (some jobs) =
        some (record { compute_id = compute.id; jobs = jobs; submission_id_map = [] })

    -- The part of the body up to `SubmitJobs`: what the provider is asked to submit, and `none`
    -- where the event is given up before.
    unfoldable pub prepare_event :
        Option (Event Value → Option (Event Value)) → Event Value → Outcome (Option SubmitJobsInput)
    unfolding sort_first build_jobs
    prepare_event processor e = sort_first e >>= λ sorted. elim (processed processor sorted) [
      | none ↦ return none
      | some e' ↦ build_jobs 0 e' e'.manifests >>= λ jobs. return (input_for jobs)
    ]
