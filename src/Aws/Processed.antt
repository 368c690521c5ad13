-- ===== src/Aws/Processed.antt =====
-- An event from its generator to the job store, by way of AWS Batch.
use cloudcompute.Base.{
  ℕ, suc, ℕ_discrete, ◌∙◌, ◌≡◌, refl, String, List, [], ◌∷◌, Bool, true, false, Option, none, some,
  cond, All, arith, map, return, ◌>>=◌, >>=-eq-return,
}
use cloudcompute.Base.Maps.{insert}
use cloudcompute.Manifest.{Uuid, ComputeManifest, Event, sort_manifests}
use cloudcompute.Manifest.Place.{manifest_ids}
use cloudcompute.Manifest.Sorting.{IsSortable}
use cloudcompute.Jobs.{Job, SubmissionIdMap, SubmitJobsInput, map_dependencies}
use cloudcompute.Compute.{
  Names, CloudCompute, PayloadStore, make_job, sort_first, build_jobs, prepare_event, input_for,
}
use cloudcompute.Compute.Built.{prepare_event-IsInOrder}
use cloudcompute.Compute.Payloads.{IsAvailable, is_writable, jobs_of, written_as, prepare_event_lem}
use cloudcompute.Compute.Submission.{
  SubmitJobs, SavedJob, row, save_jobs, stored, submit_prepared, process_event,
}
use cloudcompute.Aws.{BatchJob, Submitted, batch_job_of, submit_from, submit_jobs}
use cloudcompute.Aws.Linked.{IsAsked, ids_of, manifests, submit_jobs-linked}

-- What `SubmitJobs` returns, and the jobs behind it.
abbrev pub result_of : Submitted → Option (List Job × String)
result_of s = cond s.is_failed none (some (s.jobs, s.workflow_name))

accepts-all :
    (uuid_string : Uuid → String) (accept : BatchJob → String × String) (jobs : List Job)
    (name : String) (ids : SubmissionIdMap)
    → (submit_from uuid_string (λ b. some (accept b)) name ids jobs).is_failed ≡ false
unfolding submit_from
accepts-all uuid_string accept [] name ids = refl
accepts-all uuid_string accept (job ∷ jobs) name ids =
    let job' = record job { depends_on = map_dependencies ids job.manifest_dependencies } in
    accepts-all uuid_string accept jobs (uuid_string job.event_id)
      (insert ℕ_discrete job.manifest_id (accept (batch_job_of job')).0 ids)

submits-all :
    (uuid_string : Uuid → String) (accept : BatchJob → String × String) (input : SubmitJobsInput)
    → (submit_jobs uuid_string (λ b. some (accept b)) input).is_failed ≡ false
unfolding submit_jobs
submits-all uuid_string accept input =
    accepts-all uuid_string accept input.jobs "" input.submission_id_map

saves-all :
    (save : SavedJob → Bool) (row_of : Job → SavedJob) (jobs : List Job)
    → ((r : SavedJob) → save r ≡ true)
    → save_jobs save row_of jobs ≡ (map row_of jobs, true)
unfolding save_jobs
saves-all save row_of [] h = refl
saves-all save row_of (job ∷ jobs) h = rw (h (row_of job), saves-all save row_of jobs h) refl

module _ {Value : Type 0} (names : Names) (payloads : PayloadStore Value) (compute : CloudCompute)
    (new_payload new_job : ℕ → Uuid) where
  sorted_first :
      (e e' : Event Value)
      → e.is_sorted ≡ false
      → sort_manifests e ≡ return (e', none)
      → sort_first names payloads compute new_payload new_job e ≡ return e'
  unfolding sort_first
  sorted_first e e' unsorted sorted = ground (arith, unsorted, sorted)

  process_event_step :
      (submit : SubmitJobs) (store : Option (SavedJob → Bool)) (e : Event Value)
      → process_event names payloads compute new_payload new_job submit store none e ≡ (
          sort_first names payloads compute new_payload new_job e >>= λ s.
          build_jobs names payloads compute new_payload new_job 0 s s.manifests >>= λ jobs.
          submit_prepared names payloads compute new_payload new_job submit store s.event_identifier
            (input_for names payloads compute new_payload new_job jobs))
  unfolding process_event
  process_event_step submit store e = refl

  prepare_event_step :
      (e : Event Value)
      → prepare_event names payloads compute new_payload new_job none e ≡ (
          sort_first names payloads compute new_payload new_job e >>= λ s.
          build_jobs names payloads compute new_payload new_job 0 s s.manifests >>= λ jobs.
          return (input_for names payloads compute new_payload new_job jobs))
  unfolding prepare_event
  prepare_event_step e = refl

  make_job-manifest_id :
      (e : Event Value) (m : ComputeManifest Value) (id : Uuid)
      → (make_job names compute e m id).manifest_id ≡ m.manifest_id
  unfolding make_job
  make_job-manifest_id e m id = refl

  manifests-jobs_of :
      (i : ℕ) (e : Event Value) (ms : List (ComputeManifest Value))
      → manifests (jobs_of names payloads compute new_payload new_job i e ms) ≡ manifest_ids ms
  manifests-jobs_of i e [] = refl
  manifests-jobs_of i e (m ∷ ms) = ground (
    arith,
    make_job-manifest_id e (written_as names payloads compute new_payload new_job i m) (new_job i),
    manifests-jobs_of (suc i) e ms,
  )

  -- An event that is prepared is submitted.
  process_event-prepared :
      (submit : SubmitJobs) (store : Option (SavedJob → Bool)) (e e' : Event Value)
      (input : SubmitJobsInput)
      → sort_first names payloads compute new_payload new_job e ≡ return e'
      → prepare_event names payloads compute new_payload new_job none e ≡ return (some input)
      → process_event names payloads compute new_payload new_job submit store none e
        ≡ submit_prepared names payloads compute new_payload new_job submit store
            e'.event_identifier
            (some input)
  process_event-prepared submit store e e' input sorted prepared =
      let go : (build_jobs names payloads compute new_payload new_job 0 e' e'.manifests >>= λ jobs.
      return (input_for names payloads compute new_payload new_job jobs))
          ≡ return (some input) =
        rw (prepare_event_step e, sorted) at prepared in
      let (jobs, built, made) =
        >>=-eq-return (build_jobs names payloads compute new_payload new_job 0 e' e'.manifests)
          (λ jobs. return (input_for names payloads compute new_payload new_job jobs)) go in
      let same : input_for names payloads compute new_payload new_job jobs ≡ some input =
        ground (arith, made) in
      rw (process_event_step submit store e, sorted, built, same) refl

  -- With stores that are available, no event processor and Batch accepting every job, a sortable
  -- event that is not sorted yet, and of which each manifest that needs a payload and has none has
  -- a map of tags, gives one job for each of its manifests that `SortManifests` leaves, in that
  -- order, each waiting for exactly the ids that Batch gave to the jobs of its dependencies. Batch
  -- was asked for a job that waits for these ids, and its answer is kept with the job; and the job
  -- store has a row for each.
  pub process_event-stored :
      (rank : Uuid → ℕ) (e : Event Value) (accept : BatchJob → String × String)
      (save : SavedJob → Bool)
      → IsSortable rank e.manifests
      → e.is_sorted ≡ false
      → IsAvailable payloads
      → All (λ m. is_writable m ≡ true) e.manifests
      → ((r : SavedJob) → save r ≡ true)
      → (found : List (ComputeManifest Value)) × (sort_manifests e
          ≡ return (record e { manifests = found }, none))
        × (jobs : List Job) × (name : String) × (process_event names payloads compute new_payload
              new_job
              (λ input.
                return (result_of (submit_jobs names.uuid_string (λ b. some (accept b)) input)))
              (some save)
              none
              e
            ≡ return (stored jobs (map (row compute.id e.event_identifier name) jobs) true))
        × (manifests jobs ≡ manifest_ids found)
        × All (λ j. j.depends_on ≡ ids_of j.manifest_dependencies jobs) jobs
        × All (IsAsked names.uuid_string (λ b. some (accept b))) jobs
  process_event-stored rank e accept save sortable unsorted available writable saves =
      let (found, sorted, prepared) =
        prepare_event_lem names payloads compute new_payload new_job rank e sortable unsorted
          available writable in
      let e' : Event Value = record e { manifests = found } in
      let input : SubmitJobsInput = record {
        compute_id = compute.id;
        jobs = jobs_of names payloads compute new_payload new_job 0 e' found;
        submission_id_map = [];
      } in
      let order =
        prepare_event-IsInOrder names payloads compute new_payload new_job rank e input sortable
          unsorted prepared in
      let s = submit_jobs names.uuid_string (λ b. some (accept b)) input in
      let (linked, asked, all) =
        submit_jobs-linked names.uuid_string (λ b. some (accept b)) input order in
      let accepted = submits-all names.uuid_string accept input in
      let submitted =
        process_event-prepared
          (λ input. return (result_of (submit_jobs names.uuid_string (λ b. some (accept b)) input)))
          (some save) e e' input (sorted_first e e' unsorted sorted) prepared in
      let saved = saves-all save (row compute.id e.event_identifier s.workflow_name) s.jobs saves in
      let is : result_of s ≡ some (s.jobs, s.workflow_name) = rw accepted refl in
      (
        found,
        sorted,
        s.jobs,
        s.workflow_name,
        submitted ∙ rw (is, saved) refl,
        all accepted ∙ manifests-jobs_of 0 e' found,
        linked,
        asked,
      )
