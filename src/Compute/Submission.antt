-- ===== src/Compute/Submission.antt =====
-- cloudcompute.go: the end of `RunParallel`'s body, behind `SubmitJobs`, and the other calls of a
-- compute. The provider and the job store are parameters.
pub mod Saved
use cloudcompute.Base.{
  ℕ, zero, suc, String, List, [], ◌∷◌, Bool, true, false, Option, none, some, cond, Outcome, return,
  panic, ◌>>=◌,
}
use cloudcompute.Base.Int.{ℤ, pos, negsuc, lt_ℤ}
use cloudcompute.Manifest.{Uuid, ComputeManifest, Event}
use cloudcompute.Jobs.{Job, SubmitJobsInput, JobNameParts, JobsSummaryQuery, TerminateJobInput}
use cloudcompute.Compute.{
  Names, CloudCompute, PayloadStore, sort_first, build_jobs, processed, input_for,
}
use cloudcompute.Compute.Concurrency.{ConcurrentRunner, new_concurrent_runner}

-- What a provider makes of the jobs, and the name of the event; `none` for an error.
abbrev pub SubmitJobs : Type 0
SubmitJobs = SubmitJobsInput → Outcome (Option (List Job × String))

-- A row of the job store.
pub record SavedJob : Type 0 where
  pub compute_id : Uuid
  pub payload_id : Uuid
  pub event : String
  pub compute_event_name : String
  pub job : Job

abbrev pub row : Uuid → String → String → Job → SavedJob
row compute_id event name job = record {
  compute_id = compute_id;
  payload_id = job.payload_id;
  event = event;
  compute_event_name = name;
  job = job;
}

-- The loop over the jobs of `SaveJob`: the rows that the store has taken, up to the first that it
-- refuses, and whether it took all.
unfoldable pub save_jobs : (SavedJob → Bool) → (Job → SavedJob) → List Job → List SavedJob × Bool
save_jobs save row_of [] = ([], true)
save_jobs save row_of (job ∷ jobs) =
    let (rows, all) = save_jobs save row_of jobs in
    cond (save (row_of job)) (row_of job ∷ rows, all) ([], false)

-- How far an event came.
pub data Progress : Type 0 where
  given_up refused : Progress
  submitted : List Job → Progress
  stored : List Job → List SavedJob → Bool → Progress

abbrev pub store_jobs : Option (SavedJob → Bool) → (Job → SavedJob) → List Job → Progress
store_jobs none row_of jobs = submitted jobs
store_jobs (some save) row_of jobs =
    let (rows, all) = save_jobs save row_of jobs in stored jobs rows all

abbrev pub behind_submit :
    Option (SavedJob → Bool) → Uuid → String → Option (List Job × String) → Progress
behind_submit store compute_id event none = refused
behind_submit store compute_id event (some (jobs, name)) =
    store_jobs store (row compute_id event name) jobs

module _ {Value : Type 0} (names : Names) (payloads : PayloadStore Value) (compute : CloudCompute)
    (new_payload new_job : ℕ → Uuid) (submit : SubmitJobs) (store : Option (SavedJob → Bool)) where
  abbrev pub submit_prepared : String → Option SubmitJobsInput → Outcome Progress
  submit_prepared event none = return given_up
  submit_prepared event (some input) =
      submit input >>= λ result. return (behind_submit store compute.id event result)

  -- The function that `RunParallel` runs for an event.
  unfoldable pub process_event :
      Option (Event Value → Option (Event Value)) → Event Value → Outcome Progress
  unfolding sort_first build_jobs save_jobs
  process_event processor e = sort_first names payloads compute new_payload new_job e >>= λ sorted.
      elim (processed names payloads compute new_payload new_job processor sorted) [
        | none ↦ return given_up
        | some e' ↦
            build_jobs names payloads compute new_payload new_job 0 e' e'.manifests >>= λ jobs.
            submit_prepared e'.event_identifier
              (input_for names payloads compute new_payload new_job jobs)
      ]

-- `RunParallel`, where its event loop will draw `events`: `none` is the error on the concurrency.
unfoldable pub run_parallel : {E : Type 0} → ℤ → List E → Option (ConcurrentRunner E)
unfolding new_concurrent_runner
run_parallel (pos zero) events = none
run_parallel (pos (suc n)) events = some (new_concurrent_runner (suc n) events)
run_parallel (negsuc n) events = none

unfoldable pub run : {E : Type 0} → List E → Option (ConcurrentRunner E)
unfolding run_parallel
run events = run_parallel (pos 1) events

-- `Cancel`: what the provider is asked to terminate.
unfoldable pub cancel : Names → CloudCompute → String → TerminateJobInput
cancel names compute reason = record {
  reason = reason;
  job_queue = compute.job_queue;
  query = record {
    query_level = "COMPUTE";
    query_value = record { compute = names.uuid_string compute.id; event = ""; job = "" };
  };
  vendor_jobs = none;
}
