-- ===== src/Samples/Batch.antt =====
-- Two pages of jobs, ended.
use cloudcompute.Base.{ite, ◌≡◌, refl, String, List, [], ◌∷◌, none, some, String_discrete, arith}
use cloudcompute.Jobs.{Job, JobSummary}
use cloudcompute.Manifest.{ComputeManifest, sort_manifests}
use cloudcompute.Manifest.Place.{manifest_ids}
use cloudcompute.Compute.Submission.{row, stored, process_event}
use cloudcompute.Aws.Processed.{result_of, process_event-stored}
use cloudcompute.Base.{ℕ, map, return}
use cloudcompute.Base.{true, false, Option, All, ℕ_discrete}
use cloudcompute.Aws.Linked.{IsAsked, ids_of, manifests, submit_jobs-linked}
use cloudcompute.Samples.Providers.{input}
use cloudcompute.Samples.Manifests.{three, three-IsSortable}
use cloudcompute.Samples.Computes.{compute, names, store, store-IsAvailable, new_payload, new_job}
use cloudcompute.Aws.{BatchJob, submit_jobs}
use cloudcompute.Aws.{ListJobs, done, terminate, cancel, terminate_jobs}
use cloudcompute.Aws.Pages.{call_ids, terminated_ids, cancelled_ids, terminate_jobs-ended}

abbrev summary : String → String → JobSummary
summary id status = record {
  job_id = id;
  job_name = id;
  created_at = none;
  started_at = none;
  status = status;
  status_detail = none;
  stopped_at = none;
  resource_name = "";
}

abbrev pages : List (List JobSummary)
pages = (summary "a" "RUNNING" ∷ summary "b" "PENDING" ∷ []) ∷ (summary "c" "SUBMITTED" ∷ []) ∷ []

abbrev list : ListJobs
list none = some (record {
  summaries = summary "a" "RUNNING" ∷ summary "b" "PENDING" ∷ [];
  next_token = some "t";
})
list (some token) = some (record { summaries = summary "c" "SUBMITTED" ∷ []; next_token = none })

two_pages : terminate_jobs 2 list none ≡ (terminate "a" ∷ cancel "c" ∷ [], done)
unfolding terminate_jobs String_discrete
two_pages = refl

terminate_jobs-ended_example :
    (let (calls, end) = terminate_jobs 2 list none in
      ((call_ids calls ≡ "a" ∷ "c" ∷ [])
        × (terminated_ids calls ≡ "a" ∷ [])
        × (cancelled_ids calls ≡ "c" ∷ []))
      × (end ≡ done))
unfolding String_discrete
terminate_jobs-ended_example = terminate_jobs-ended 2 list pages ("t", refl, refl) (omega arith)

-- One status has the pages above, and the others have no jobs.
abbrev by_status : String → ListJobs
by_status status token =
    ite (String_discrete status "PENDING") (list token)
      (some (record { summaries = []; next_token = none }))

abbrev each_pages : List (List (List JobSummary))
each_pages = ([] ∷ []) ∷ pages ∷ ([] ∷ []) ∷ ([] ∷ []) ∷ ([] ∷ []) ∷ []

-- Batch gives each job its name as an id.
abbrev submits : BatchJob → Option (String × String)
submits job = some (job.job_name, "arn")

submit_jobs-linked_example :
    (let s = submit_jobs (λ u. "u") submits input in
      All (λ j. j.depends_on ≡ ids_of j.manifest_dependencies s.jobs) s.jobs
      × All (IsAsked (λ u. "u") submits) s.jobs
      × (s.is_failed ≡ false → manifests s.jobs ≡ 1 ∷ 2 ∷ []))
unfolding ℕ_discrete
submit_jobs-linked_example =
    submit_jobs-linked (λ u. "u") submits input (tt, refl, ((refl, tt), refl, tt))

-- Batch gives each job an id from its name.
abbrev accept : BatchJob → String × String
accept job = (job.job_name, "arn")

process_event-stored_example :
    (found : List (ComputeManifest ℕ)) × (sort_manifests three
      ≡ return (record three { manifests = found }, none))
    × (jobs : List Job) × (name : String) × (process_event names store compute new_payload new_job
          (λ input. return (result_of (submit_jobs names.uuid_string (λ b. some (accept b)) input)))
          (some (λ r. true))
          none
          three
        ≡ return (stored jobs (map (row 50 "" name) jobs) true))
    × (manifests jobs ≡ manifest_ids found)
    × All (λ j. j.depends_on ≡ ids_of j.manifest_dependencies jobs) jobs
    × All (IsAsked names.uuid_string (λ b. some (accept b))) jobs
process_event-stored_example =
    process_event-stored names store compute new_payload new_job (λ v. v) three accept (λ r. true)
      three-IsSortable refl store-IsAvailable (refl, (refl, (refl, tt))) (λ r. refl)
