-- ===== src/Docker/Runner/Outcomes.antt =====
-- Run: the status that a job is left with, and what it means for the jobs behind it.
use cloudcompute.Base.{
  ℕ, ◌≡◌, refl, String, List, [], ◌∷◌, ◌++◌, Bool, true, false, Option, none, some, arith,
}
use cloudcompute.Docker.Queue.{
  JobStatus, starting, running, failed, DockerJob, find_dep, is_unfinished,
  has_unfinished_dependencies, contains_status,
}
use cloudcompute.Docker.Runner.{
  DockerClient, RunError, pull_failed, create_failed, start_failed, config_failed, run,
}

-- The status that a run leaves, by its error and the status before it.
abbrev pub status_after : JobStatus → Option RunError → JobStatus
status_after before none = running
status_after before (some pull_failed) = before
status_after before (some create_failed) = failed
status_after before (some start_failed) = failed
status_after before (some (config_failed e)) = before

-- The errors that come before the container is created.
abbrev pub is_early : RunError → Bool
is_early pull_failed = true
is_early create_failed = false
is_early start_failed = false
is_early (config_failed e) = true

-- A run with no error leaves its job running, one whose container cannot be created or started
-- leaves it failed, and one whose image cannot be pulled, or whose resources are not numbers,
-- leaves the status as it was.
pub run_lem :
    (client : DockerClient) (spare : ℕ) (get_secret : String → String) (djob : DockerJob)
    → (let r = run client spare get_secret djob in r.status ≡ status_after djob.status r.error)
unfolding run
run_lem client spare get_secret djob = ground arith

find_dep-last :
    (djob : DockerJob) (queue : List DockerJob)
    → find_dep djob.submitted_job_id (queue ++ djob ∷ []) ≡ some djob
unfolding find_dep
find_dep-last djob [] = ground arith
find_dep-last djob (j ∷ queue) = ground (arith, find_dep-last djob queue)

-- Where the run of a starting job fails before its container is created, the job stays unfinished:
-- a job that depends on it has an unfinished dependency.
pub run-blocks :
    (client : DockerClient) (spare : ℕ) (get_secret : String → String) (djob : DockerJob)
    (queue : List DockerJob) (deps : List String) (e : RunError)
    → djob.status ≡ starting
    → (run client spare get_secret djob).error ≡ some e
    → is_early e ≡ true
    → has_unfinished_dependencies
        (djob.submitted_job_id ∷ deps)
        (queue ++ record djob { status = (run client spare get_secret djob).status } ∷ [])
      ≡ true
unfolding has_unfinished_dependencies is_unfinished contains_status
run-blocks client spare get_secret djob queue deps e s failure early =
    let r = run client spare get_secret djob in
    let djob' = record djob { status = r.status } in
    ground (
      arith,
      find_dep-last djob' queue,
      run_lem client spare get_secret djob,
      is_early-status e djob.status early,
    )
  where
    is_early-status :
        (e : RunError) (s : JobStatus) → is_early e ≡ true → status_after s (some e) ≡ s
    is_early-status pull_failed s h = refl
    is_early-status create_failed s h = cc
    is_early-status start_failed s h = cc
    is_early-status (config_failed x) s h = refl
