-- ===== src/Docker/Manager/Termination.antt =====
-- TerminateJobs over the whole queue.
use cloudcompute.Base.{
  ◌≡◌, refl, String, List, [], ◌∷◌, Bool, true, false, not, ◌&&◌, ◌||◌, Option, none, some, cond,
  arith, return, panic,
}
use cloudcompute.Docker.Queue.{DockerJob, failed}
use cloudcompute.Docker.Manager.{terminate_jobs}

abbrev pub has_runner : Option String → Bool
has_runner none = false
has_runner (some container) = true

module _ (matches : DockerJob → Bool) where
  -- Every job that matches has a runner.
  abbrev pub all_started : List DockerJob → Bool
  all_started [] = true
  all_started (j ∷ queue) = (not (matches j) || has_runner j.runner) && all_started queue

  -- The jobs that match have failed, and the others are as they were.
  abbrev pub failed_where : List DockerJob → List DockerJob
  failed_where [] = []
  failed_where (j ∷ queue) = cond (matches j) (record j { status = failed }) j ∷ failed_where queue

  -- Where every job whose name holds the compute's id has a runner, `TerminateJobs` leaves these
  -- failed and the others as they were; where one has none, it panics.
  pub terminate_jobs_lem :
      (queue : List DockerJob)
      → terminate_jobs matches queue ≡ cond (all_started queue) (return (failed_where queue)) panic
  unfolding terminate_jobs
  terminate_jobs_lem [] = refl
  terminate_jobs_lem (j ∷ queue) = ground (arith, terminate_jobs_lem queue)
