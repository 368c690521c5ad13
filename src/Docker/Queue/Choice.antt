-- ===== src/Docker/Queue/Choice.antt =====
-- GetNextRunnable, and the counts of jobs that an event has to wake.
use cloudcompute.Base.{
  ℕ, suc, ◌+◌, ◌≡◌, refl, String, List, [], ◌∷◌, Bool, true, false, ◌&&◌, Option, none, some, arith,
  length,
}
use cloudcompute.Docker.Queue.{
  JobStatus, submitted, pending, runnable, starting, DockerJob, same_status, contains_status,
  next_status, get_next_runnable, has_unfinished_dependencies,
}
use cloudcompute.Docker.Queue.Update.{flags, refreshed, startable}

abbrev pub tally : Bool → ℕ → ℕ
tally true n = suc n
tally false n = n

abbrev pub no_deps : List String → Bool
no_deps [] = true
no_deps (d ∷ ds) = false

-- The jobs that are runnable.
abbrev pub runnables : List DockerJob → ℕ
runnables [] = 0
runnables (j ∷ queue) = tally (same_status j.status runnable) (runnables queue)

-- The submitted jobs that wait for nothing.
abbrev pub unblocked : List DockerJob → ℕ
unblocked [] = 0
unblocked (j ∷ queue) =
    tally (same_status j.status submitted && no_deps j.job.depends_on) (unblocked queue)

turn_counts :
    (deps : List String) (b : Bool) (s : JobStatus)
    → (tally (same_status (next_status deps b s).0 runnable) 0
        ≡ tally (same_status s runnable) 0
          + tally (same_status s submitted && no_deps deps) 0
          + tally (next_status deps b s).1 0)
      × ((same_status (next_status deps b s).0 submitted && no_deps deps) ≡ false)
unfolding next_status
turn_counts [] b submitted = (refl, refl)
turn_counts (d ∷ deps) b submitted = (refl, refl)
turn_counts [] b pending = (refl, refl)
turn_counts (d ∷ deps) true pending = (refl, refl)
turn_counts (d ∷ deps) false pending = (refl, refl)
turn_counts deps b s = ground arith

-- `UpdateJobs` makes the jobs that wait for nothing runnable, and those that can start.
pub refreshed_counts :
    (full queue : List DockerJob)
    → (runnables (refreshed full queue)
        ≡ runnables queue + unblocked queue + length (startable full queue))
      × (unblocked (refreshed full queue) ≡ 0)
refreshed_counts full [] = ground arith
refreshed_counts full (j ∷ queue) = ground (
  arith,
  refreshed_counts full queue,
  turn_counts j.job.depends_on (has_unfinished_dependencies j.job.depends_on full) j.status,
)

-- The queue behind `GetNextRunnable`: a runnable job is now starting, or none was runnable.
abbrev pub Chosen : List DockerJob → List DockerJob → Option DockerJob → Type 0
Chosen queue queue' none = (runnables queue ≡ 0) × (queue' ≡ queue)
Chosen queue queue' (some j) = (runnables queue ≡ suc (runnables queue')) × (j.status ≡ starting)

pub next-unblocked :
    (queue : List DockerJob) → unblocked (get_next_runnable queue).0 ≡ unblocked queue
unfolding get_next_runnable
next-unblocked [] = refl
next-unblocked (j ∷ queue) = ground (arith, next-unblocked queue)

pub next-flags : (queue : List DockerJob) → flags (get_next_runnable queue).0 ≡ flags queue
unfolding get_next_runnable contains_status
next-flags [] = refl
next-flags (j ∷ queue) = ground (arith, next-flags queue)

pub next-Chosen :
    (queue : List DockerJob) → Chosen queue (get_next_runnable queue).0 (get_next_runnable queue).1
unfolding get_next_runnable
next-Chosen [] = (refl, refl)
next-Chosen (j ∷ queue) = ground (arith, next-Chosen queue)
