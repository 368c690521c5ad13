-- ===== src/Docker/Manager/Precedence.antt =====
-- Jobs and their dependencies in a queue, by their statuses.
use cloudcompute.Base.{
  ◌≡◌, refl, String, List, [], ◌∷◌, Bool, true, false, none, some, String_discrete, has, arith, All,
  Distinct,
}
use cloudcompute.Docker.Queue.{
  DockerJob, JobStatus, succeeded, failed, find_dep, is_unfinished, has_unfinished_dependencies,
  contains_status,
}
use cloudcompute.Docker.Manager.Steps.{submitted_ids}
use cloudcompute.Docker.Manager.Readiness.{is_cleared, IsReady, AllReady}

abbrev pub has_finished : JobStatus → Bool
has_finished succeeded = true
has_finished failed = true
has_finished _ = false

-- The job `a` waits for `b` where it is still submitted or pending, does not depend on `b`, or `b`
-- has succeeded or failed.
abbrev pub Follows : DockerJob → DockerJob → Type 0
Follows a b =
    has String_discrete b.submitted_job_id a.job.depends_on ≡ true
    → is_cleared a.status ≡ true
    → has_finished b.status ≡ true

abbrev pub IsOrdered : List DockerJob → Type 0
IsOrdered queue = All (λ a. All (Follows a) queue) queue

find_dep-absent :
    (dep : String) (queue : List DockerJob)
    → has String_discrete dep (submitted_ids queue) ≡ false
    → find_dep dep queue ≡ none
unfolding find_dep
find_dep-absent dep [] h = refl
find_dep-absent dep (j ∷ queue) h = ground (arith, find_dep-absent dep queue)

abbrev AllFound : List DockerJob → List DockerJob → Type 0
AllFound queue jobs = All (λ b. find_dep b.submitted_job_id queue ≡ some b) jobs

behind-AllFound :
    (j : DockerJob) (queue jobs : List DockerJob) → AllFound queue jobs → AllFound (j ∷ queue) jobs
unfolding find_dep
behind-AllFound j queue [] h = tt
behind-AllFound j queue (b ∷ jobs) h = (rw (h.0) refl, behind-AllFound j queue jobs h.1)

Distinct-AllFound :
    (queue : List DockerJob) → Distinct String_discrete (submitted_ids queue) → AllFound queue queue
unfolding find_dep
Distinct-AllFound [] d = tt
Distinct-AllFound (j ∷ queue) d = (
  ground (arith, find_dep-absent j.submitted_job_id queue d.0),
  behind-AllFound j queue queue (Distinct-AllFound queue d.1),
)

dependency-finished :
    (deps : List String) (b : DockerJob) (queue : List DockerJob)
    → find_dep b.submitted_job_id queue ≡ some b
    → has String_discrete b.submitted_job_id deps ≡ true
    → has_unfinished_dependencies deps queue ≡ false
    → has_finished b.status ≡ true
unfolding has_unfinished_dependencies is_unfinished contains_status
dependency-finished [] b queue f h u = cc
dependency-finished (d ∷ deps) b queue f h u = ground (arith, f, dependency-finished deps b queue f)

ready-Follows :
    (a : DockerJob) (queue jobs : List DockerJob)
    → IsReady queue a
    → AllFound queue jobs
    → All (Follows a) jobs
ready-Follows a queue [] r f = tt
ready-Follows a queue (b ∷ jobs) r f = (
  λ depends cleared.
      dependency-finished a.job.depends_on b queue f.0 depends (ground (arith, r, cleared)),
  ready-Follows a queue jobs r f.1,
)

all-Follows :
    (queue jobs : List DockerJob)
    → All (IsReady queue) jobs
    → AllFound queue queue
    → All (λ a. All (Follows a) queue) jobs
all-Follows queue [] r f = tt
all-Follows queue (a ∷ jobs) r f = (ready-Follows a queue queue r.0 f, all-Follows queue jobs r.1 f)

pub ready-IsOrdered :
    (queue : List DockerJob)
    → Distinct String_discrete (submitted_ids queue)
    → AllReady queue
    → IsOrdered queue
ready-IsOrdered queue d r = all-Follows queue queue r (Distinct-AllFound queue d)
