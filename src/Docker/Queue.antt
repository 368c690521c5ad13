-- ===== src/Docker/Queue.antt =====
-- job-queue.go: the queue of a DockerComputeManager. The map from job ids to jobs is a list in the
-- order in which `range` visits it; a job in it is the one object that its pointers share.
pub mod Update
pub mod Choice
use cloudcompute.Base.{
  ℕ, zero, suc, String, List, [], ◌∷◌, ◌++◌, Bool, true, false, not, ◌&&◌, ◌||◌, Option, none, some,
  ite, cond, String_discrete, ℕ_discrete,
}
use cloudcompute.Manifest.{Uuid}
use cloudcompute.Jobs.{Job, Plugin}

pub data JobStatus : Type 0 where
  submitted pending runnable starting running succeeded failed : JobStatus

-- `runner` is the container id of the job's runner, and `none` where there is no runner yet.
-- `submitted_job_id` is `*Job.SubmittedJob.JobId`, which `SubmitJobs` sets before it adds a job.
pub record DockerJob : Type 0 where
  pub job : Job
  pub submitted_job_id : String
  pub plugin : Plugin
  pub status : JobStatus
  pub log : String
  pub runner : Option String

abbrev pub same_status : JobStatus → JobStatus → Bool
same_status submitted submitted = true
same_status pending pending = true
same_status runnable runnable = true
same_status starting starting = true
same_status running running = true
same_status succeeded succeeded = true
same_status failed failed = true
same_status _ _ = false

unfoldable pub contains_status : List JobStatus → JobStatus → Bool
contains_status [] status = false
contains_status (v ∷ statuses) status = same_status v status || contains_status statuses status

abbrev pub unfinished_dep_status_list : List JobStatus
unfinished_dep_status_list = submitted ∷ pending ∷ runnable ∷ starting ∷ running ∷ []

-- `Add`: a job with the id of one in the queue takes its place.
unfoldable pub add : DockerJob → List DockerJob → List DockerJob
add djob [] = djob ∷ []
add djob (j ∷ queue) =
    let rest = add djob queue in ite (ℕ_discrete j.job.id djob.job.id) (djob ∷ queue) (j ∷ rest)

-- `Jobs` with no status asks for all jobs.
unfoldable pub jobs : List JobStatus → List DockerJob → List DockerJob
unfolding contains_status
jobs statuses [] = []
jobs [] (j ∷ queue) = j ∷ jobs [] queue
jobs (s ∷ statuses) (j ∷ queue) =
    let rest = jobs (s ∷ statuses) queue in
    cond (contains_status (s ∷ statuses) j.status) (j ∷ rest) rest

unfoldable pub get_job : Uuid → List DockerJob → Option DockerJob
get_job id [] = none
get_job id (j ∷ queue) = ite (ℕ_discrete j.job.id id) (some j) (get_job id queue)

-- The job that a dependency names: the last one visited with that submitted id.
unfoldable pub find_dep : String → List DockerJob → Option DockerJob
find_dep dep [] = none
find_dep dep (j ∷ queue) = elim (find_dep dep queue) [
  | some later ↦ some later
  | none ↦ ite (String_discrete j.submitted_job_id dep) (some j) none
]

unfoldable pub is_unfinished : Option DockerJob → Bool
unfolding contains_status
is_unfinished none = false
is_unfinished (some j) = contains_status unfinished_dep_status_list j.status

-- `getJobDeps` and `hasUnfinishedDependencies`
unfoldable pub has_unfinished_dependencies : List String → List DockerJob → Bool
unfolding find_dep is_unfinished
has_unfinished_dependencies [] queue = false
has_unfinished_dependencies (dep ∷ deps) queue =
    is_unfinished (find_dep dep queue) || has_unfinished_dependencies deps queue

-- The status of a job behind its turn in `UpdateJobs`, and whether it joins the jobs that can
-- start.
unfoldable pub next_status : List String → Bool → JobStatus → JobStatus × Bool
next_status [] unfinished submitted = (runnable, false)
next_status (dep ∷ deps) unfinished submitted = (pending, false)
next_status (dep ∷ deps) true pending = (pending, false)
next_status (dep ∷ deps) false pending = (runnable, true)
next_status deps unfinished status = (status, false)

-- The second loop of `UpdateJobs`, with the jobs before and from the current one.
unfoldable pub update_from : List DockerJob → List DockerJob → List DockerJob × List Uuid
unfolding has_unfinished_dependencies next_status
update_from done [] = (done, [])
update_from done (j ∷ queue) =
    let deps = j.job.depends_on in
    let unfinished = has_unfinished_dependencies deps (done ++ j ∷ queue) in
    let (status, can_start) = next_status deps unfinished j.status in
    let (queue', ids) = update_from (done ++ record j { status = status } ∷ []) queue in
    (queue', cond can_start (j.job.id ∷ ids) ids)

unfoldable pub update_jobs : List DockerJob → List DockerJob × List Uuid
unfolding update_from
update_jobs queue = update_from [] queue

-- The queue with the first runnable job set to `starting`, and that job.
unfoldable pub get_next_runnable : List DockerJob → List DockerJob × Option DockerJob
get_next_runnable [] = ([], none)
get_next_runnable (j ∷ queue) =
    let (queue', found) = get_next_runnable queue in
    cond (same_status j.status runnable)
      (record j { status = starting } ∷ queue, some (record j { status = starting }))
      (j ∷ queue', found)
