-- ===== src/Docker/Manager/Steps.antt =====
-- The interleavings of the runner loop, the jobs' goroutines and the callers of AddJob.
use cloudcompute.Base.{
  ite, not, ◌&&◌, ℕ, zero, suc, String, ◌<◌, ◌≡◌, List, [], ◌∷◌, ◌++◌, Bool, true, false, Option,
  none, some, ℕ_discrete, has, All, length,
}
use cloudcompute.Manifest.{Uuid}
use cloudcompute.Docker.Queue.{
  JobStatus, submitted, pending, runnable, running, succeeded, failed, DockerJob, get_job,
  contains_status, unfinished_dep_status_list,
}
use cloudcompute.Docker.Manager.{Manager, add_job, receive, launch, report, finish}
use cloudcompute.Base.{String_discrete}

-- What a runner or monitor reports.
abbrev pub reported : JobStatus → Bool
reported running = true
reported succeeded = true
reported failed = true
reported _ = false

-- The jobs that the loop holds or that are active.
abbrev pub held_ids : Option (Uuid × ℕ) → List Uuid
held_ids none = []
held_ids (some (id, k)) = id ∷ []

abbrev pub under_way : Manager → List Uuid
under_way m = held_ids m.held ++ m.active

abbrev pub submitted_ids : List DockerJob → List String
submitted_ids [] = []
submitted_ids (j ∷ queue) = j.submitted_job_id ∷ submitted_ids queue

-- A job is new where no job has its id or its submitted id, and none waits for that.
pub record IsNew (djob : DockerJob) (m : Manager) : Type 0 where
  pub fresh_id : get_job djob.job.id m.queue ≡ none
  pub fresh_run : has ℕ_discrete djob.job.id (under_way m) ≡ false
  pub fresh_submitted_id : has String_discrete djob.submitted_job_id (submitted_ids m.queue) ≡ false
  pub not_awaited :
      All (λ j. has String_discrete djob.submitted_job_id j.job.depends_on ≡ false) m.queue

-- Chosen by the loop, or past that.
abbrev pub is_begun : JobStatus → Bool
is_begun submitted = false
is_begun pending = false
is_begun runnable = false
is_begun _ = true

-- The job with this id, if there is one, is begun.
abbrev pub IsBegun : Uuid → List DockerJob → Type 0
IsBegun id queue =
    All (λ j. (ite (ℕ_discrete j.job.id id) true false && not (is_begun j.status)) ≡ false) queue

-- A write makes no finished job unfinished.
abbrev pub AdvancesTo : Uuid → JobStatus → DockerJob → Type 0
AdvancesTo id s j =
    (ite (ℕ_discrete j.job.id id) true false
      && contains_status unfinished_dep_status_list s
      && not (contains_status unfinished_dep_status_list j.status))
    ≡ false

abbrev pub put_second : DockerJob → List DockerJob → List DockerJob
put_second j [] = j ∷ []
put_second j (k ∷ queue) = k ∷ j ∷ queue

-- The jobs at a position and behind it change places. Such changes give every order.
unfoldable pub swap_at : ℕ → List DockerJob → List DockerJob
swap_at n [] = []
swap_at zero (j ∷ queue) = put_second j queue
swap_at (suc n) (j ∷ queue) = j ∷ swap_at n queue

unfoldable pub reorder : ℕ → Manager → Manager
unfolding swap_at
reorder n m = record m { queue = swap_at n m.queue }

-- A caller of `AddJob` that waits until the loop receives its event is one that is about to send.
-- `tell` is a write by the runner or a monitor of a job, or by its `Terminate`; it may come when
-- the job has ended. `visit` changes the order in which the next `range` visits the queue's map.
pub data Step (m : Manager) : Manager → Type 0 where
  submit : (djob : DockerJob) → djob.status ≡ submitted → IsNew djob m → Step m (add_job djob m)
  hear : (left : ℕ) → m.held ≡ none → m.events ≡ suc left → Step m (receive left m)
  start :
      (id : Uuid) (announced : ℕ)
      → m.held ≡ some (id, announced)
      → length m.active < m.concurrency
      → Step m (launch id announced m)
  tell :
      (id : Uuid) (s : JobStatus) → IsBegun id m.queue → reported s ≡ true → Step m (report id s m)
  end : (id : Uuid) → has ℕ_discrete id m.active ≡ true → Step m (finish id m)
  visit : (n : ℕ) → Step m (reorder n m)

pub data Reach (m : Manager) : Manager → Type 0 where
  here : Reach m m
  then : {n o : Manager} → Reach m n → Step n o → Reach m o

-- No write of the step makes a finished job unfinished.
abbrev pub Advances : {m n : Manager} → Step m n → Type 0
Advances {m} (tell id s begun r) = All (AdvancesTo id s) m.queue
Advances _ = Unit

abbrev pub AllAdvance : {m n : Manager} → Reach m n → Type 0
AllAdvance here = Unit
AllAdvance (then r step) = AllAdvance r × Advances step
