-- ===== src/Docker/Manager.antt =====
-- docker-compute-manager.go: the runner loop of a DockerComputeManager, the goroutines that run the
-- jobs, and the channels between them. A state stands between two steps of these; a goroutine that
-- is about to send on `queueEvents` is counted in `events`, and the loop, once it has chosen a job,
-- may wait for a slot of `limiter`.
pub mod Steps
pub mod Orders
pub mod Wakeups
pub mod Readiness
pub mod Clearance
pub mod Safety
pub mod Precedence
pub mod Late
pub mod Termination
use cloudcompute.Base.{
  ℕ, zero, suc, ◌+◌, ◌-◌, ◌<◌, ◌≡◌, String, List, [], ◌∷◌, Bool, true, false, Option, none, some,
  ite, cond, ℕ_discrete, length, has, All, Outcome, return, panic, ◌>>=◌, ◌==◌,
}
use cloudcompute.Manifest.{Uuid}
use cloudcompute.Docker.Queue.{
  JobStatus, submitted, running, succeeded, failed, DockerJob, add, update_jobs, get_next_runnable,
}

-- `held` is the chosen job, with the number of pending jobs that it announces once it has started.
-- `active` are the jobs whose goroutines hold a slot.
pub record Manager : Type 0 where
  pub queue : List DockerJob
  pub events : ℕ
  pub held : Option (Uuid × ℕ)
  pub active : List Uuid
  pub concurrency : ℕ

-- `NewDockerComputeManager`: no concurrency means one job at a time.
unfoldable pub new_manager : ℕ → Manager
new_manager concurrency = record {
  queue = [];
  events = 0;
  held = none;
  active = [];
  concurrency = cond (concurrency == 0) 1 concurrency;
}

-- `AddJob`: the job is queued, and its caller is about to send "SUBMITTED JOB". The send blocks the
-- caller until the loop receives, so the caller is one of `events` until then.
unfoldable pub add_job : DockerJob → Manager → Manager
add_job djob m = record m { queue = add djob m.queue; events = suc m.events }

unfoldable pub hold : ℕ → List Uuid → List DockerJob × Option DockerJob → Manager → Manager
hold left ids (queue, none) m = record m { queue = queue; events = left }
hold left ids (queue, some j) m = record m {
  queue = queue;
  events = left;
  held = some (j.job.id, length ids);
}

-- The loop receives an event, of which `left` stay: `UpdateJobs`, then `GetNextRunnable`. With no
-- runnable job it goes on to the next event.
unfoldable pub receive : ℕ → Manager → Manager
unfolding hold
receive left m = let (queue, ids) = update_jobs m.queue in hold left ids (get_next_runnable queue) m

-- `dcm.limiter <- struct{}{}`, the goroutine of the job, and one of each pending job's.
unfoldable pub launch : Uuid → ℕ → Manager → Manager
launch id announced m = record m {
  held = none;
  active = id ∷ m.active;
  events = m.events + announced;
}

-- The status of the job is written through its pointer.
unfoldable pub set_status : Uuid → JobStatus → List DockerJob → List DockerJob
set_status id s [] = []
set_status id s (j ∷ queue) =
    let rest = set_status id s queue in
    ite (ℕ_discrete j.job.id id) (record j { status = s } ∷ queue) (j ∷ rest)

-- The runner or a monitor of an active job writes its status.
unfoldable pub report : Uuid → JobStatus → Manager → Manager
unfolding set_status
report id s m = record m { queue = set_status id s m.queue }

unfoldable pub drop_active : Uuid → List Uuid → List Uuid
drop_active id [] = []
drop_active id (a ∷ active) =
    let rest = drop_active id active in ite (ℕ_discrete a id) active (a ∷ rest)

-- The deferred function of the goroutine: the slot is free, and "FINISHED JOB" is sent.
unfoldable pub finish : Uuid → Manager → Manager
unfolding drop_active
finish id m = record m { active = drop_active id m.active; events = suc m.events }

-- `TerminateJobs` with its test whether a job's name holds the compute's id: a job that has no
-- runner yet is a nil pointer, and others are stopped and have failed.
unfoldable pub terminate_jobs : (DockerJob → Bool) → List DockerJob → Outcome (List DockerJob)
terminate_jobs matches [] = return []
terminate_jobs matches (j ∷ queue) = elim (matches j) [
  | false ↦ terminate_jobs matches queue >>= λ rest. return (j ∷ rest)
  | true ↦ elim j.runner [
    | none ↦ panic
    | some container ↦
        terminate_jobs matches queue >>= λ rest. return (record j { status = failed } ∷ rest)
  ]
]
