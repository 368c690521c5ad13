-- ===== src/Docker/Monitor/Stranded.antt =====
-- A monitor that returns before the container's end is known.
use cloudcompute.Base.{◌≡◌, refl, String, List, [], ◌∷◌, Bool, true, false, none, arith, All}
use cloudcompute.Manifest.{Uuid}
use cloudcompute.Docker.Queue.{
  JobStatus, submitted, pending, runnable, starting, running, succeeded, failed, DockerJob,
  has_unfinished_dependencies, next_status, get_next_runnable,
}
use cloudcompute.Docker.Queue.Update.{update_jobs_lem, refreshed, startable}
use cloudcompute.Docker.Manager.{Manager, receive, hold, report, finish, set_status, drop_active}
use cloudcompute.Docker.Monitor.{DockerRunMonitor, started, Reach, watching, ended, copied}
use cloudcompute.Docker.Monitor.Statuses.{monitor-IsExplained}

-- The job waits for a dependency that is not finished, or does not wait.
abbrev pub WaitsIn : List DockerJob → DockerJob → JobStatus → Type 0
WaitsIn full j submitted = ⊥
WaitsIn full j pending = has_unfinished_dependencies j.job.depends_on full ≡ true
WaitsIn full j runnable = ⊥
WaitsIn full j starting = Unit
WaitsIn full j running = Unit
WaitsIn full j succeeded = Unit
WaitsIn full j failed = Unit

waits-turn :
    (full : List DockerJob) (j : DockerJob) (s : JobStatus)
    → WaitsIn full j s
    → next_status j.job.depends_on (has_unfinished_dependencies j.job.depends_on full) s
      ≡ (s, false)
unfolding next_status has_unfinished_dependencies
waits-turn full j submitted h = elim h [ ]
waits-turn full j runnable h = elim h [ ]
waits-turn full j pending h =
    pending-turn j.job.depends_on (has_unfinished_dependencies j.job.depends_on full) h
      (no_dependencies j.job.depends_on)
  where
    no_dependencies :
        (deps : List String) → deps ≡ [] → has_unfinished_dependencies deps full ≡ false
    no_dependencies deps e = rw e refl

    pending-turn :
        (deps : List String) (b : Bool)
        → b ≡ true
        → (deps ≡ [] → b ≡ false)
        → next_status deps b pending ≡ (pending, false)
    pending-turn [] b h empty = refl
    pending-turn (dep ∷ deps) true h empty = refl
    pending-turn (dep ∷ deps) false h empty = cc
waits-turn full j starting h = ground arith
waits-turn full j running h = ground arith
waits-turn full j succeeded h = ground arith
waits-turn full j failed h = ground arith

waits-queue :
    (full queue : List DockerJob)
    → All (λ j. WaitsIn full j j.status) queue
    → (refreshed full queue ≡ queue) × (startable full queue ≡ [])
waits-queue full [] h = (refl, refl)
waits-queue full (j ∷ queue) h =
    ground (arith, waits-queue full queue h.1, waits-turn full j j.status h.0)

waits-none :
    (full queue : List DockerJob)
    → All (λ j. WaitsIn full j j.status) queue
    → get_next_runnable queue ≡ (queue, none)
unfolding get_next_runnable
waits-none full [] h = refl
waits-none full (j ∷ queue) h = ground (arith, waits-none full queue h.1)

-- A monitor whose log ends without an error, before the container's end is known, returns with its
-- job still running, unless `Terminate` has stopped it. Where that job was the only active one,
-- with no event on the way, and each other job in the queue is being run, is finished, or waits for
-- an unfinished job, the event of the job's end starts none: the queue stays as it is, with no
-- event on the way and no job active.
pub finished-strands :
    (n : DockerRunMonitor) (m : Manager) (id : Uuid)
    → Reach (started running) n
    → n.has_returned ≡ true
    → n.log_monitor ≡ ended copied
    → n.container_monitor ≡ watching
    → n.terminated ≡ false
    → m.events ≡ 0
    → m.held ≡ none
    → m.active ≡ id ∷ []
    → (let queue = set_status id running m.queue in All (λ j. WaitsIn queue j j.status) queue)
    → (let after = receive 0 (finish id (report id n.status m)) in
        (after.queue ≡ set_status id running m.queue)
        × (after.events ≡ 0)
        × (after.held ≡ none)
        × (after.active ≡ []))
unfolding receive finish report hold drop_active
finished-strands n m id r returned log container running_on events held active waits =
    let queue = set_status id running m.queue in
    let still_running : n.status ≡ running =
      ground (arith, log, container, running_on, (monitor-IsExplained running n r).0) in
    let (same, none_startable) = waits-queue queue queue waits in
    rw (still_running, update_jobs_lem queue, same, none_startable, waits-none queue queue waits)
      (refl, refl, held, ground (arith, active))
