-- ===== src/Docker/Manager/Late.antt =====
-- A job that is submitted when its dependencies have finished.
use cloudcompute.Base.{◌≡◌, String, List, [], ◌∷◌, ◌++◌, Bool, false, none, arith, All}
use cloudcompute.Docker.Queue.{
  DockerJob, JobStatus, submitted, pending, get_job, contains_status, unfinished_dep_status_list,
  has_unfinished_dependencies, next_status, get_next_runnable,
}
use cloudcompute.Docker.Queue.Update.{update_jobs_lem, refreshed, startable}
use cloudcompute.Docker.Manager.{Manager, add_job, receive, hold}
use cloudcompute.Docker.Manager.Readiness.{add-snoc}

abbrev pub IsFinished : DockerJob → Type 0
IsFinished j = contains_status unfinished_dep_status_list j.status ≡ false

finished_turn :
    (deps : List String) (b : Bool) (s : JobStatus)
    → contains_status unfinished_dep_status_list s ≡ false
    → next_status deps b s ≡ (s, false)
unfolding next_status contains_status
finished_turn deps b s h = ground arith

late_turns :
    (full queue : List DockerJob) (djob : DockerJob) (dep : String) (deps : List String)
    → djob.status ≡ submitted
    → djob.job.depends_on ≡ dep ∷ deps
    → All IsFinished queue
    → (refreshed full (queue ++ djob ∷ []) ≡ queue ++ record djob { status = pending } ∷ [])
      × (startable full (queue ++ djob ∷ []) ≡ [])
unfolding next_status
late_turns full [] djob dep deps s d h = ground (arith, s, d)
late_turns full (j ∷ queue) djob dep deps s d h = ground (
  arith,
  late_turns full queue djob dep deps s d h.1,
  finished_turn j.job.depends_on (has_unfinished_dependencies j.job.depends_on full) j.status h.0,
)

none_runnable :
    (queue : List DockerJob) (djob : DockerJob)
    → All IsFinished queue
    → get_next_runnable (queue ++ record djob { status = pending } ∷ [])
      ≡ (queue ++ record djob { status = pending } ∷ [], none)
unfolding get_next_runnable contains_status
none_runnable [] djob h = ground arith
none_runnable (j ∷ queue) djob h = ground (arith, none_runnable queue djob h.1, h.0)

-- A job with dependencies that is submitted to an idle manager, of which every job has finished,
-- is left `pending` by its own event, though all its dependencies have finished; and no event is on
-- the way behind it, no job is held and none active, so that only another submission wakes it.
pub late_job_waits :
    (m : Manager) (djob : DockerJob) (dep : String) (deps : List String)
    → djob.status ≡ submitted
    → djob.job.depends_on ≡ dep ∷ deps
    → get_job djob.job.id m.queue ≡ none
    → All IsFinished m.queue
    → m.events ≡ 0
    → m.held ≡ none
    → m.active ≡ []
    → (let n = receive 0 (add_job djob m) in
        (n.queue ≡ m.queue ++ record djob { status = pending } ∷ [])
        × (n.events ≡ 0)
        × (n.held ≡ none)
        × (n.active ≡ []))
unfolding receive add_job hold
late_job_waits m djob dep deps s d fresh finished events held active =
    let full = m.queue ++ djob ∷ [] in
    ground (
      arith,
      add-snoc djob m.queue fresh,
      update_jobs_lem full,
      late_turns full m.queue djob dep deps s d finished,
      none_runnable m.queue djob finished,
    )
