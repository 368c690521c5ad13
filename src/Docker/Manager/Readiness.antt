-- ===== src/Docker/Manager/Readiness.antt =====
-- A job is runnable only once its dependencies are finished, and so when it runs.
use cloudcompute.Base.{
  ◌≡◌, refl, String, List, [], ◌∷◌, ◌++◌, Bool, true, false, not, Option, none, some, ◌||◌, ◌&&◌,
  has, arith, ◌≢◌, All, String_discrete, ◌∙◌, sym,
}
use cloudcompute.Manifest.{Uuid}
use cloudcompute.Docker.Queue.{
  JobStatus, submitted, pending, DockerJob, get_job, add, get_next_runnable, update_jobs, find_dep,
  is_unfinished, has_unfinished_dependencies, next_status, contains_status,
  unfinished_dep_status_list,
}
use cloudcompute.Docker.Queue.Update.{
  flags, update_jobs_lem, refreshed, refreshed-flags, same_unfinished,
}
use cloudcompute.Docker.Queue.Choice.{next-flags}
use cloudcompute.Docker.Manager.{set_status}
use cloudcompute.Docker.Manager.Steps.{AdvancesTo}

-- Past `pending`: runnable, being run, or finished.
abbrev pub is_cleared : JobStatus → Bool
is_cleared submitted = false
is_cleared pending = false
is_cleared _ = true

-- The job is not cleared while a dependency in the queue `full` is unfinished.
abbrev pub IsReady : List DockerJob → DockerJob → Type 0
IsReady full j = (is_cleared j.status && has_unfinished_dependencies j.job.depends_on full) ≡ false

abbrev pub AllReady : List DockerJob → Type 0
AllReady queue = All (IsReady queue) queue

All-flags :
    (p q queue : List DockerJob) → flags p ≡ flags q → All (IsReady p) queue → All (IsReady q) queue
All-flags p q [] e h = tt
All-flags p q (j ∷ queue) e h =
    (rw (← same_unfinished j.job.depends_on p q e) h.0, All-flags p q queue e h.1)

turn-ready :
    (deps : List String) (b : Bool) (full : List DockerJob) (s : JobStatus)
    → has_unfinished_dependencies deps full ≡ b
    → (is_cleared s && b) ≡ false
    → (is_cleared (next_status deps b s).0 && b) ≡ false
unfolding next_status has_unfinished_dependencies
turn-ready [] b full s e h = ground arith
turn-ready (dep ∷ deps) true full s e h = ground arith
turn-ready (dep ∷ deps) false full s e h = ground arith

refreshed-IsReady :
    (full queue : List DockerJob)
    → All (IsReady full) queue
    → All (IsReady full) (refreshed full queue)
refreshed-IsReady full [] h = tt
refreshed-IsReady full (j ∷ queue) h = (
  turn-ready j.job.depends_on (has_unfinished_dependencies j.job.depends_on full) full j.status refl
      h.0,
  refreshed-IsReady full queue h.1,
)

next-IsReady :
    (full queue : List DockerJob)
    → All (IsReady full) queue
    → All (IsReady full) (get_next_runnable queue).0
unfolding get_next_runnable
next-IsReady full [] h = tt
next-IsReady full (j ∷ queue) h = ground (arith, next-IsReady full queue)

pub received-AllReady :
    (queue : List DockerJob) → AllReady queue → AllReady (get_next_runnable (update_jobs queue).0).0
received-AllReady queue h = rw (update_jobs_lem queue) (
    All-flags queue (get_next_runnable (refreshed queue queue)).0
      (get_next_runnable (refreshed queue queue)).0
      (sym (next-flags (refreshed queue queue) ∙ refreshed-flags queue queue))
      (next-IsReady queue (refreshed queue queue) (refreshed-IsReady queue queue h)))

-- Adding a job that none waits for.
pub add-snoc :
    (djob : DockerJob) (queue : List DockerJob)
    → get_job djob.job.id queue ≡ none
    → add djob queue ≡ queue ++ djob ∷ []
unfolding add get_job
add-snoc djob [] h = refl
add-snoc djob (j ∷ queue) h = ground (arith, add-snoc djob queue)

find_dep-snoc :
    (dep : String) (djob : DockerJob) (queue : List DockerJob)
    → djob.submitted_job_id ≢ dep
    → find_dep dep (queue ++ djob ∷ []) ≡ find_dep dep queue
unfolding find_dep
find_dep-snoc dep djob [] h = ground arith
find_dep-snoc dep djob (j ∷ queue) h = ground (arith, find_dep-snoc dep djob queue h)

unfinished-snoc :
    (deps : List String) (djob : DockerJob) (queue : List DockerJob)
    → has String_discrete djob.submitted_job_id deps ≡ false
    → has_unfinished_dependencies deps (queue ++ djob ∷ []) ≡ has_unfinished_dependencies deps queue
unfolding has_unfinished_dependencies
unfinished-snoc [] djob queue h = refl
unfinished-snoc (dep ∷ deps) djob queue h =
    ground (arith, unfinished-snoc deps djob queue, find_dep-snoc dep djob queue)

pub snoc-IsReady :
    (djob : DockerJob) (full queue : List DockerJob)
    → djob.status ≡ submitted
    → All (λ j. has String_discrete djob.submitted_job_id j.job.depends_on ≡ false) queue
    → All (IsReady full) queue
    → All (IsReady (full ++ djob ∷ [])) (queue ++ djob ∷ [])
snoc-IsReady djob full [] s n h = (ground (arith, s), tt)
snoc-IsReady djob full (j ∷ queue) s n h = (
  ground (arith, h.0, unfinished-snoc j.job.depends_on djob full n.0),
  snoc-IsReady djob full queue s n.1 h.1,
)

-- A report makes no dependency unfinished.
abbrev weaker : Option DockerJob → Option DockerJob → Bool
weaker none none = true
weaker (some a) (some b) =
    not (contains_status unfinished_dep_status_list a.status)
    || contains_status unfinished_dep_status_list b.status
weaker _ _ = false

find_dep-weaker :
    (dep : String) (id : Uuid) (s : JobStatus) (queue : List DockerJob)
    → All (AdvancesTo id s) queue
    → weaker (find_dep dep (set_status id s queue)) (find_dep dep queue) ≡ true
unfolding find_dep set_status
find_dep-weaker dep id s [] h = refl
find_dep-weaker dep id s (j ∷ queue) h = ground (arith, find_dep-weaker dep id s queue, h.0)

pub unfinished-weaker :
    (deps : List String) (id : Uuid) (s : JobStatus) (queue : List DockerJob)
    → All (AdvancesTo id s) queue
    → has_unfinished_dependencies deps queue ≡ false
    → has_unfinished_dependencies deps (set_status id s queue) ≡ false
unfolding has_unfinished_dependencies is_unfinished
unfinished-weaker [] id s queue h e = refl
unfinished-weaker (dep ∷ deps) id s queue h e =
    ground (arith, unfinished-weaker deps id s queue h, find_dep-weaker dep id s queue h)
