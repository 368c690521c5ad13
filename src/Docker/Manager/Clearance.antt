-- ===== src/Docker/Manager/Clearance.antt =====
-- The jobs that are past `pending`, and what the operations of the queue do to them.
use cloudcompute.Base.{
  ◌≡◌, refl, String, List, [], ◌∷◌, ◌++◌, Bool, true, false, not, Option, none, some, ◌&&◌,
  ℕ_discrete, has, has-append, arith, All, Distinct,
}
use cloudcompute.Manifest.{Uuid}
use cloudcompute.Docker.Queue.{
  JobStatus, DockerJob, get_job, get_next_runnable, has_unfinished_dependencies, next_status,
}
use cloudcompute.Docker.Queue.Update.{refreshed}
use cloudcompute.Docker.Manager.{set_status, drop_active}
use cloudcompute.Docker.Manager.Steps.{AdvancesTo, IsBegun, reported}
use cloudcompute.Docker.Manager.Readiness.{is_cleared, IsReady, unfinished-weaker}

abbrev pub ids : List DockerJob → List Uuid
ids [] = []
ids (j ∷ queue) = j.job.id ∷ ids queue

-- The jobs with one of these ids are past `pending`.
abbrev pub Cleared : List Uuid → List DockerJob → Type 0
Cleared active queue =
    All (λ j. (has ℕ_discrete j.job.id active && not (is_cleared j.status)) ≡ false) queue

pub ids-snoc :
    (queue : List DockerJob) (djob : DockerJob)
    → ids (queue ++ djob ∷ []) ≡ ids queue ++ djob.job.id ∷ []
ids-snoc [] djob = refl
ids-snoc (j ∷ queue) djob = cc (ids-snoc queue djob)

pub absent-ids :
    (id : Uuid) (queue : List DockerJob)
    → get_job id queue ≡ none
    → has ℕ_discrete id (ids queue) ≡ false
unfolding get_job
absent-ids id [] h = refl
absent-ids id (j ∷ queue) h = ground (arith, absent-ids id queue)

pub Cleared-snoc :
    (active : List Uuid) (queue : List DockerJob) (djob : DockerJob)
    → has ℕ_discrete djob.job.id active ≡ false
    → Cleared active queue
    → Cleared active (queue ++ djob ∷ [])
Cleared-snoc active [] djob h c = (ground (arith, h), tt)
Cleared-snoc active (j ∷ queue) djob h c = (c.0, Cleared-snoc active queue djob h c.1)

pub Cleared-fewer :
    (active fewer : List Uuid) (queue : List DockerJob)
    → ((id : Uuid) → has ℕ_discrete id fewer ≡ true → has ℕ_discrete id active ≡ true)
    → Cleared active queue
    → Cleared fewer queue
Cleared-fewer active fewer [] sub c = tt
Cleared-fewer active fewer (j ∷ queue) sub c =
    (ground (arith, sub j.job.id, c.0), Cleared-fewer active fewer queue sub c.1)

pub Cleared-add :
    (id : Uuid) (active : List Uuid) (queue : List DockerJob)
    → has ℕ_discrete id (ids queue) ≡ false
    → Cleared active queue
    → Cleared (id ∷ active) queue
Cleared-add id active [] h c = tt
Cleared-add id active (j ∷ queue) h c =
    (ground (arith, c.0), Cleared-add id active queue (ground arith) c.1)

-- A turn in `UpdateJobs` leaves a job that is past `pending` there.
pub turn-cleared :
    (deps : List String) (b : Bool) (s : JobStatus)
    → is_cleared s ≡ true
    → is_cleared (next_status deps b s).0 ≡ true
unfolding next_status
turn-cleared [] b s h = ground arith
turn-cleared (dep ∷ deps) true s h = ground arith
turn-cleared (dep ∷ deps) false s h = ground arith

pub refreshed-Cleared :
    (active : List Uuid) (full queue : List DockerJob)
    → Cleared active queue
    → Cleared active (refreshed full queue) × (ids (refreshed full queue) ≡ ids queue)
refreshed-Cleared active full [] c = (tt, refl)
refreshed-Cleared active full (j ∷ queue) c =
    let (rest, same) = refreshed-Cleared active full queue c.1 in
    (
      (
        ground (
          arith,
          c.0,
          turn-cleared j.job.depends_on (has_unfinished_dependencies j.job.depends_on full)
              j.status,
        ),
        rest,
      ),
      cc same,
    )

abbrev pub chosen_ids : Option DockerJob → List Uuid
chosen_ids none = []
chosen_ids (some j) = j.job.id ∷ []

pub next-ids : (queue : List DockerJob) → ids (get_next_runnable queue).0 ≡ ids queue
unfolding get_next_runnable
next-ids [] = refl
next-ids (j ∷ queue) = ground (arith, next-ids queue)

pub chosen-known :
    (id : Uuid) (queue : List DockerJob)
    → has ℕ_discrete id (chosen_ids (get_next_runnable queue).1) ≡ true
    → has ℕ_discrete id (ids queue) ≡ true
unfolding get_next_runnable
chosen-known id [] h = cc
chosen-known id (j ∷ queue) h = ground (arith, chosen-known id queue)

-- The chosen job is past `pending` in the queue from which it was chosen.
pub next-Cleared :
    (active : List Uuid) (queue : List DockerJob)
    → Distinct ℕ_discrete (ids queue)
    → Cleared active queue
    → Cleared (chosen_ids (get_next_runnable queue).1 ++ active) (get_next_runnable queue).0
unfolding get_next_runnable
next-Cleared active [] d c = tt
next-Cleared active (j ∷ queue) d c = ground (
  arith,
  c.0,
  d.0,
  chosen-known j.job.id queue,
  has-append ℕ_discrete j.job.id (chosen_ids (get_next_runnable queue).1) active,
  Cleared-add j.job.id active queue d.0 c.1,
  next-Cleared active queue d.1 c.1,
)

pub set_status-ids :
    (id : Uuid) (s : JobStatus) (queue : List DockerJob) → ids (set_status id s queue) ≡ ids queue
unfolding set_status
set_status-ids id s [] = refl
set_status-ids id s (j ∷ queue) = ground (arith, set_status-ids id s queue)

pub set_status-Cleared :
    (active : List Uuid) (id : Uuid) (s : JobStatus) (queue : List DockerJob)
    → reported s ≡ true
    → Cleared active queue
    → Cleared active (set_status id s queue)
unfolding set_status
set_status-Cleared active id s [] r c = tt
set_status-Cleared active id s (j ∷ queue) r c =
    ground (arith, c.0, c.1, set_status-Cleared active id s queue r c.1)

pub others-IsReady :
    (id : Uuid) (s : JobStatus) (full queue : List DockerJob)
    → All (AdvancesTo id s) full
    → All (IsReady full) queue
    → All (IsReady (set_status id s full)) queue
others-IsReady id s full [] h r = tt
others-IsReady id s full (j ∷ queue) h r = (
  ground (arith, r.0, unfinished-weaker j.job.depends_on id s full h),
  others-IsReady id s full queue h r.1,
)

pub set_status-IsReady :
    (id : Uuid) (s : JobStatus) (full queue : List DockerJob)
    → IsBegun id queue
    → All (AdvancesTo id s) full
    → All (IsReady full) queue
    → All (IsReady (set_status id s full)) (set_status id s queue)
unfolding set_status
set_status-IsReady id s full [] b h r = tt
set_status-IsReady id s full (j ∷ queue) b h r = ground (
  arith,
  b.0,
  r.0,
  unfinished-weaker j.job.depends_on id s full h,
  others-IsReady id s full queue h r.1,
  set_status-IsReady id s full queue b.1 h r.1,
)

pub drop_active-has :
    (id x : Uuid) (active : List Uuid)
    → has ℕ_discrete x (drop_active id active) ≡ true
    → has ℕ_discrete x active ≡ true
unfolding drop_active
drop_active-has id x [] h = h
drop_active-has id x (a ∷ active) h = ground (arith, drop_active-has id x active)
