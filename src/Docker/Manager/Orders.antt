-- ===== src/Docker/Manager/Orders.antt =====
-- The orders in which a map is visited, and what does not depend on them.
use cloudcompute.Base.{
  ℕ, zero, suc, ap, sym, ◌∙◌, ◌++◌, Bool, ◌≡◌, refl, String, List, [], ◌∷◌, ℕ_discrete,
  String_discrete, has, arith, All, Distinct,
}
use cloudcompute.Manifest.{Uuid}
use cloudcompute.Docker.Queue.{DockerJob, JobStatus, find_dep, has_unfinished_dependencies}
use cloudcompute.Docker.Queue.Choice.{runnables, unblocked}
use cloudcompute.Docker.Queue.Update.{flags}
use cloudcompute.Docker.Manager.{set_status}
use cloudcompute.Docker.Manager.Steps.{submitted_ids, swap_at}
use cloudcompute.Docker.Manager.Clearance.{ids}
use cloudcompute.Docker.Manager.Readiness.{AllReady, IsReady}

pub swap_at-All :
    (P : DockerJob → Type 0) (n : ℕ) (queue : List DockerJob)
    → All P queue
    → All P (swap_at n queue)
unfolding swap_at
swap_at-All P n [] h = tt
swap_at-All P zero (j ∷ []) h = h
swap_at-All P zero (j ∷ k ∷ queue) h = (h.1.0, (h.0, h.1.1))
swap_at-All P (suc n) (j ∷ queue) h = (h.0, swap_at-All P n queue h.1)

pub swap_at_counts :
    (n : ℕ) (queue : List DockerJob)
    → (runnables (swap_at n queue) ≡ runnables queue)
      × (unblocked (swap_at n queue) ≡ unblocked queue)
unfolding swap_at
swap_at_counts n [] = (refl, refl)
swap_at_counts zero (j ∷ []) = (refl, refl)
swap_at_counts zero (j ∷ k ∷ queue) = ground arith
swap_at_counts (suc n) (j ∷ queue) = ground (arith, swap_at_counts n queue)

has-swap_at :
    (n : ℕ) (id : Uuid) (sid : String) (queue : List DockerJob)
    → (has ℕ_discrete id (ids (swap_at n queue)) ≡ has ℕ_discrete id (ids queue))
      × (has String_discrete sid (submitted_ids (swap_at n queue))
          ≡ has String_discrete sid (submitted_ids queue))
unfolding swap_at
has-swap_at n id sid [] = (refl, refl)
has-swap_at zero id sid (j ∷ []) = (refl, refl)
has-swap_at zero id sid (j ∷ k ∷ queue) = ground arith
has-swap_at (suc n) id sid (j ∷ queue) = ground (arith, has-swap_at n id sid queue)

pub swap_at-Distinct :
    (n : ℕ) (queue : List DockerJob)
    → Distinct ℕ_discrete (ids queue)
    → Distinct String_discrete (submitted_ids queue)
    → Distinct ℕ_discrete (ids (swap_at n queue))
      × Distinct String_discrete (submitted_ids (swap_at n queue))
unfolding swap_at
swap_at-Distinct n [] d s = (tt, tt)
swap_at-Distinct zero (j ∷ []) d s = (d, s)
swap_at-Distinct zero (j ∷ k ∷ queue) d s = ground (arith, d, s)
swap_at-Distinct (suc n) (j ∷ queue) d s = ground (
  arith,
  d.0,
  s.0,
  has-swap_at n j.job.id j.submitted_job_id queue,
  swap_at-Distinct n queue d.1 s.1,
)

find_dep-swap_at :
    (n : ℕ) (dep : String) (queue : List DockerJob)
    → Distinct String_discrete (submitted_ids queue)
    → find_dep dep (swap_at n queue) ≡ find_dep dep queue
unfolding find_dep swap_at
find_dep-swap_at n dep [] s = refl
find_dep-swap_at zero dep (j ∷ []) s = refl
find_dep-swap_at zero dep (j ∷ k ∷ queue) s = ground (arith, s)
find_dep-swap_at (suc n) dep (j ∷ queue) s = rw (find_dep-swap_at n dep queue s.1) refl

unfinished-swap_at :
    (n : ℕ) (deps : List String) (queue : List DockerJob)
    → Distinct String_discrete (submitted_ids queue)
    → has_unfinished_dependencies deps (swap_at n queue) ≡ has_unfinished_dependencies deps queue
unfolding has_unfinished_dependencies
unfinished-swap_at n [] queue s = refl
unfinished-swap_at n (dep ∷ deps) queue s =
    rw (find_dep-swap_at n dep queue s, unfinished-swap_at n deps queue s) refl

moved-IsReady :
    (n : ℕ) (full queue : List DockerJob)
    → Distinct String_discrete (submitted_ids full)
    → All (IsReady full) queue
    → All (IsReady (swap_at n full)) queue
moved-IsReady n full [] s h = tt
moved-IsReady n full (j ∷ queue) s h =
    (rw (unfinished-swap_at n j.job.depends_on full s) h.0, moved-IsReady n full queue s h.1)

pub swap_at-AllReady :
    (n : ℕ) (queue : List DockerJob)
    → Distinct String_discrete (submitted_ids queue)
    → AllReady queue
    → AllReady (swap_at n queue)
swap_at-AllReady n queue s h =
    swap_at-All (IsReady (swap_at n queue)) n queue (moved-IsReady n queue queue s h)

-- The submitted ids are part of what other jobs see.
first_parts : List (String × Bool) → List String
first_parts [] = []
first_parts ((id, b) ∷ fs) = id ∷ first_parts fs

submitted_ids-flags : (queue : List DockerJob) → submitted_ids queue ≡ first_parts (flags queue)
unfolding first_parts
submitted_ids-flags [] = refl
submitted_ids-flags (j ∷ queue) = cc (submitted_ids-flags queue)

pub same_submitted_ids :
    (p q : List DockerJob) → flags p ≡ flags q → submitted_ids p ≡ submitted_ids q
same_submitted_ids p q e = submitted_ids-flags p ∙ ap first_parts e ∙ sym (submitted_ids-flags q)

pub set_status-submitted_ids :
    (id : Uuid) (s : JobStatus) (queue : List DockerJob)
    → submitted_ids (set_status id s queue) ≡ submitted_ids queue
unfolding set_status
set_status-submitted_ids id s [] = refl
set_status-submitted_ids id s (j ∷ queue) = ground (arith, set_status-submitted_ids id s queue)

pub submitted_ids-snoc :
    (queue : List DockerJob) (djob : DockerJob)
    → submitted_ids (queue ++ djob ∷ []) ≡ submitted_ids queue ++ djob.submitted_job_id ∷ []
submitted_ids-snoc [] djob = refl
submitted_ids-snoc (j ∷ queue) djob = cc (submitted_ids-snoc queue djob)
