-- ===== src/Docker/Manager/Wakeups.antt =====
-- docker-compute-manager.go: events on the way, and the slots of the limiter.
use cloudcompute.Base.{
  ℕ, suc, ◌+◌, ◌≤◌, ◌≡◌, refl, List, [], ◌∷◌, true, Option, none, some, cond, length, arith, ◌==◌,
  ◌∙◌,
}
use cloudcompute.Manifest.{Uuid}
use cloudcompute.Docker.Queue.{
  JobStatus, submitted, DockerJob, get_job, add, get_next_runnable, update_jobs,
}
use cloudcompute.Docker.Queue.Update.{update_jobs_lem, refreshed, startable}
use cloudcompute.Docker.Queue.Choice.{
  runnables, unblocked, refreshed_counts, Chosen, next-unblocked, next-Chosen,
}
use cloudcompute.Docker.Manager.{
  Manager, new_manager, add_job, receive, hold, launch, report, finish, set_status, drop_active,
}
use cloudcompute.Docker.Manager.Orders.{swap_at_counts}
use cloudcompute.Docker.Manager.Steps.{
  reorder, Step, submit, hear, start, tell, end, visit, Reach, here, then, reported,
}

abbrev pub announced : Option (Uuid × ℕ) → ℕ
announced none = 0
announced (some (id, k)) = k

-- Each job that could be started now has an event on the way: one that is being sent, or one that
-- follows the start of the job that the loop holds. There is a slot for each active job.
pub record IsAwake (m : Manager) : Type 0 where
  pub woken : runnables m.queue + unblocked m.queue ≤ m.events + announced m.held
  pub slots : length m.active ≤ m.concurrency

add_counts :
    (djob : DockerJob) (queue : List DockerJob)
    → djob.status ≡ submitted
    → get_job djob.job.id queue ≡ none
    → (runnables (add djob queue) ≡ runnables queue)
      × (unblocked (add djob queue) ≤ suc (unblocked queue))
unfolding add get_job
add_counts djob [] s n = ground (arith, s)
add_counts djob (j ∷ queue) s n = ground (arith, add_counts djob queue s)

set_status_counts :
    (id : Uuid) (s : JobStatus) (queue : List DockerJob)
    → reported s ≡ true
    → (runnables (set_status id s queue) ≤ runnables queue)
      × (unblocked (set_status id s queue) ≤ unblocked queue)
unfolding set_status
set_status_counts id s [] r = ground arith
set_status_counts id s (j ∷ queue) r = ground (arith, set_status_counts id s queue r)

drop_active-le : (id : Uuid) (active : List Uuid) → length (drop_active id active) ≤ length active
unfolding drop_active
drop_active-le id [] = omega arith
drop_active-le id (a ∷ active) = ground (arith, drop_active-le id active)

hold-IsAwake :
    (left : ℕ) (ids : List Uuid) (queue queue' : List DockerJob) (found : Option DockerJob)
    (m : Manager)
    → runnables queue ≤ suc (left + length ids)
    → unblocked queue' ≡ 0
    → Chosen queue queue' found
    → m.held ≡ none
    → length m.active ≤ m.concurrency
    → IsAwake (hold left ids (queue', found) m)
unfolding hold
hold-IsAwake left ids queue queue' none m c u h e s = ground arith
hold-IsAwake left ids queue queue' (some j) m c u h e s = ground arith

held_same :
    (left : ℕ) (ids : List Uuid) (r : List DockerJob × Option DockerJob) (m : Manager)
    → (hold left ids r m).concurrency ≡ m.concurrency
unfolding hold
held_same left ids (queue, none) m = refl
held_same left ids (queue, some j) m = refl

receive-IsAwake :
    (left : ℕ) (m : Manager)
    → m.held ≡ none
    → m.events ≡ suc left
    → IsAwake m
    → IsAwake (receive left m)
unfolding receive
receive-IsAwake left m free one h =
    let queue = refreshed m.queue m.queue in
    let ids = startable m.queue m.queue in
    let counts = refreshed_counts m.queue m.queue in
    rw (update_jobs_lem m.queue) (
      hold-IsAwake left ids queue (get_next_runnable queue).0 (get_next_runnable queue).1 m
        (ground (arith, h.woken, counts.0)) (ground (arith, next-unblocked queue, counts.1))
        (next-Chosen queue) free h.slots)

-- Every step keeps an event on the way for each job that could be started, and a slot for each
-- active one.
pub Step-IsAwake : {m n : Manager} → Step m n → IsAwake m → IsAwake n
unfolding add_job launch report finish reorder
Step-IsAwake {m} (submit djob s new) h =
    ground (arith, h.woken, add_counts djob m.queue s new.fresh_id)
Step-IsAwake {m} (hear left free one) h = receive-IsAwake left m free one h
Step-IsAwake {m} (start id k held room) h = ground (arith, h.woken)
Step-IsAwake {m} (visit n) h = ground (arith, h.woken, swap_at_counts n m.queue)
Step-IsAwake {m} (tell id s begun r) h = ground (arith, h.woken, set_status_counts id s m.queue r)
Step-IsAwake {m} (end id active) h = ground (arith, h.woken, drop_active-le id m.active)

new_manager-IsAwake : (concurrency : ℕ) → IsAwake (new_manager concurrency)
unfolding new_manager
new_manager-IsAwake concurrency = ground arith

Reach-IsAwake : {m n : Manager} → IsAwake m → Reach m n → IsAwake n
Reach-IsAwake h here = h
Reach-IsAwake h (then r step) = Step-IsAwake step (Reach-IsAwake h r)

Step-concurrency : {m n : Manager} → Step m n → n.concurrency ≡ m.concurrency
unfolding add_job launch report finish reorder
Step-concurrency {m} (submit djob s new) = refl
Step-concurrency {m} (hear left free one) =
    unfold receive in
    held_same left (update_jobs m.queue).1 (get_next_runnable (update_jobs m.queue).0) m
Step-concurrency {m} (start id k held room) = refl
Step-concurrency {m} (tell id s begun r) = refl
Step-concurrency {m} (visit n) = refl
Step-concurrency {m} (end id active) = refl

Reach-concurrency : {m n : Manager} → Reach m n → n.concurrency ≡ m.concurrency
Reach-concurrency here = refl
Reach-concurrency (then r step) = Step-concurrency step ∙ Reach-concurrency r

-- In every state that a new manager comes to, where each job that is submitted has ids that are new
-- and that no job waits for, and whatever the order in which the queue is visited, there is an
-- event on the way, or to come when the held job has started, for each job that is runnable or
-- submitted without dependencies; and never are more jobs active than `concurrency` says, or than
-- one where it says 0.
pub manager-IsAwake :
    (concurrency : ℕ) (m : Manager)
    → Reach (new_manager concurrency) m
    → (runnables m.queue + unblocked m.queue ≤ m.events + announced m.held)
      × (length m.active ≤ cond (concurrency == 0) 1 concurrency)
unfolding new_manager
manager-IsAwake concurrency m r =
    let h = Reach-IsAwake (new_manager-IsAwake concurrency) r in
    (h.woken, rw (← Reach-concurrency r) h.slots)
