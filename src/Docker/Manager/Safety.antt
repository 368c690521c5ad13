-- ===== src/Docker/Manager/Safety.antt =====
-- docker-compute-manager.go: jobs that start, and the jobs they depend on.
use cloudcompute.Base.{
  ℕ, ◌≡◌, List, ◌++◌, Option, none, some, ℕ_discrete, has-append, String_discrete, ◌∙◌, arith,
  Distinct, subst,
}
use cloudcompute.Manifest.{Uuid}
use cloudcompute.Toposort.Positions.{Distinct-snoc}
use cloudcompute.Docker.Queue.{DockerJob, get_next_runnable}
use cloudcompute.Docker.Queue.Update.{startable, update_jobs_lem, refreshed, refreshed-flags}
use cloudcompute.Docker.Manager.{
  Manager, new_manager, add_job, receive, hold, launch, report, finish, drop_active,
}
use cloudcompute.Docker.Queue.Choice.{next-flags}
use cloudcompute.Docker.Manager.Precedence.{IsOrdered, ready-IsOrdered}
use cloudcompute.Docker.Manager.Orders.{
  swap_at-All, swap_at-Distinct, swap_at-AllReady, same_submitted_ids, set_status-submitted_ids,
  submitted_ids-snoc,
}
use cloudcompute.Docker.Manager.Steps.{
  reorder, submitted_ids, Advances, AllAdvance, Step, submit, hear, start, tell, end, visit, Reach,
  here, then, under_way, held_ids,
}
use cloudcompute.Docker.Manager.Readiness.{AllReady, received-AllReady, add-snoc, snoc-IsReady}
use cloudcompute.Docker.Manager.Clearance.{
  ids, Cleared, ids-snoc, absent-ids, Cleared-snoc, Cleared-fewer, refreshed-Cleared, chosen_ids,
  next-ids, next-Cleared, set_status-ids, set_status-Cleared, set_status-IsReady, drop_active-has,
}

-- A job past `pending` has no unfinished dependency, those under way are past it, and each id and
-- submitted id stands once.
pub record IsSafe (m : Manager) : Type 0 where
  pub ready : AllReady m.queue
  pub cleared : Cleared (under_way m) m.queue
  pub once : Distinct ℕ_discrete (ids m.queue)
  pub apart : Distinct String_discrete (submitted_ids m.queue)

receive-IsSafe : (left : ℕ) (m : Manager) → m.held ≡ none → IsSafe m → IsSafe (receive left m)
unfolding receive hold
receive-IsSafe left m free h =
    let queue = refreshed m.queue m.queue in
    let was_active : Cleared m.active m.queue =
      Cleared-fewer (under_way m) m.active m.queue (λ id e. ground arith) h.cleared in
    let (cleared, same) = refreshed-Cleared m.active m.queue m.queue was_active in
    let once : Distinct ℕ_discrete (ids queue) = rw same h.once in
    let ready = received-AllReady m.queue h.ready in
    rw (update_jobs_lem m.queue) (
      hold-IsSafe (get_next_runnable queue) (startable m.queue m.queue)
        (rw (update_jobs_lem m.queue) at ready) (next-Cleared m.active queue once cleared)
        (rw (next-ids queue) once)
        (rw
          (same_submitted_ids (get_next_runnable queue).0 m.queue
            (next-flags queue ∙ refreshed-flags m.queue m.queue))
          h.apart))
  where
    hold-IsSafe :
        (r : List DockerJob × Option DockerJob) (started : List Uuid)
        → AllReady r.0
        → Cleared (chosen_ids r.1 ++ m.active) r.0
        → Distinct ℕ_discrete (ids r.0)
        → Distinct String_discrete (submitted_ids r.0)
        → IsSafe (hold left started r m)
    hold-IsSafe (q, none) started ready cleared once apart = record {
      ready = ready;
      cleared = rw free cleared;
      once = once;
      apart = apart;
    }
    hold-IsSafe (q, some j) started ready cleared once apart = record {
      ready = ready;
      cleared = cleared;
      once = once;
      apart = apart;
    }

start-under_way :
    (id : Uuid) (k : ℕ) (m : Manager)
    → m.held ≡ some (id, k)
    → under_way m ≡ under_way (launch id k m)
unfolding launch
start-under_way id k m held = ground (arith, held)

-- Every step that makes no finished job unfinished keeps a state safe.
pub Step-IsSafe : {m n : Manager} → (step : Step m n) → Advances step → IsSafe m → IsSafe n
unfolding add_job launch report finish reorder
Step-IsSafe {m} (submit djob s new) a h = rw (add-snoc djob m.queue new.fresh_id) (record {
  ready = snoc-IsReady djob m.queue m.queue s new.not_awaited h.ready;
  cleared = Cleared-snoc (under_way m) m.queue djob new.fresh_run h.cleared;
  once = rw (ids-snoc m.queue djob) (
      Distinct-snoc ℕ_discrete (ids m.queue) djob.job.id
        (absent-ids djob.job.id m.queue new.fresh_id) h.once);
  apart = rw (submitted_ids-snoc m.queue djob) (
      Distinct-snoc String_discrete (submitted_ids m.queue) djob.submitted_job_id
        new.fresh_submitted_id h.apart);
})
Step-IsSafe {m} (hear left free one) a h = receive-IsSafe left m free h
Step-IsSafe {m} (start id k held room) a h = record {
  ready = h.ready;
  cleared = subst (λ active. Cleared active m.queue) (start-under_way id k m held) h.cleared;
  once = h.once;
  apart = h.apart;
}
Step-IsSafe {m} (tell id s begun r) a h = record {
  ready = set_status-IsReady id s m.queue m.queue begun a h.ready;
  cleared = set_status-Cleared (under_way m) id s m.queue r h.cleared;
  once = rw (set_status-ids id s m.queue) h.once;
  apart = rw (set_status-submitted_ids id s m.queue) h.apart;
}
Step-IsSafe {m} (visit n) a h =
    let (once, apart) = swap_at-Distinct n m.queue h.once h.apart in
    record {
      ready = swap_at-AllReady n m.queue h.apart h.ready;
      cleared = swap_at-All _ n m.queue h.cleared;
      once = once;
      apart = apart;
    }
Step-IsSafe {m} (end id active) a h = record {
  ready = h.ready;
  cleared =
      Cleared-fewer (under_way m) (held_ids m.held ++ drop_active id m.active) m.queue
        (λ x e. ground (
          arith,
          has-append ℕ_discrete x (held_ids m.held) m.active,
          has-append ℕ_discrete x (held_ids m.held) (drop_active id m.active),
          drop_active-has id x m.active,
        ))
        h.cleared;
  once = h.once;
  apart = h.apart;
}

new_manager-IsSafe : (concurrency : ℕ) → IsSafe (new_manager concurrency)
unfolding new_manager
new_manager-IsSafe concurrency = record { ready = tt; cleared = tt; once = tt; apart = tt }

Reach-IsSafe : {m n : Manager} → IsSafe m → (r : Reach m n) → AllAdvance r → IsSafe n
Reach-IsSafe h here a = h
Reach-IsSafe h (then r step) a = Step-IsSafe step a.1 (Reach-IsSafe h r a.0)

-- In every state that a new manager comes to by steps of which none makes a finished job
-- unfinished, where each job that is submitted has ids that are new and that no job waits for: a
-- job that is runnable, being run or finished has no unfinished dependency in the queue, so that
-- every job of the queue that it depends on has succeeded or failed; and the jobs that hold a slot
-- or wait for one are such jobs. The order in which the queue is visited may change at every step,
-- and a job's status may be written when it has ended.
pub manager-IsSafe :
    (concurrency : ℕ) (m : Manager) (r : Reach (new_manager concurrency) m)
    → AllAdvance r
    → AllReady m.queue × IsOrdered m.queue × Cleared (under_way m) m.queue
manager-IsSafe concurrency m r a =
    let h = Reach-IsSafe (new_manager-IsSafe concurrency) r a in
    (h.ready, ready-IsOrdered m.queue h.apart h.ready, h.cleared)
