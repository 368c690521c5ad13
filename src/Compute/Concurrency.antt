-- ===== src/Compute/Concurrency.antt =====
-- cloudcompute.go: the ConcurrentRunner with which `RunParallel` submits its events. The semaphore,
-- a buffered channel, is the number of its full slots; a goroutine is the event that it submits. A
-- send on a full channel waits, that is, it is no step.
pub mod Bounded
pub mod Ends
use cloudcompute.Base.{
  ℕ, zero, suc, ◌-◌, ◌<◌, ◌≡◌, List, [], ◌∷◌, ◌++◌, Bool, true, false, ltb, cond,
}

-- `RunParallel` in its event loop, with the events that it will draw; in `Wait`, with the number of
-- slots that it has filled; or at its end.
pub data Caller (E : Type 0) : Type 0 where
  running : List E → Caller E
  waiting : ℕ → Caller E
  returned : Caller E

-- `active` are the goroutines that have not returned, `submitted` the events of those that have.
pub record ConcurrentRunner (E : Type 0) : Type 0 where
  pub limit : ℕ
  pub semaphore : ℕ
  pub caller : Caller E
  pub active : List E
  pub submitted : List E

module _ {E : Type 0} where
  -- `NewConcurrentRunner`, where the event loop will draw `events`.
  unfoldable pub new_concurrent_runner : ℕ → List E → ConcurrentRunner E
  new_concurrent_runner limit events = record {
    limit = limit;
    semaphore = 0;
    caller = running events;
    active = [];
    submitted = [];
  }

  -- `Run`: a slot is filled, and the goroutine starts.
  unfoldable pub run : E → List E → ConcurrentRunner E → ConcurrentRunner E
  run e events cr = record cr {
    semaphore = suc cr.semaphore;
    caller = running events;
    active = e ∷ cr.active;
  }

  -- The function of a goroutine, of those `before` and `after` it, has returned: the deferred
  -- function frees a slot.
  unfoldable pub leave : List E → E → List E → ConcurrentRunner E → ConcurrentRunner E
  leave before e after cr = record cr {
    semaphore = cr.semaphore - 1;
    active = before ++ after;
    submitted = e ∷ cr.submitted;
  }

  -- `Wait` fills slot `i`.
  unfoldable pub fill : ℕ → ConcurrentRunner E → ConcurrentRunner E
  fill i cr = record cr { semaphore = suc cr.semaphore; caller = waiting (suc i) }

  pub data Step (cr : ConcurrentRunner E) : ConcurrentRunner E → Type 0 where
    start :
        (e : E) (events : List E)
        → cr.caller ≡ running (e ∷ events)
        → cr.semaphore < cr.limit
        → Step cr (run e events cr)
    finish :
        (before : List E) (e : E) (after : List E)
        → cr.active ≡ before ++ e ∷ after
        → 0 < cr.semaphore
        → Step cr (leave before e after cr)
    wait : cr.caller ≡ running [] → Step cr (record cr { caller = waiting 0 })
    block :
        (i : ℕ)
        → cr.caller ≡ waiting i
        → i < cr.limit
        → cr.semaphore < cr.limit
        → Step cr (fill i cr)
    end :
        (i : ℕ)
        → cr.caller ≡ waiting i
        → ¬ (i < cr.limit)
        → Step cr (record cr { caller = returned })

  pub data Reach (cr : ConcurrentRunner E) : ConcurrentRunner E → Type 0 where
    here : Reach cr cr
    then : {a b : ConcurrentRunner E} → Reach cr a → Step a b → Reach cr b
