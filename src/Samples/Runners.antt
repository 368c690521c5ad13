-- ===== src/Samples/Runners.antt =====
-- Two events that are submitted one after the other.
use cloudcompute.Base.{ℕ, ◌≡◌, ◌≤◌, ◌<◌, refl, List, [], ◌∷◌, ℕ_discrete, arith, length, count, ◌⊎◌}
use cloudcompute.Compute.Concurrency.{
  ConcurrentRunner, returned, new_concurrent_runner, run, leave, Step, start, finish, Reach, here,
  then,
}
use cloudcompute.Compute.Concurrency.Bounded.{runner-IsBounded}
use cloudcompute.Compute.Concurrency.Ends.{HasStep, steps_left, runner-ends}

abbrev events : List ℕ
events = 1 ∷ 2 ∷ []

abbrev first_done : ConcurrentRunner ℕ
first_done = leave [] 1 [] (run 1 (2 ∷ []) (new_concurrent_runner 1 events))

first_done-Reach : Reach (new_concurrent_runner 1 events) first_done
unfolding new_concurrent_runner run
first_done-Reach =
    then (then here (start 1 (2 ∷ []) refl (omega arith))) (finish [] 1 [] refl (omega arith))

runner-IsBounded_example :
    (length first_done.active ≤ 1)
    × (first_done.caller ≡ returned
        → (first_done.active ≡ [])
          × ((e : ℕ) → count ℕ_discrete e first_done.submitted ≡ count ℕ_discrete e events))
runner-IsBounded_example = runner-IsBounded ℕ_discrete 1 events first_done first_done-Reach

runner-ends_example :
    ((first_done.caller ≡ returned) ⊎ HasStep first_done)
    × ((next : ConcurrentRunner ℕ) → Step first_done next → steps_left next < steps_left first_done)
runner-ends_example = runner-ends 1 events first_done (omega arith) first_done-Reach
