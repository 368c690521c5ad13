-- ===== src/Compute/Concurrency/Ends.antt =====
-- Every run of a ConcurrentRunner ends.
use cloudcompute.Base.{
  ℕ, ◌+◌, ◌-◌, ◌*◌, ◌<◌, ◌≡◌, refl, List, [], ◌∷◌, arith, length, ◌⊎◌, inl, inr, dec_lt,
}
use cloudcompute.Compute.Concurrency.{
  Caller, running, waiting, returned, ConcurrentRunner, new_concurrent_runner, run, leave, fill,
  Step, start, finish, wait, block, end, Reach,
}
use cloudcompute.Compute.Concurrency.Bounded.{reached-IsBounded, length-middle, filled}

module _ {E : Type 0} where
  -- The steps that are left to the caller and to the goroutines that it will start.
  abbrev to_do : ℕ → Caller E → ℕ
  to_do limit (running events) = 2 * length events + (limit + 2)
  to_do limit (waiting i) = limit - i + 1
  to_do limit returned = 0

  abbrev pub steps_left : ConcurrentRunner E → ℕ
  steps_left cr = to_do cr.limit cr.caller + length cr.active

  pub Step-steps_left : (a b : ConcurrentRunner E) → Step a b → steps_left b < steps_left a
  unfolding run leave fill
  Step-steps_left a b (start e events c room) = ground (arith, c)
  Step-steps_left a b (finish before e after split pos) =
      ground (arith, split, length-middle before e after)
  Step-steps_left a b (wait c) = ground (arith, c)
  Step-steps_left a b (block i c more room) = ground (arith, c)
  Step-steps_left a b (end i c full) = ground (arith, c)

  abbrev pub HasStep : ConcurrentRunner E → Type 0
  HasStep cr = (next : ConcurrentRunner E) × Step cr next

  -- A slot is free, or a goroutine holds one.
  step :
      (cr : ConcurrentRunner E) (active : List E) (caller : Caller E)
      → cr.active ≡ active
      → cr.caller ≡ caller
      → 0 < cr.limit
      → cr.semaphore ≡ length active + filled cr.limit caller
      → (caller ≡ returned) ⊎ HasStep cr
  step cr (e ∷ active) c a b pos slots = inr (_, finish [] e active a (omega (arith, slots)))
  step cr [] returned a b pos slots = inl refl
  step cr [] (running []) a b pos slots = inr (_, wait b)
  step cr [] (running (e ∷ events)) a b pos slots =
      inr (_, start e events b (omega (arith, slots, pos)))
  step cr [] (waiting i) a b pos slots = elim (dec_lt i cr.limit) [
    | yes more ↦ inr (_, block i b more (omega (arith, slots, more)))
    | no full ↦ inr (_, end i b full)
  ]

  -- A run of a runner with a positive limit ends: as long as `Wait` has not returned, the caller or
  -- a goroutine has a step, whatever the interleaving was so far, and each step leaves fewer.
  pub runner-ends :
      (limit : ℕ) (events : List E) (cr : ConcurrentRunner E)
      → 0 < limit
      → Reach (new_concurrent_runner limit events) cr
      → ((cr.caller ≡ returned) ⊎ HasStep cr)
        × ((next : ConcurrentRunner E) → Step cr next → steps_left next < steps_left cr)
  runner-ends limit events cr pos r =
      let h = reached-IsBounded limit events cr r in
      (
        step cr cr.active cr.caller refl refl (rw h.same_limit pos) (rw h.same_limit h.slots),
        λ next s. Step-steps_left cr next s,
      )
