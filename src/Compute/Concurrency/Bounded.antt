-- ===== src/Compute/Concurrency/Bounded.antt =====
-- The bound of a ConcurrentRunner, and what holds when `Wait` returns.
use cloudcompute.Base.{ℕ, suc, ◌+◌, ◌≤◌, ◌≡◌, refl, ◌∙◌, List, [], ◌∷◌, ◌++◌, arith, length, count}
use cloudcompute.Compute.Concurrency.{
  Caller, running, waiting, returned, ConcurrentRunner, new_concurrent_runner, run, leave, fill,
  Step, start, finish, wait, block, end, Reach, here, then,
}

module _ {E : Type 0} where
  -- The slots that `Wait` has filled, of `limit`.
  abbrev pub filled : ℕ → Caller E → ℕ
  filled limit (running events) = 0
  filled limit (waiting i) = i
  filled limit returned = limit

  -- A full slot is that of a goroutine or of `Wait`, and no slot is filled beyond the limit.
  pub record IsBounded (limit : ℕ) (cr : ConcurrentRunner E) : Type 0 where
    pub same_limit : cr.limit ≡ limit
    pub slots : cr.semaphore ≡ length cr.active + filled limit cr.caller
    pub bound : cr.semaphore ≤ limit

  pub length-middle :
      (before : List E) (e : E) (after : List E)
      → length (before ++ e ∷ after) ≡ suc (length (before ++ after))
  length-middle [] e after = refl
  length-middle (b ∷ before) e after = omega (arith, length-middle before e after)

  Step-IsBounded :
      (limit : ℕ) (a b : ConcurrentRunner E) → Step a b → IsBounded limit a → IsBounded limit b
  unfolding run leave fill
  Step-IsBounded limit a b (start e rest c room) h = record {
    same_limit = h.same_limit;
    slots = ground (arith, h.slots, c);
    bound = ground (arith, room, h.same_limit);
  }
  Step-IsBounded limit a b (finish before e after split pos) h = record {
    same_limit = h.same_limit;
    slots = ground (arith, h.slots, split, length-middle before e after, pos);
    bound = ground (arith, h.bound);
  }
  Step-IsBounded limit a b (wait c) h = record {
    same_limit = h.same_limit;
    slots = ground (arith, h.slots, c);
    bound = h.bound;
  }
  Step-IsBounded limit a b (block i c more room) h = record {
    same_limit = h.same_limit;
    slots = ground (arith, h.slots, c);
    bound = ground (arith, room, h.same_limit);
  }
  Step-IsBounded limit a b (end i c full) h = record {
    same_limit = h.same_limit;
    slots = ground (arith, h.slots, h.bound, h.same_limit, c, full);
    bound = h.bound;
  }

  Reach-IsBounded :
      (limit : ℕ) (a b : ConcurrentRunner E) → Reach a b → IsBounded limit a → IsBounded limit b
  Reach-IsBounded limit a b here h = h
  Reach-IsBounded limit a b (then {a = c} r step) h =
      Step-IsBounded limit c b step (Reach-IsBounded limit a c r h)

  pub reached-IsBounded :
      (limit : ℕ) (events : List E) (cr : ConcurrentRunner E)
      → Reach (new_concurrent_runner limit events) cr
      → IsBounded limit cr
  reached-IsBounded limit events cr r =
      Reach-IsBounded limit (new_concurrent_runner limit events) cr r (
        unfold new_concurrent_runner in
        record { same_limit = refl; slots = refl; bound = omega arith })

  none_active : (active : List E) → length active ≤ 0 → active ≡ []
  none_active [] h = refl
  none_active (e ∷ active) h = absurd (omega (arith, h))

module _ {E : Type 0} (eq : Discrete E) where
  abbrev remaining : Caller E → List E
  remaining (running events) = events
  remaining (waiting i) = []
  remaining returned = []

  -- How often an event is still to come, being submitted or submitted.
  abbrev times : E → ConcurrentRunner E → ℕ
  times e cr = count eq e (remaining cr.caller) + count eq e cr.active + count eq e cr.submitted

  count-middle :
      (x : E) (before : List E) (e : E) (after : List E)
      → count eq x (before ++ e ∷ after) ≡ count eq x (e ∷ before ++ after)
  count-middle x [] e after = refl
  count-middle x (b ∷ before) e after = ground (arith, count-middle x before e after)

  Step-times : (x : E) (a b : ConcurrentRunner E) → Step a b → times x b ≡ times x a
  unfolding run leave fill
  Step-times x a b (start e rest c room) = ground (arith, c)
  Step-times x a b (finish before e after split pos) =
      ground (arith, split, count-middle x before e after)
  Step-times x a b (wait c) = ground (arith, c)
  Step-times x a b (block i c more room) = ground (arith, c)
  Step-times x a b (end i c full) = ground (arith, c)

  Reach-times : (x : E) (a b : ConcurrentRunner E) → Reach a b → times x b ≡ times x a
  Reach-times x a b here = refl
  Reach-times x a b (then {a = c} r step) = Step-times x c b step ∙ Reach-times x a c r

  -- A runner never has more goroutines than its limit; and when `Wait` has returned, it has none,
  -- and each event that the loop drew has been submitted, as often as it was drawn.
  pub runner-IsBounded :
      (limit : ℕ) (events : List E) (cr : ConcurrentRunner E)
      → Reach (new_concurrent_runner limit events) cr
      → (length cr.active ≤ limit)
        × (cr.caller ≡ returned
            → (cr.active ≡ []) × ((e : E) → count eq e cr.submitted ≡ count eq e events))
  unfolding new_concurrent_runner
  runner-IsBounded limit events cr r =
      let h = reached-IsBounded limit events cr r in
      (
        omega (arith, h.slots, h.bound),
        λ e.
            let gone : cr.active ≡ [] =
              none_active cr.active (ground (arith, e, h.slots, h.bound)) in
            (
              gone,
              λ x. ground (arith, Reach-times x (new_concurrent_runner limit events) cr r, gone, e),
            ),
      )
