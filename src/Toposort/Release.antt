-- ===== src/Toposort/Release.antt =====
-- The inner loop of `TopologicalSort`: taking away the edges of a popped node.
use cloudcompute.Base.{
  suc, ◌+◌, ◌≤◌, ◌≡◌, List, [], ◌∷◌, Bool, true, false, ◌||◌, ◌&&◌, cond, arith, has, count, length,
  Distinct,
}
use cloudcompute.Base.Int.{ℤ, pos, decrement, is_zero}
use cloudcompute.Base.Maps.{Map, keys, get_or, update, get_or-update, update-Distinct}
use cloudcompute.Toposort.{Digraph, release}
use cloudcompute.Toposort.Weights.{is_node, is_target, into}

module _ {T : Type 0} (eq : Discrete T) (g : Digraph T) (order : List T) where
  -- What holds of the indegrees `m` and the stack, with the edges to `vs` still to be taken away:
  -- each node of indegree 0 is ordered or on the stack, once.
  pub record Pending (vs : List T) (m : Map T ℤ) (queue : List T) : Type 0 where
    pub degrees : (v : T) → get_or eq (pos 0) v m ≡ pos (into eq v order g + count eq v vs)
    pub free :
        (v : T)
        → (has eq v order || has eq v queue) ≡ (is_node eq v g && is_zero (get_or eq (pos 0) v m))
    pub once : Distinct eq queue
    pub apart : (v : T) → (has eq v order && has eq v queue) ≡ false
    pub keys_once : Distinct eq (keys m)

  pub release-Pending :
      (vs : List T) (m : Map T ℤ) (queue : List T)
      → ((v : T) → has eq v vs ≡ true → is_target eq v g ≡ true)
      → Pending vs m queue
      → Pending [] (release eq vs m queue).0 (release eq vs m queue).1
  unfolding release
  release-Pending [] m queue known h = h
  release-Pending (v ∷ vs) m queue known h =
      release-Pending vs _ _ (λ x e. known x (ground arith))
        (record {
          degrees = λ x. ground (arith, h.degrees x, get_or-update eq (pos 0) decrement v x m);
          free = λ x. ground (
            arith,
            h.degrees x,
            h.free x,
            get_or-update eq (pos 0) decrement v x m,
            known v,
            get_or-update eq (pos 0) decrement v v m,
            h.degrees v,
            h.free v,
          );
          once = ground (arith, h.once, h.degrees v, h.free v);
          apart = λ x. ground (arith, h.apart x, h.degrees v, h.free v);
          keys_once = update-Distinct eq (pos 0) decrement v m h.keys_once;
        })

module _ {T : Type 0} (eq : Discrete T) where
  length-push :
      (b : Bool) (v : T) (queue : List T) → length (cond b (v ∷ queue) queue) ≤ suc (length queue)
  length-push true v queue = omega arith
  length-push false v queue = omega arith

  pub length-release :
      (vs : List T) (m : Map T ℤ) (queue : List T)
      → length (release eq vs m queue).1 ≤ length vs + length queue
  unfolding release
  length-release [] m queue = omega arith
  length-release (v ∷ vs) m queue =
      let m' = update eq (pos 0) decrement v m in
      let released = is_zero (get_or eq (pos 0) v m') in
      omega (
        arith,
        length-release vs m' (cond released (v ∷ queue) queue),
        length-push released v queue,
      )
