-- ===== src/Toposort/Indegrees.antt =====
-- The first two loops of `TopologicalSort`: the indegrees and the nodes that start on the stack.
use cloudcompute.Base.{
  ℕ, ◌+◌, ◌≤◌, ◌≡◌, refl, List, [], ◌∷◌, false, ◌||◌, ◌&&◌, cond, arith, has, count, length,
  Distinct, Bool-cases, inl, inr, not, count_pos, count-zero,
}
use cloudcompute.Base.Int.{ℤ, pos, increment, is_positive}
use cloudcompute.Base.Maps.{
  Map, keys, get_or, update, get_or-update, update-Distinct, has-keys-update,
}
use cloudcompute.Toposort.{Digraph, count_targets, count_indegrees, initial_queue}
use cloudcompute.Toposort.Weights.{is_target, into}

module _ {T : Type 0} (eq : Discrete T) where
  -- A map of counters, each as high as `f` says, with an entry for each that is positive.
  pub record Counts (f : T → ℕ) (m : Map T ℤ) : Type 0 where
    pub value : (v : T) → get_or eq (pos 0) v m ≡ pos (f v)
    pub entry : (v : T) → has eq v (keys m) ≡ is_positive (pos (f v))
    pub keys_once : Distinct eq (keys m)

  count_targets-Counts :
      (f : T → ℕ) (vs : List T) (m : Map T ℤ)
      → Counts f m
      → Counts (λ v. f v + count eq v vs) (count_targets eq vs m)
  unfolding count_targets
  count_targets-Counts f [] m h = record {
    value = λ v. ground (arith, h.value v);
    entry = λ v. ground (arith, h.entry v);
    keys_once = h.keys_once;
  }
  count_targets-Counts f (x ∷ vs) m h =
      let next =
        count_targets-Counts (λ v. f v + count eq v (x ∷ [])) vs (update eq (pos 0) increment x m)
          (record {
            value = λ v. ground (arith, h.value v, get_or-update eq (pos 0) increment x v m);
            entry = λ v. ground (arith, h.entry v, has-keys-update eq (pos 0) increment x v m);
            keys_once = update-Distinct eq (pos 0) increment x m h.keys_once;
          }) in
      record {
        value = λ v. ground (arith, next.value v);
        entry = λ v. ground (arith, next.entry v);
        keys_once = next.keys_once;
      }

  count_indegrees-Counts :
      (f : T → ℕ) (g : Digraph T) (m : Map T ℤ)
      → Counts f m
      → Counts (λ v. f v + into eq v [] g) (count_indegrees eq g m)
  unfolding count_indegrees
  count_indegrees-Counts f [] m h = record {
    value = λ v. ground (arith, h.value v);
    entry = λ v. ground (arith, h.entry v);
    keys_once = h.keys_once;
  }
  count_indegrees-Counts f ((u, vs) ∷ g) m h =
      let next =
        count_indegrees-Counts (λ v. f v + count eq v vs) g _ (count_targets-Counts f vs m h) in
      record {
        value = λ v. ground (arith, next.value v);
        entry = λ v. ground (arith, next.entry v);
        keys_once = next.keys_once;
      }

  -- The first loop counts the edges into each node.
  pub indegrees-Counts : (g : Digraph T) → Counts (λ v. into eq v [] g) (count_indegrees eq g [])
  indegrees-Counts g =
      let next =
        count_indegrees-Counts (λ _. 0) g []
          (record { value = λ v. refl; entry = λ v. refl; keys_once = tt }) in
      record {
        value = λ v. ground (arith, next.value v);
        entry = λ v. ground (arith, next.entry v);
        keys_once = next.keys_once;
      }

  -- The keys with no edge into them are pushed, each once.
  pub record Queued (m : Map T ℤ) (g : Digraph T) (queue result : List T) : Type 0 where
    pub members :
        (v : T)
        → has eq v result ≡ (has eq v queue || (has eq v (keys g) && not (has eq v (keys m))))
    pub once : Distinct eq result

  pub initial_queue-Queued :
      (m : Map T ℤ) (g : Digraph T) (queue : List T)
      → Distinct eq (keys g)
      → Distinct eq queue
      → ((v : T) → (has eq v queue && has eq v (keys g)) ≡ false)
      → Queued m g queue (initial_queue eq m g queue)
  unfolding initial_queue
  initial_queue-Queued m [] queue d once apart = record { members = λ v. ground arith; once = once }
  initial_queue-Queued m ((u, vs) ∷ g) queue d once apart =
      let next =
        initial_queue-Queued m g (cond (has eq u (keys m)) queue (u ∷ queue)) d.1
          (ground (arith, apart u)) (λ v. ground (arith, apart v)) in
      record { members = λ v. ground (arith, next.members v); once = next.once }

  pub length-initial_queue :
      (m : Map T ℤ) (g : Digraph T) (queue : List T)
      → length (initial_queue eq m g queue) ≤ length g + length queue
  unfolding initial_queue
  length-initial_queue m [] queue = omega arith
  length-initial_queue m ((u, vs) ∷ g) queue = elim (Bool-cases (has eq u (keys m))) [
    | inl e ↦ rw e (omega (arith, length-initial_queue m g queue))
    | inr e ↦ rw e (omega (arith, length-initial_queue m g (u ∷ queue)))
  ]

  -- A target is a node that an edge leads into.
  pub is_target-into :
      (v : T) (g : Digraph T) → is_target eq v g ≡ is_positive (pos (into eq v [] g))
  is_target-into v [] = refl
  is_target-into v ((u, vs) ∷ g) =
      ground (arith, is_target-into v g, count_pos eq v vs, count-zero eq v vs)
