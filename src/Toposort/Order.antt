-- ===== src/Toposort/Order.antt =====
-- `TopologicalSort` as a whole: what the returned order and the error mean.
use cloudcompute.Base.{
  ℕ, zero, suc, ◌+◌, ◌≤◌, ◌<◌, ◌≡◌, ◌↔◌, ◌≢◌, refl, [], ◌∷◌, true, false, ◌&&◌, arith, has, count,
  length, Distinct, Bool-cases, inl, inr, none, some,
}
use cloudcompute.Base.Int.{ℤ, pos, is_zero, is_positive}
use cloudcompute.Base.Maps.{Map, keys, get_or}
use cloudcompute.Toposort.{
  Digraph, not_a_dag, any_positive, sorted, rounds_bound, topological_sort, count_indegrees,
  initial_queue,
}
use cloudcompute.Toposort.Weights.{is_node, into, left, into_pos_pred, weigh-le, successor-node}
use cloudcompute.Toposort.Indegrees.{
  indegrees-Counts, initial_queue-Queued, length-initial_queue, is_target-into,
}
use cloudcompute.Toposort.Acyclic.{HasEdge, IsAcyclic, edge-rises, rises-All}
use cloudcompute.Toposort.Positions.{index}
use cloudcompute.Toposort.Loop.{Inv, IsOrdered, main_loop-Inv}

module _ {T : Type 0} (eq : Discrete T) where
  any_positive-get :
      (v : T) (m : Map T ℤ) → any_positive m ≡ false → is_positive (get_or eq (pos 0) v m) ≡ false
  unfolding any_positive
  any_positive-get v [] h = refl
  any_positive-get v ((x, d) ∷ m) h = ground (arith, any_positive-get v m)

  any_positive-none :
      (m : Map T ℤ)
      → Distinct eq (keys m)
      → ((v : T) → has eq v (keys m) ≡ true → is_positive (get_or eq (pos 0) v m) ≡ false)
      → any_positive m ≡ false
  unfolding any_positive
  any_positive-none [] d h = refl
  any_positive-none ((x, n) ∷ m) d h =
      ground (arith, h x, any_positive-none m d.1 (λ v e. ground (arith, h v)))

  rounds_bound-enough : (g : Digraph T) → length g + left eq [] g ≤ rounds_bound g
  unfolding rounds_bound
  rounds_bound-enough [] = omega arith
  rounds_bound-enough ((u, vs) ∷ g) = omega (arith, rounds_bound-enough g)

  module _ (g : Digraph T) (keys_once : Distinct eq (keys g)) where
    initial-Inv : (let m = count_indegrees eq g [] in Inv eq g m (initial_queue eq m g []) [])
    initial-Inv =
        let m = count_indegrees eq g [] in
        let c = indegrees-Counts eq g in
        let q = initial_queue-Queued eq m g [] keys_once tt (λ v. refl) in
        record {
          pending = record {
            degrees = λ v. ground (arith, c.value v);
            free = λ v. ground (arith, c.value v, c.entry v, q.members v, is_target-into eq v g);
            once = q.once;
            apart = λ v. refl;
            keys_once = c.keys_once;
          };
          sorted = λ u v e h. cc;
          once = tt;
        }

    pub sorted-Inv : (let p = sorted eq g in Inv eq g p.indegrees [] p.order × (p.queue ≡ []))
    unfolding sorted
    sorted-Inv =
        let m = count_indegrees eq g [] in
        main_loop-Inv eq g (rounds_bound g) m (initial_queue eq m g []) [] keys_once
          (omega (arith, length-initial_queue eq m g [], rounds_bound-enough g)) initial-Inv

    -- A node is ordered exactly when its indegree has come down to 0.
    ordered_iff :
        (v : T)
        → (let p = sorted eq g in
            has eq v p.order ≡ (is_node eq v g && is_zero (get_or eq (pos 0) v p.indegrees)))
    ordered_iff v = ground (arith, sorted-Inv.0.pending.free v)

    -- With a rank that rises along the edges, every node is ordered.
    ranked_ordered :
        (rank : T → ℕ)
        → ((u v : T) → has eq v (get_or eq [] u g) ≡ true → rank u < rank v)
        → (bound : ℕ) (v : T) → rank v < bound
        → is_node eq v g ≡ true
        → has eq v (sorted eq g).order ≡ true
    ranked_ordered rank rises zero v low node = absurd (omega arith)
    ranked_ordered rank rises (suc bound) v low node =
        elim (Bool-cases (has eq v (sorted eq g).order)) [
          | inl done ↦ done
          | inr todo ↦
              let p = sorted eq g in
              let left_over : into eq v p.order g ≢ 0 =
                λ z. ground (arith, z, ordered_iff v, sorted-Inv.0.pending.degrees v) in
              let (u, known, edge, pred_todo) = into_pos_pred eq v p.order g keys_once left_over in
              let pred_done : has eq u p.order ≡ true =
                ranked_ordered rank rises bound u (omega (arith, rises u v edge)) (ground arith) in
              cc (pred_done, pred_todo)
        ]

    -- On success every indegree has come down to 0.
    success_zero :
        (topological_sort eq g).1 ≡ none → (v : T) → has eq v (sorted eq g).order ≡ is_node eq v g
    unfolding topological_sort
    success_zero ok v = ground (
      arith,
      ordered_iff v,
      sorted-Inv.0.pending.degrees v,
      any_positive-get v (sorted eq g).indegrees,
    )

    ranked_success :
        (rank : T → ℕ)
        → ((u v : T) → has eq v (get_or eq [] u g) ≡ true → rank u < rank v)
        → (topological_sort eq g).1 ≡ none
    unfolding topological_sort
    ranked_success rank rises =
        let p = sorted eq g in
        let none_left : (v : T)
            → has eq v (keys p.indegrees) ≡ true
            → is_positive (get_or eq (pos 0) v p.indegrees) ≡ false =
          λ v e. elim (Bool-cases (is_node eq v g)) [
            | inl node ↦ ground (arith, ordered_iff v, ranked_ordered rank rises (suc (rank v)) v)
            | inr other ↦ ground (
              arith,
              sorted-Inv.0.pending.degrees v,
              is_target-into eq v g,
              weigh-le eq (count eq v) p.order g,
            )
          ] in
        rw (any_positive-none p.indegrees sorted-Inv.0.pending.keys_once none_left)

  pub topological_sort_sound :
      (g : Digraph T)
      → Distinct eq (keys g)
      → (let (order, err) = topological_sort eq g in
          IsOrdered eq g order
          × Distinct eq order
          × (err ≡ none → (v : T) → has eq v order ≡ is_node eq v g))
  unfolding topological_sort
  topological_sort_sound g d =
      let inv = (sorted-Inv g d).0 in (inv.sorted, inv.once, success_zero g d)

  -- For every order in which Go may visit the map, and also where "not a DAG" is returned: the
  -- nodes returned stand once each, and where an edge ends in one, the node in which the edge
  -- starts is returned too, at an earlier position.
  pub topological_sort_order :
      (g : Digraph T) (u v : T)
      → Distinct eq (keys g)
      → HasEdge eq g u v
      → has eq v (topological_sort eq g).0 ≡ true
      → (let order = (topological_sort eq g).0 in
          Distinct eq order × (has eq u order ≡ true) × (index eq u order < index eq v order))
  topological_sort_order g u v d edge placed =
      let (ordered, once, complete) = topological_sort_sound g d in
      let (known, lt) = ordered u v edge placed in (once, known, lt)

  -- Where `TopologicalSort` returns no error, it returns exactly the nodes of the graph: those that
  -- an edge starts or ends in, and those with an entry of their own.
  pub topological_sort_complete :
      (g : Digraph T) (v : T)
      → Distinct eq (keys g)
      → (topological_sort eq g).1 ≡ none
      → has eq v (topological_sort eq g).0 ≡ is_node eq v g
  topological_sort_complete g v d ok =
      let (ordered, once, complete) = topological_sort_sound g d in complete ok v

  success-IsAcyclic :
      (g : Digraph T) → Distinct eq (keys g) → (topological_sort eq g).1 ≡ none → IsAcyclic eq g
  unfolding topological_sort
  success-IsAcyclic g d ok =
      let order = (sorted eq g).order in
      (
        λ v. index eq v order,
        rises-All eq (λ v. index eq v order) g d
            (λ u v edge.
              ((sorted-Inv g d).0.sorted u v edge
                (ground (arith, success_zero g d ok v, successor-node eq u v g))).1),
      )

  -- `TopologicalSort` reports no error exactly when the graph is acyclic: some rank rises along
  -- every edge.
  pub topological_sort-IsAcyclic :
      (g : Digraph T) → Distinct eq (keys g) → ((topological_sort eq g).1 ≡ none) ↔ IsAcyclic eq g
  topological_sort-IsAcyclic g d =
      (success-IsAcyclic g d, λ (rank, rises). ranked_success g d rank (edge-rises eq rank g rises))

  pub topological_sort_cyclic :
      (g : Digraph T)
      → Distinct eq (keys g)
      → ¬ IsAcyclic eq g
      → (topological_sort eq g).1 ≡ some not_a_dag
  unfolding topological_sort
  topological_sort_cyclic g d cyclic = elim (Bool-cases (any_positive (sorted eq g).indegrees)) [
    | inl positive ↦ rw positive refl
    | inr ok ↦ absurd (cyclic (success-IsAcyclic g d (rw ok refl)))
  ]

  -- Whether "not a DAG" is reported does not depend on the order in which the map is visited.
  pub topological_sort_order_free :
      (g h : Digraph T)
      → Distinct eq (keys g)
      → Distinct eq (keys h)
      → ((u : T) → get_or eq [] u g ≡ get_or eq [] u h)
      → ((topological_sort eq g).1 ≡ none) ↔ ((topological_sort eq h).1 ≡ none)
  topological_sort_order_free g h dg dh same = (
    λ ok.
        let (rank, rises) = success-IsAcyclic g dg ok in
        ranked_success h dh rank (λ u v e. edge-rises eq rank g rises u v (rw (same u) e)),
    λ ok.
        let (rank, rises) = success-IsAcyclic h dh ok in
        ranked_success g dg rank (λ u v e. edge-rises eq rank h rises u v (rw (← same u) e)),
  )

  -- The main loop ends by its own test: the stack is empty after as many rounds as the fuel allows,
  -- one for each key and each edge.
  pub sorted_terminates : (g : Digraph T) → Distinct eq (keys g) → (sorted eq g).queue ≡ []
  sorted_terminates g d = (sorted-Inv g d).1
