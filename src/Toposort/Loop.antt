-- ===== src/Toposort/Loop.antt =====
-- The main loop of `TopologicalSort`: its invariant, and that the fuel is enough.
use cloudcompute.Base.{
  ℕ, zero, suc, ◌+◌, ◌≤◌, ◌<◌, ◌≡◌, refl, List, [], ◌∷◌, ◌++◌, true, false, arith, has, has-append,
  count, length, Distinct, Bool-cases, inl, inr,
}
use cloudcompute.Base.Int.{ℤ}
use cloudcompute.Base.Maps.{Map, keys, get_or}
use cloudcompute.Toposort.{Digraph, release, main_loop}
use cloudcompute.Toposort.Weights.{into, left, weigh-snoc, into-zero_done, successor-node}
use cloudcompute.Toposort.Release.{Pending, release-Pending, length-release}
use cloudcompute.Toposort.Positions.{
  Distinct-snoc, index, index-snoc_of_has, index-snoc_absent, index-lt,
}

module _ {T : Type 0} (eq : Discrete T) (g : Digraph T) where
  -- Every edge into an ordered node comes from a node that is ordered before it.
  abbrev pub IsOrdered : List T → Type 0
  IsOrdered order =
      (u v : T)
      → has eq v (get_or eq [] u g) ≡ true
      → has eq v order ≡ true
      → (has eq u order ≡ true) × (index eq u order < index eq v order)

  IsOrdered-snoc :
      (order : List T) (x : T)
      → has eq x order ≡ false
      → into eq x order g ≡ 0
      → IsOrdered order
      → IsOrdered (order ++ x ∷ [])
  IsOrdered-snoc order x new free h u v edge now = elim (Bool-cases (has eq v order)) [
    | inl old ↦
        let (seen, before) = h u v edge old in
        (
          ground (arith, has-append eq u order (x ∷ [])),
          omega (arith, index-snoc_of_has eq u order x seen, index-snoc_of_has eq v order x old),
        )
    | inr fresh ↦
        let same : v ≡ x = ground (arith, has-append eq v order (x ∷ [])) in
        let seen = into-zero_done eq u x order g free (rw same at edge) in
        (
          ground (arith, has-append eq u order (x ∷ [])),
          rw same (
              omega (
                arith,
                index-snoc_of_has eq u order x seen,
                index-snoc_absent eq x order new,
                index-lt eq u order seen,
              )),
        )
  ]

  -- The invariant between two rounds.
  pub record Inv (m : Map T ℤ) (queue order : List T) : Type 0 where
    pub pending : Pending eq g order [] m queue
    pub sorted : IsOrdered order
    pub once : Distinct eq order

  -- Popping `u` puts its edges on the list of those to be taken away.
  pop-Pending :
      (m : Map T ℤ) (u : T) (queue order : List T)
      → Distinct eq (keys g)
      → Inv m (u ∷ queue) order
      → Pending eq g (order ++ u ∷ []) (get_or eq [] u g) m queue
  pop-Pending m u queue order d h = record {
    degrees = λ v. ground (
      arith,
      h.pending.degrees v,
      weigh-snoc eq (count eq v) order u g refl d,
      h.pending.apart u,
    );
    free = λ v. ground (arith, h.pending.free v, has-append eq v order (u ∷ []));
    once = h.pending.once.1;
    apart =
        λ v. ground (arith, h.pending.apart v, has-append eq v order (u ∷ []), h.pending.once.0);
    keys_once = h.pending.keys_once;
  }

  round-Inv :
      (m : Map T ℤ) (u : T) (queue order : List T)
      → Distinct eq (keys g)
      → Inv m (u ∷ queue) order
      → (let (m', queue') = release eq (get_or eq [] u g) m queue in
          Inv m' queue' (order ++ u ∷ []))
  round-Inv m u queue order d h =
      let fresh : has eq u order ≡ false = ground (arith, h.pending.apart u) in
      record {
        pending =
            release-Pending eq g (order ++ u ∷ []) (get_or eq [] u g) m queue
              (λ v. successor-node eq u v g) (pop-Pending m u queue order d h);
        sorted =
            IsOrdered-snoc order u fresh (ground (arith, h.pending.degrees u, h.pending.free u))
              h.sorted;
        once = Distinct-snoc eq order u fresh h.once;
      }

  -- With a round left for each stacked node and each edge left, the loop empties the stack.
  pub main_loop-Inv :
      (fuel : ℕ) (m : Map T ℤ) (queue order : List T)
      → Distinct eq (keys g)
      → length queue + left eq order g ≤ fuel
      → Inv m queue order
      → (let p = main_loop eq fuel g m queue order in Inv p.indegrees [] p.order × (p.queue ≡ []))
  unfolding main_loop
  main_loop-Inv fuel m [] order d enough h = (h, refl)
  main_loop-Inv zero m (u ∷ queue) order d enough h = absurd (omega arith)
  main_loop-Inv (suc fuel) m (u ∷ queue) order d enough h =
      let (m', queue') = release eq (get_or eq [] u g) m queue in
      let fresh : has eq u order ≡ false = ground (arith, h.pending.apart u) in
      main_loop-Inv fuel m' queue' (order ++ u ∷ []) d
        (omega (
          arith,
          length-release eq (get_or eq [] u g) m queue,
          weigh-snoc eq length order u g refl d fresh,
        ))
        (round-Inv m u queue order d h)
