-- ===== src/Toposort/Graph.antt =====
-- depsToGraph: the map from a node to the nodes that depend on it.
use cloudcompute.Base.{
  ℕ, suc, ◌≡◌, List, [], ◌∷◌, ◌++◌, Bool, false, ◌||◌, arith, has, count, Distinct, ◌∙◌, ap, sym,
  append-nil, append_assoc, replicate,
}
use cloudcompute.Base.Maps.{keys, get_or, update, get_or-update, update-Distinct, has-keys-update}
use cloudcompute.Toposort.{TopoSortable, Digraph, add_edges, deps_to_graph_from, deps_to_graph}

module _ {T : Type 0} (eq : Discrete T) where
  -- The nodes that name `d` among their dependencies, as often as they name it, in input order.
  abbrev pub dependents : T → List (TopoSortable T) → List T
  dependents d [] = []
  dependents d (m ∷ ms) = replicate (count eq d m.deps) m.node ++ dependents d ms

  -- Some node names `d` among its dependencies.
  abbrev pub is_dependency : T → List (TopoSortable T) → Bool
  is_dependency d [] = false
  is_dependency d (m ∷ ms) = has eq d m.deps || is_dependency d ms

  append_push :
      (xs : List T) (x : T) (k : ℕ) → (xs ++ x ∷ []) ++ replicate k x ≡ xs ++ replicate (suc k) x
  append_push xs x k = append_assoc xs (x ∷ []) (replicate k x)

  get_or-add_edges :
      (d node : T) (ds : List T) (g : Digraph T)
      → get_or eq [] d (add_edges eq node ds g) ≡ get_or eq [] d g ++ replicate (count eq d ds) node
  unfolding add_edges
  get_or-add_edges d node [] g = sym (append-nil _)
  get_or-add_edges d node (x ∷ ds) g =
      let g' = update eq [] (λ vs. vs ++ node ∷ []) x g in
      ground (
        arith,
        get_or-add_edges d node ds g',
        get_or-update eq [] (λ (vs : List T). vs ++ node ∷ []) x d g,
        append_push (get_or eq [] d g) node (count eq d ds),
      )

  has-keys-add_edges :
      (d node : T) (ds : List T) (g : Digraph T)
      → has eq d (keys (add_edges eq node ds g)) ≡ (has eq d (keys g) || has eq d ds)
  unfolding add_edges
  has-keys-add_edges d node [] g = ground arith
  has-keys-add_edges d node (x ∷ ds) g = ground (
    arith,
    has-keys-add_edges d node ds (update eq [] (λ vs. vs ++ node ∷ []) x g),
    has-keys-update eq [] (λ (vs : List T). vs ++ node ∷ []) x d g,
  )

  add_edges-Distinct :
      (node : T) (ds : List T) (g : Digraph T)
      → Distinct eq (keys g)
      → Distinct eq (keys (add_edges eq node ds g))
  unfolding add_edges
  add_edges-Distinct node [] g h = h
  add_edges-Distinct node (x ∷ ds) g h =
      add_edges-Distinct node ds _ (update-Distinct eq [] (λ vs. vs ++ node ∷ []) x g h)

  from-graph :
      (d : T) (ms : List (TopoSortable T)) (g : Digraph T)
      → (get_or eq [] d (deps_to_graph_from eq g ms) ≡ get_or eq [] d g ++ dependents d ms)
        × (has eq d (keys (deps_to_graph_from eq g ms)) ≡ (has eq d (keys g) || is_dependency d ms))
  unfolding deps_to_graph_from
  from-graph d [] g = (sym (append-nil _), ground arith)
  from-graph d (m ∷ ms) g =
      let next = from-graph d ms (add_edges eq m.node m.deps g) in
      (
        next.0
            ∙ ap (λ xs. xs ++ dependents d ms) (get_or-add_edges d m.node m.deps g)
            ∙ append_assoc (get_or eq [] d g) (replicate (count eq d m.deps) m.node)
                (dependents d ms),
        ground (arith, next.1, has-keys-add_edges d m.node m.deps g),
      )

  from-Distinct :
      (ms : List (TopoSortable T)) (g : Digraph T)
      → Distinct eq (keys g)
      → Distinct eq (keys (deps_to_graph_from eq g ms))
  unfolding deps_to_graph_from
  from-Distinct [] g h = h
  from-Distinct (m ∷ ms) g h = from-Distinct ms _ (add_edges-Distinct m.node m.deps g h)

  -- `depsToGraph` builds a map with one entry for each dependency that a node names, which holds
  -- the nodes that name it, in input order and as often as they name it.
  pub deps_to_graph_lem :
      (ms : List (TopoSortable T))
      → (let g = deps_to_graph eq ms in
          Distinct eq (keys g)
          × ((d : T) → get_or eq [] d g ≡ dependents d ms)
          × ((d : T) → has eq d (keys g) ≡ is_dependency d ms))
  unfolding deps_to_graph
  deps_to_graph_lem ms =
      (from-Distinct ms [] tt, λ d. (from-graph d ms []).0, λ d. (from-graph d ms []).1)
