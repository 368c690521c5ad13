-- ===== src/Toposort.antt =====
-- sort.go: the dependency graph of a set of nodes, and its topological sort. `T` is the
-- `comparable` type parameter of the source, with its `==` as a decision.
pub mod Weights
pub mod Release
pub mod Positions
pub mod Loop
pub mod Graph
pub mod Acyclic
pub mod Order
pub mod Indegrees
use cloudcompute.Base.{
  ℕ, zero, suc, ◌+◌, List, [], ◌∷◌, ◌++◌, Bool, true, false, ite, ◌||◌, cond, Option, none, some,
}
use cloudcompute.Base.{has, length}
use cloudcompute.Base.Int.{ℤ, pos, increment, decrement, is_zero, is_positive}
use cloudcompute.Base.Maps.{Map, keys, get_or, update, insert, lookup}

-- A value of the interface `TopoSortable`: what `Node` and `Deps` return.
pub record TopoSortable (T : Type 0) : Type 0 where
  pub node : T
  pub deps : List T

abbrev pub Digraph : Type 0 → Type 0
Digraph T = Map T (List T)

pub data SortError : Type 0 where
  not_a_dag no_dependencies not_found : SortError

-- The indegrees, the stack `queue` (its head is the last element of the slice), and `order`.
pub record Progress (T : Type 0) : Type 0 where
  pub indegrees : Map T ℤ
  pub queue : List T
  pub order : List T

module _ {T : Type 0} where
  -- The last loop: is an indegree still positive?
  pub any_positive : Map T ℤ → Bool
  any_positive [] = false
  any_positive ((v, d) ∷ m) = is_positive d || any_positive m

  -- One round for each key and each edge.
  pub rounds_bound : Digraph T → ℕ
  rounds_bound [] = 0
  rounds_bound ((u, vs) ∷ g) = suc (length vs) + rounds_bound g

module _ {T : Type 0} (eq : Discrete T) where
  -- The body of the inner loop of `depsToGraph`; both branches of the source append.
  pub add_edges : T → List T → Digraph T → Digraph T
  add_edges node [] g = g
  add_edges node (d ∷ ds) g = add_edges node ds (update eq [] (λ vs. vs ++ node ∷ []) d g)

  pub deps_to_graph_from : Digraph T → List (TopoSortable T) → Digraph T
  unfolding add_edges
  deps_to_graph_from g [] = g
  deps_to_graph_from g (m ∷ ms) = deps_to_graph_from (add_edges m.node m.deps g) ms

  unfoldable pub deps_to_graph : List (TopoSortable T) → Digraph T
  unfolding deps_to_graph_from
  deps_to_graph ms = deps_to_graph_from [] ms

  -- `for _, v := range digraph[u] { indegrees[v]++ }`
  pub count_targets : List T → Map T ℤ → Map T ℤ
  count_targets [] m = m
  count_targets (v ∷ vs) m = count_targets vs (update eq (pos 0) increment v m)

  pub count_indegrees : Digraph T → Map T ℤ → Map T ℤ
  unfolding count_targets
  count_indegrees [] m = m
  count_indegrees ((u, vs) ∷ g) m = count_indegrees g (count_targets vs m)

  -- The keys with no entry in `indegrees`, pushed in the order of the second `range`.
  pub initial_queue : Map T ℤ → Digraph T → List T → List T
  initial_queue m [] queue = queue
  initial_queue m ((u, vs) ∷ g) queue =
      initial_queue m g (cond (has eq u (keys m)) queue (u ∷ queue))

  -- The inner `for` of the main loop, over the successors of the popped node.
  pub release : List T → Map T ℤ → List T → Map T ℤ × List T
  release [] m queue = (m, queue)
  release (v ∷ vs) m queue =
      let m' = update eq (pos 0) decrement v m in
      release vs m' (cond (is_zero (get_or eq (pos 0) v m')) (v ∷ queue) queue)

  -- `for len(queue) > 0`, on the indegrees, the stack and `order`. The fuel bounds the rounds.
  pub main_loop : ℕ → Digraph T → Map T ℤ → List T → List T → Progress T
  unfolding release
  main_loop fuel g m [] order = record { indegrees = m; queue = []; order = order }
  main_loop zero g m (u ∷ queue) order = record { indegrees = m; queue = u ∷ queue; order = order }
  main_loop (suc fuel) g m (u ∷ queue) order =
      let (m', queue') = release (get_or eq [] u g) m queue in
      main_loop fuel g m' queue' (order ++ u ∷ [])

  pub sorted : Digraph T → Progress T
  unfolding count_indegrees initial_queue main_loop rounds_bound
  sorted g =
      let m = count_indegrees g [] in main_loop (rounds_bound g) g m (initial_queue m g []) []

  -- The returned order, and the error "not a DAG" where it is `some`.
  unfoldable pub topological_sort : Digraph T → List T × Option SortError
  unfolding sorted any_positive
  topological_sort g =
      let p = sorted g in (p.order, cond (any_positive p.indegrees) (some not_a_dag) none)
