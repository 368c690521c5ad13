-- ===== src/Samples/Graphs.antt =====
-- Graphs for sort.go, the third with a cycle, and the order in which they are sorted.
use cloudcompute.Base.{
  ℕ, ◌<◌, ◌≡◌, ◌↔◌, refl, List, [], ◌∷◌, true, none, some, ℕ_discrete, has, Distinct, arith,
}
use cloudcompute.Base.Maps.{get_or}
use cloudcompute.Toposort.{TopoSortable, Digraph, not_a_dag, deps_to_graph, topological_sort}
use cloudcompute.Toposort.Weights.{is_node}
use cloudcompute.Toposort.Positions.{index}
use cloudcompute.Toposort.Acyclic.{IsAcyclic}
use cloudcompute.Toposort.Order.{
  topological_sort_order, topological_sort_complete, topological_sort-IsAcyclic,
}

abbrev chain : Digraph ℕ
chain = (1, 2 ∷ 3 ∷ []) ∷ (2, 3 ∷ []) ∷ []

abbrev chain_reversed : Digraph ℕ
chain_reversed = (2, 3 ∷ []) ∷ (1, 2 ∷ 3 ∷ []) ∷ []

abbrev ring : Digraph ℕ
ring = (1, 2 ∷ []) ∷ (2, 1 ∷ []) ∷ []

abbrev nodes : List (TopoSortable ℕ)
nodes = record { node = 3; deps = 1 ∷ 2 ∷ [] } ∷ record { node = 2; deps = 1 ∷ [] } ∷ []

chain_order : topological_sort ℕ_discrete chain ≡ (1 ∷ 2 ∷ 3 ∷ [], none)
unfolding topological_sort ℕ_discrete
chain_order = refl

ring_order : topological_sort ℕ_discrete ring ≡ ([], some not_a_dag)
unfolding topological_sort ℕ_discrete
ring_order = refl

nodes_graph : deps_to_graph ℕ_discrete nodes ≡ (1, 3 ∷ 2 ∷ []) ∷ (2, 3 ∷ []) ∷ []
unfolding deps_to_graph ℕ_discrete
nodes_graph = refl

topological_sort_order_example :
    (let order = (topological_sort ℕ_discrete chain).0 in
      Distinct ℕ_discrete order
      × (has ℕ_discrete 1 order ≡ true)
      × (index ℕ_discrete 1 order < index ℕ_discrete 3 order))
unfolding topological_sort ℕ_discrete
topological_sort_order_example =
    topological_sort_order ℕ_discrete chain 1 3 (refl, (refl, tt)) refl refl

topological_sort_complete_example :
    has ℕ_discrete 3 (topological_sort ℕ_discrete chain).0 ≡ is_node ℕ_discrete 3 chain
unfolding topological_sort ℕ_discrete
topological_sort_complete_example =
    topological_sort_complete ℕ_discrete chain 3 (refl, (refl, tt)) refl

topological_sort-IsAcyclic_example :
    ((topological_sort ℕ_discrete ring).1 ≡ none) ↔ IsAcyclic ℕ_discrete ring
unfolding ℕ_discrete
topological_sort-IsAcyclic_example = topological_sort-IsAcyclic ℕ_discrete ring (refl, (refl, tt))

same_successors : (u : ℕ) → get_or ℕ_discrete [] u chain ≡ get_or ℕ_discrete [] u chain_reversed
same_successors u = ground arith
