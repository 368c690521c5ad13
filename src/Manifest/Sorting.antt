-- ===== src/Manifest/Sorting.antt =====
-- SortManifests as a whole.
use cloudcompute.Base.{
  ℕ, zero, suc, ◌<◌, ◌≡◌, refl, List, [], ◌∷◌, ◌++◌, true, none, ℕ_discrete, length, replicate,
  drop, return, has, arith, All, Distinct, ◌∙◌, length-replicate, ap, sym, subst, append-nil,
}
use cloudcompute.Base.Members.{same_members-length}
use cloudcompute.Toposort.{Digraph, topological_sort}
use cloudcompute.Toposort.Weights.{is_node}
use cloudcompute.Toposort.Positions.{index}
use cloudcompute.Toposort.Graph.{deps_to_graph_lem}
use cloudcompute.Toposort.Acyclic.{rises-All}
use cloudcompute.Toposort.Order.{topological_sort_sound, topological_sort-IsAcyclic}
use cloudcompute.Manifest.{
  Uuid, ComputeManifest, Event, empty_manifest, place_manifests, sort_graph, topo_sort,
  sort_manifests, to_topo_sortable,
}
use cloudcompute.Manifest.Place.{manifest_ids, Found, place-Found}
use cloudcompute.Manifest.Dependencies.{
  IsClosed, IsRanked, event_graph, depends, edge-depends, depends-ranked, node-known, depends-known,
  All-has,
}

sort_graph_lem :
    (v : Uuid) (g : Digraph Uuid)
    → is_node ℕ_discrete v g ≡ true
    → sort_graph g ≡ topological_sort ℕ_discrete g
unfolding sort_graph
sort_graph_lem v [] h = cc
sort_graph_lem v (entry ∷ g) h = refl

pub sort_graph-none :
    (g : Digraph Uuid) → (sort_graph g).1 ≡ none → (sort_graph g ≡ topological_sort ℕ_discrete g)
unfolding sort_graph
sort_graph-none [] h = cc
sort_graph-none (entry ∷ g) h = refl

drop_all : {A : Type 0} (n : ℕ) (a : A) → drop n (replicate n a) ≡ []
drop_all zero a = refl
drop_all (suc n) a = drop_all n a

All-intro :
    (xs : List Uuid) (P : Uuid → Type 0)
    → ((x : Uuid) → has ℕ_discrete x xs ≡ true → P x)
    → All P xs
All-intro [] P h = tt
All-intro (x ∷ xs) P h = (h x (ground arith), All-intro xs P (λ y e. h y (ground arith)))

module _ {Value : Type 0} where
  length-manifest_ids : (ms : List (ComputeManifest Value)) → length (manifest_ids ms) ≡ length ms
  length-manifest_ids [] = refl
  length-manifest_ids (m ∷ ms) = ap suc (length-manifest_ids ms)

  Found-ids :
      (ms : List (ComputeManifest Value)) (ids : List Uuid) (found : List (ComputeManifest Value))
      → Found ms ids found
      → manifest_ids found ≡ ids
  Found-ids ms [] found h = rw h
  Found-ids ms (id ∷ ids) [] h = elim h [ ]
  Found-ids ms (id ∷ ids) (m ∷ found) h = cc (h.1, Found-ids ms ids found h.2)

  -- What holds of every dependency holds along the list.
  depends-All :
      (ms : List (ComputeManifest Value)) (P : Uuid → Uuid → Type 0)
      → ((n d : Uuid) → depends n d ms ≡ true → P n d)
      → All (λ m. All (P m.manifest_id) m.dependencies) ms
  depends-All [] P h = tt
  depends-All (m ∷ ms) P h = (
    All-intro m.dependencies (P m.manifest_id) (λ d e. h m.manifest_id d (ground (arith, e))),
    depends-All ms P (λ n d e. h n d (ground (arith, e))),
  )

  -- What it takes for an event to be sorted: its manifests have distinct ids, name only manifests
  -- of the event as dependencies, each names one or is named, and no dependency is circular.
  pub record IsSortable (rank : Uuid → ℕ) (ms : List (ComputeManifest Value)) : Type 0 where
    pub several : 1 < length ms
    pub once : Distinct ℕ_discrete (manifest_ids ms)
    pub closed : IsClosed (manifest_ids ms) ms
    pub linked : All (λ v. is_node ℕ_discrete v (event_graph ms) ≡ true) (manifest_ids ms)
    pub ranked : IsRanked rank ms

  -- The ids in order: each of the event's ids once, and dependencies first.
  pub record IsSortOf (ms : List (ComputeManifest Value)) (ids : List Uuid) : Type 0 where
    pub once : Distinct ℕ_discrete ids
    pub members : (v : Uuid) → has ℕ_discrete v ids ≡ has ℕ_discrete v (manifest_ids ms)
    pub before :
        All
          (λ m.
            All
              (λ d.
                (has ℕ_discrete d ids ≡ true)
                × (index ℕ_discrete d ids < index ℕ_discrete m.manifest_id ids))
              m.dependencies)
          ms

  graph_acyclic :
      (rank : Uuid → ℕ) (ms : List (ComputeManifest Value))
      → IsSortable rank ms
      → (topological_sort ℕ_discrete (event_graph ms)).1 ≡ none
  graph_acyclic rank ms h =
      let once = (deps_to_graph_lem ℕ_discrete (to_topo_sortable ms)).0 in
      (topological_sort-IsAcyclic ℕ_discrete (event_graph ms) once).1 (
        rank,
        rises-All ℕ_discrete rank (event_graph ms) once
            (λ u v e. depends-ranked rank v u ms h.ranked (rw (← edge-depends v u ms) e)),
      )

  sorted_ids :
      (rank : Uuid → ℕ) (ms : List (ComputeManifest Value))
      → IsSortable rank ms
      → IsSortOf ms (topological_sort ℕ_discrete (event_graph ms)).0
  sorted_ids rank ms h =
      let g = event_graph ms in
      let (ordered, once, complete) =
        topological_sort_sound ℕ_discrete g
          (deps_to_graph_lem ℕ_discrete (to_topo_sortable ms)).0 in
      let ids = (topological_sort ℕ_discrete g).0 in
      let members : (v : Uuid) → has ℕ_discrete v ids ≡ has ℕ_discrete v (manifest_ids ms) = λ v.
        ground (
          arith,
          complete (graph_acyclic rank ms h) v,
          node-known v ms h.closed,
          All-has v (manifest_ids ms) (λ x. is_node ℕ_discrete x g ≡ true) h.linked,
        ) in
      record {
        once = once;
        members = members;
        before =
            depends-All ms
              (λ n d.
                (has ℕ_discrete d ids ≡ true) × (index ℕ_discrete d ids < index ℕ_discrete n ids))
              (λ n d e.
                ordered d n (rw (edge-depends n d ms) e) (rw (members n) (depends-known n d ms e)));
      }

  topo_sort_lem :
      (rank : Uuid → ℕ) (e : Event Value)
      → IsSortable rank e.manifests
      → topo_sort e ≡ ((topological_sort ℕ_discrete (event_graph e.manifests)).0, none)
  unfolding topo_sort
  topo_sort_lem rank e h =
      let g = event_graph e.manifests in
      let first_linked : (v : Uuid) × (is_node ℕ_discrete v g ≡ true) = first_node e.manifests h in
      ground
        (arith, sort_graph_lem first_linked.0 g first_linked.1, graph_acyclic rank e.manifests h)
    where
      first_node :
          (ms : List (ComputeManifest Value))
          → IsSortable rank ms
          → (v : Uuid) × (is_node ℕ_discrete v (event_graph ms) ≡ true)
      first_node [] s = absurd (omega (arith, s.several))
      first_node (m ∷ ms) s = (m.manifest_id, s.linked.0)

  sort_from :
      (e : Event Value) (ids : List Uuid) (found : List (ComputeManifest Value))
      → topo_sort e ≡ (ids, none)
      → 1 < length e.manifests
      → place_manifests e.manifests 0 ids (replicate (length e.manifests) empty_manifest)
        ≡ return (found, none)
      → sort_manifests e ≡ return (record e { manifests = found }, none)
  unfolding sort_manifests
  sort_from e ids found t several placed = ground arith

  -- A sortable event is sorted: `SortManifests` neither panics nor fails, changes only the
  -- manifests, and leaves for each id of the event, once, the manifest that carries it, behind the
  -- manifests that it depends on.
  pub sort_manifests_lem :
      (rank : Uuid → ℕ) (e : Event Value)
      → IsSortable rank e.manifests
      → (sorted : List (ComputeManifest Value)) × (sort_manifests e
          ≡ return (record e { manifests = sorted }, none))
        × Found e.manifests (manifest_ids sorted) sorted
        × IsSortOf e.manifests (manifest_ids sorted)
  sort_manifests_lem rank e h =
      let ms = e.manifests in
      let ids = (topological_sort ℕ_discrete (event_graph ms)).0 in
      let s = sorted_ids rank ms h in
      let size : length ids ≡ length ms =
        same_members-length ℕ_discrete ids (manifest_ids ms) s.once h.once s.members
        ∙ length-manifest_ids ms in
      let room = replicate (length ms) (empty_manifest {Value = Value}) in
      let (found, ok, placed) =
        place-Found ms ids [] room
          (All-intro ids (λ id. has ℕ_discrete id (manifest_ids ms) ≡ true)
            (λ x e. rw (← s.members x) e))
          (omega (arith, size, length-replicate (length ms) (empty_manifest {Value = Value}))) in
      let rest_empty : return (found ++ drop (length ids) room, none) ≡ return (found, none) =
        rw (size, drop_all (length ms) (empty_manifest {Value = Value}), append-nil found) in
      let same = sym (Found-ids ms ids found ok) in
      let sorted_event = sort_from e ids found (topo_sort_lem rank e h) h.several in
      (
        found,
        sorted_event (placed ∙ rest_empty),
        subst (λ l. Found ms l found) same ok,
        subst (IsSortOf ms) same s,
      )
