-- ===== src/Manifest/Isolated.antt =====
-- sort.go: manifests that have no dependency and that none depends on, in SortManifests.
use cloudcompute.Base.{
  ℕ, zero, suc, ◌<◌, ◌≡◌, ◌≢◌, refl, List, [], ◌∷◌, true, false, none, some, ℕ_discrete, length,
  set, replicate, return, has, arith, ◌∙◌, ◌||◌,
}
use cloudcompute.Base.{Distinct}
use cloudcompute.Base.Maps.{keys}
use cloudcompute.Toposort.{not_a_dag, Digraph}
use cloudcompute.Toposort.Weights.{is_node}
use cloudcompute.Toposort.Graph.{deps_to_graph_lem}
use cloudcompute.Toposort.Order.{topological_sort_sound, topological_sort_cyclic}
use cloudcompute.Toposort.Acyclic.{IsAcyclic}
use cloudcompute.Manifest.{
  Uuid, nil_uuid, ComputeManifest, Event, empty_manifest, get_manifest, place_manifests, sort_graph,
  topo_sort, sort_manifests, to_topo_sortable,
}
use cloudcompute.Manifest.Place.{manifest_ids}
use cloudcompute.Manifest.Dependencies.{event_graph}
use cloudcompute.Manifest.Sorting.{sort_graph-none}

sort_graph-cyclic :
    (g : Digraph Uuid)
    → Distinct ℕ_discrete (keys g)
    → ¬ IsAcyclic ℕ_discrete g
    → (sort_graph g).1 ≡ some not_a_dag
unfolding sort_graph
sort_graph-cyclic [] d cyclic = absurd (cyclic (λ v. v, tt))
sort_graph-cyclic (entry ∷ g) d cyclic = topological_sort_cyclic ℕ_discrete (entry ∷ g) d cyclic

empty_ids :
    (Value : Type 0) (v : Uuid) (n : ℕ)
    → v ≢ nil_uuid
    → has ℕ_discrete v (manifest_ids (replicate n (empty_manifest {Value = Value}))) ≡ false
empty_ids Value v zero h = refl
empty_ids Value v (suc n) h = ground (arith, empty_ids Value v n)

module _ {Value : Type 0} where
  get_manifest-id :
      (ms : List (ComputeManifest Value)) (id : Uuid) (m : ComputeManifest Value)
      → get_manifest ms id ≡ (m, none)
      → m.manifest_id ≡ id
  unfolding get_manifest
  get_manifest-id [] id m h = cc
  get_manifest-id (x ∷ ms) id m h = ground (arith, get_manifest-id ms id m)

  has-set :
      (v : Uuid) (ordered : List (ComputeManifest Value)) (i : ℕ) (m : ComputeManifest Value)
      → has ℕ_discrete v (manifest_ids (set ordered i m)) ≡ true
      → (has ℕ_discrete v (manifest_ids ordered) || has ℕ_discrete v (m.manifest_id ∷ [])) ≡ true
  has-set v [] i m h = cc
  has-set v (x ∷ ordered) zero m h = ground arith
  has-set v (x ∷ ordered) (suc i) m h = ground (arith, has-set v ordered i m)

  -- A manifest in the result was there before, or carries one of the ids.
  place-ids :
      (v : Uuid) (ms : List (ComputeManifest Value)) (i : ℕ) (ids : List Uuid)
      (ordered result : List (ComputeManifest Value))
      → place_manifests ms i ids ordered ≡ return (result, none)
      → has ℕ_discrete v (manifest_ids result) ≡ true
      → (has ℕ_discrete v (manifest_ids ordered) || has ℕ_discrete v ids) ≡ true
  unfolding place_manifests
  place-ids v ms i [] ordered result h e = ground arith
  place-ids v ms i (id ∷ ids) ordered result h e =
      let m = (get_manifest ms id).0 in
      ground (
        arith,
        place-ids v ms (suc i) ids (set ordered i m) result,
        has-set v ordered i m,
        get_manifest-id ms id m,
      )

  sort_manifests-eq :
      (e e' : Event Value)
      → 1 < length e.manifests
      → sort_manifests e ≡ return (e', none)
      → ((topo_sort e).1 ≡ none)
        × (place_manifests e.manifests 0
              (topo_sort e).0
              (replicate (length e.manifests) empty_manifest)
            ≡ return (e'.manifests, none))
  unfolding sort_manifests
  sort_manifests-eq e e' several h = ground arith

  ordered_absent :
      (e : Event Value) (v : Uuid)
      → (topo_sort e).1 ≡ none
      → is_node ℕ_discrete v (event_graph e.manifests) ≡ false
      → has ℕ_discrete v (topo_sort e).0 ≡ false
  unfolding topo_sort
  ordered_absent e v ok isolated =
      let g = event_graph e.manifests in
      let same = sort_graph-none g ok in
      let (ordered, once, complete) =
        topological_sort_sound ℕ_discrete g
          (deps_to_graph_lem ℕ_discrete (to_topo_sortable e.manifests)).0 in
      rw same (complete (rw same at ok) v ∙ isolated)

  -- Where `SortManifests` succeeds on an event of several manifests, a manifest with a proper id
  -- that has no dependency and that no manifest depends on is missing from the result.
  pub sort_manifests_drops :
      (e e' : Event Value) (v : Uuid)
      → 1 < length e.manifests
      → v ≢ nil_uuid
      → is_node ℕ_discrete v (event_graph e.manifests) ≡ false
      → sort_manifests e ≡ return (e', none)
      → has ℕ_discrete v (manifest_ids e'.manifests) ≡ false
  sort_manifests_drops e e' v several proper isolated h =
      let (ok, placed) = sort_manifests-eq e e' several h in
      let empty = replicate (length e.manifests) (empty_manifest {Value = Value}) in
      ground (
        arith,
        place-ids v e.manifests 0 (topo_sort e).0 empty e'.manifests placed,
        empty_ids Value v (length e.manifests) proper,
        ordered_absent e v ok isolated,
      )

  -- Where the dependencies of an event of several manifests are circular, `SortManifests` returns
  -- "not a DAG" and leaves the event as it was.
  pub sort_manifests_cyclic :
      (e : Event Value)
      → 1 < length e.manifests
      → ¬ IsAcyclic ℕ_discrete (event_graph e.manifests)
      → sort_manifests e ≡ return (e, some not_a_dag)
  unfolding sort_manifests topo_sort
  sort_manifests_cyclic e several cyclic =
      let once = (deps_to_graph_lem ℕ_discrete (to_topo_sortable e.manifests)).0 in
      ground (arith, sort_graph-cyclic (event_graph e.manifests) once cyclic)
