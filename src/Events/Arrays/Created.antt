-- ===== src/Events/Arrays/Created.antt =====
-- What NewArrayEventGenerator does with the manifests of its event.
use cloudcompute.Base.{
  ℕ, suc, ◌<◌, ◌≡◌, refl, List, [], ◌∷◌, none, some, length, replicate, set, return, arith, has,
  false, ℕ_discrete, ◌∙◌, All,
}
use cloudcompute.Base.Int.{ℤ}
use cloudcompute.Base.Maps.{Map, keys}
use cloudcompute.Base.{String}
use cloudcompute.Toposort.{deps_to_graph, no_dependencies}
use cloudcompute.Manifest.{
  Uuid, ComputeManifest, Event, empty_manifest, get_manifest, place_manifests, topo_sort,
  sort_manifests, to_topo_sortable, sort_graph_empty,
}
use cloudcompute.Toposort.Graph.{is_dependency, deps_to_graph_lem}
use cloudcompute.Events.Looper.{new_per_event_looper}
use cloudcompute.Events.Arrays.{place_all, new_array_event_generator}

no_keys : {V : Type 0} (m : Map Uuid V) → ((d : Uuid) → has ℕ_discrete d (keys m) ≡ false) → m ≡ []
no_keys [] h = refl
no_keys ((k, v) ∷ m) h = absurd (ground (arith, h k))

module _ {Value : Type 0} where
  place_all-place :
      (ms : List (ComputeManifest Value)) (i : ℕ) (ids : List Uuid)
      (ordered result : List (ComputeManifest Value))
      → place_manifests ms i ids ordered ≡ return (result, none)
      → place_all ms i ids ordered ≡ return result
  unfolding place_manifests place_all
  place_all-place ms i [] ordered result h = ground arith
  place_all-place ms i (id ∷ ids) ordered result h =
      ground (arith, place_all-place ms (suc i) ids (set ordered i (get_manifest ms id).0) result)

  -- Where `SortManifests` succeeds, the generator is created with the event that it sorts.
  pub new_array_sorted :
      (e e' : Event Value) (pel : List (Map String String)) (start end : ℤ)
      → sort_manifests e ≡ return (e', none)
      → new_array_event_generator e pel start end
        ≡ return
            (record { event = e'; end = end; position = start; pel = new_per_event_looper pel })
  unfolding sort_manifests new_array_event_generator
  new_array_sorted e e' pel start end h = ground (
    arith,
    place_all-place e.manifests 0 (topo_sort e).0 (replicate (length e.manifests) empty_manifest)
        e'.manifests,
  )

  no_dependencies_graph :
      (ms : List (ComputeManifest Value))
      → All (λ m. m.dependencies ≡ []) ms
      → (d : Uuid) → is_dependency ℕ_discrete d (to_topo_sortable ms) ≡ false
  no_dependencies_graph [] h d = refl
  no_dependencies_graph (m ∷ ms) h d = ground (arith, h.0, no_dependencies_graph ms h.1 d)

  sort_none :
      (e : Event Value)
      → All (λ m. m.dependencies ≡ []) e.manifests
      → topo_sort e ≡ ([], some no_dependencies)
  unfolding topo_sort
  sort_none e h =
      let nodes = to_topo_sortable e.manifests in
      let (once, entries, known) = deps_to_graph_lem ℕ_discrete nodes in
      let empty : deps_to_graph ℕ_discrete nodes ≡ [] =
        no_keys (deps_to_graph ℕ_discrete nodes)
          (λ d. known d ∙ no_dependencies_graph e.manifests h d) in
      rw empty sort_graph_empty

  -- Over an event of several manifests of which none has a dependency, the generator is created all
  -- the same, and each of its manifests is the empty one.
  pub new_array-empty :
      (e : Event Value) (pel : List (Map String String)) (start end : ℤ)
      → 1 < length e.manifests
      → All (λ m. m.dependencies ≡ []) e.manifests
      → new_array_event_generator e pel start end
        ≡ return (record {
          event = record e { manifests = replicate (length e.manifests) empty_manifest };
          end = end;
          position = start;
          pel = new_per_event_looper pel;
        })
  unfolding new_array_event_generator
  new_array-empty e pel start end several h = ground (arith, sort_none e h)
