-- ===== src/Manifest/Dependencies.antt =====
-- What the dependency graph of an event says about its manifests.
use cloudcompute.Base.{
  ℕ, ◌<◌, ◌≡◌, ◌≢◌, refl, List, [], ◌∷◌, Bool, true, false, ◌||◌, ◌&&◌, ℕ_discrete, has, has-append,
  arith, All, count, replicate, Bool-cases, inl, inr, subst, sym,
}
use cloudcompute.Base.Maps.{get_or}
use cloudcompute.Toposort.{Digraph, deps_to_graph}
use cloudcompute.Toposort.Weights.{is_node, is_target, into, into_pos_pred}
use cloudcompute.Toposort.Indegrees.{is_target-into}
use cloudcompute.Toposort.Graph.{dependents, is_dependency, deps_to_graph_lem}
use cloudcompute.Manifest.{Uuid, ComputeManifest, to_topo_sortable}
use cloudcompute.Manifest.Place.{manifest_ids}

has-replicate :
    (n x : Uuid) (d : Uuid) (ds : List Uuid)
    → has ℕ_discrete n (replicate (count ℕ_discrete d ds) x)
      ≡ (has ℕ_discrete n (x ∷ []) && has ℕ_discrete d ds)
has-replicate n x d [] = ground arith
has-replicate n x d (y ∷ ds) = ground (arith, has-replicate n x d ds)

pub All-has :
    (d : Uuid) (ds : List Uuid) (P : Uuid → Type 0) → All P ds → has ℕ_discrete d ds ≡ true → P d
All-has d [] P all h = cc
All-has d (x ∷ ds) P all h = elim (ℕ_discrete d x) [
  | yes e ↦ subst P (sym e) all.0
  | no n ↦ All-has d ds P all.1 (ground arith)
]

module _ {Value : Type 0} where
  -- Every dependency is the id of some manifest in `ids`.
  abbrev pub IsClosed : List Uuid → List (ComputeManifest Value) → Type 0
  IsClosed ids ms = All (λ m. All (λ d. has ℕ_discrete d ids ≡ true) m.dependencies) ms

  -- A rank rises from each dependency to the manifest that names it.
  abbrev pub IsRanked : (Uuid → ℕ) → List (ComputeManifest Value) → Type 0
  IsRanked rank ms = All (λ m. All (λ d. rank d < rank m.manifest_id) m.dependencies) ms

  abbrev pub event_graph : List (ComputeManifest Value) → Digraph Uuid
  event_graph ms = deps_to_graph ℕ_discrete (to_topo_sortable ms)

  -- Some manifest carries the id `n` and names `d` as a dependency.
  abbrev pub depends : Uuid → Uuid → List (ComputeManifest Value) → Bool
  depends n d [] = false
  depends n d (m ∷ ms) =
      has ℕ_discrete n (m.manifest_id ∷ []) && has ℕ_discrete d m.dependencies || depends n d ms

  depends_lem :
      (n d : Uuid) (ms : List (ComputeManifest Value))
      → has ℕ_discrete n (dependents ℕ_discrete d (to_topo_sortable ms)) ≡ depends n d ms
  depends_lem n d [] = refl
  depends_lem n d (m ∷ ms) = ground (
    arith,
    depends_lem n d ms,
    has-replicate n m.manifest_id d m.dependencies,
    has-append ℕ_discrete n (replicate (count ℕ_discrete d m.dependencies) m.manifest_id)
        (dependents ℕ_discrete d (to_topo_sortable ms)),
  )

  -- The edges of the graph are the dependencies.
  pub edge-depends :
      (n d : Uuid) (ms : List (ComputeManifest Value))
      → has ℕ_discrete n (get_or ℕ_discrete [] d (event_graph ms)) ≡ depends n d ms
  edge-depends n d ms =
      rw ((deps_to_graph_lem ℕ_discrete (to_topo_sortable ms)).1 d) (depends_lem n d ms)

  pub depends-known :
      (n d : Uuid) (ms : List (ComputeManifest Value))
      → depends n d ms ≡ true
      → has ℕ_discrete n (manifest_ids ms) ≡ true
  depends-known n d [] h = cc
  depends-known n d (m ∷ ms) h = ground (arith, depends-known n d ms)

  pub depends-ranked :
      (rank : Uuid → ℕ) (n d : Uuid) (ms : List (ComputeManifest Value))
      → IsRanked rank ms
      → depends n d ms ≡ true
      → rank d < rank n
  depends-ranked rank n d [] all h = cc
  depends-ranked rank n d (m ∷ ms) all h = elim (Bool-cases (depends n d ms)) [
    | inl later ↦ depends-ranked rank n d ms all.1 later
    | inr never ↦
        let same : n ≡ m.manifest_id = ground arith in
        rw same (All-has d m.dependencies (λ x. rank x < rank m.manifest_id) all.0 (ground arith))
  ]

  is_dependency-known :
      (d : Uuid) (ids : List Uuid) (ms : List (ComputeManifest Value))
      → IsClosed ids ms
      → is_dependency ℕ_discrete d (to_topo_sortable ms) ≡ true
      → has ℕ_discrete d ids ≡ true
  is_dependency-known d ids [] all h = cc
  is_dependency-known d ids (m ∷ ms) all h = elim (Bool-cases (has ℕ_discrete d m.dependencies)) [
    | inl here ↦ All-has d m.dependencies (λ x. has ℕ_discrete x ids ≡ true) all.0 here
    | inr there ↦ is_dependency-known d ids ms all.1 (ground arith)
  ]

  is_target-known :
      (v : Uuid) (ms : List (ComputeManifest Value))
      → is_target ℕ_discrete v (event_graph ms) ≡ true
      → has ℕ_discrete v (manifest_ids ms) ≡ true
  is_target-known v ms h =
      let g = event_graph ms in
      let edges : into ℕ_discrete v [] g ≢ 0 = λ z. ground (arith, is_target-into ℕ_discrete v g) in
      let (u, known, edge, fresh) =
        into_pos_pred ℕ_discrete v [] g (deps_to_graph_lem ℕ_discrete (to_topo_sortable ms)).0
          edges in
      depends-known v u ms (rw (edge-depends v u ms) at edge)

  -- The nodes of the graph of a closed event are ids of its manifests.
  pub node-known :
      (v : Uuid) (ms : List (ComputeManifest Value))
      → IsClosed (manifest_ids ms) ms
      → is_node ℕ_discrete v (event_graph ms) ≡ true
      → has ℕ_discrete v (manifest_ids ms) ≡ true
  node-known v ms closed h = ground (
    arith,
    is_target-known v ms,
    is_dependency-known v (manifest_ids ms) ms closed,
    (deps_to_graph_lem ℕ_discrete (to_topo_sortable ms)).2 v,
  )
