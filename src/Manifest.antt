-- ===== src/Manifest.antt =====
-- cloudcompute.go, sort.go and eventgenerator.go: manifests, events, and the ordering of an
-- event's manifests. A `uuid.UUID` is the number that its 16 bytes spell, and `uuid.Nil` is 0.
-- `Value` stands for the types of the SDK that the program only hands on: data stores, data
-- sources, and what a payload attribute holds.
pub mod Place
pub mod Dependencies
pub mod Sorting
pub mod Isolated
use cloudcompute.Base.Int.{ℤ, pos, negsuc}
use cloudcompute.Base.{
  ◌≡◌, refl, ℕ, zero, suc, ◌+◌, String, List, [], ◌∷◌, ◌++◌, Bool, true, false, Option, none, some,
  ite, ℕ_discrete, length, get_elem?, set, replicate, take, drop, ltb, leb, cond, ◌==◌, ◌&&◌,
  Outcome, return, panic, ◌>>=◌,
}
use cloudcompute.Base.Maps.{Map}
use cloudcompute.Toposort.{
  TopoSortable, Digraph, SortError, not_a_dag, no_dependencies, not_found, deps_to_graph,
  topological_sort,
}

abbrev pub Uuid : Type 0
Uuid = ℕ

abbrev pub nil_uuid : Uuid
nil_uuid = 0

pub record KeyValuePair : Type 0 where
  pub name : String
  pub value : String

abbrev pub KeyValuePairs : Type 0
KeyValuePairs = List KeyValuePair

pub data ResourceType : Type 0 where
  gpu vcpu memory attached_storage : ResourceType
  other : String → ResourceType

pub record ResourceRequirement : Type 0 where
  pub kind : ResourceType
  pub value : String

-- The attribute values may be Go's `nil`.
abbrev pub PayloadAttributes : Type 0 → Type 0
PayloadAttributes Value = Map String (Option Value)

-- An action of the SDK: its attributes, and the rest.
pub record Action (Value : Type 0) : Type 0 where
  pub attributes : PayloadAttributes Value
  pub rest : Value

-- `payload_attributes` is `none` where the Go map is nil.
pub record PluginInputs (Value : Type 0) : Type 0 where
  pub environment : KeyValuePairs
  pub parameters : Map String String
  pub data_sources : List Value
  pub payload_attributes : Option (PayloadAttributes Value)

-- `tags` is `none` where the Go map is nil.
pub record ComputeManifest (Value : Type 0) : Type 0 where
  pub manifest_name : String
  pub manifest_id : Uuid
  pub command : List String
  pub dependencies : List Uuid
  pub stores : List Value
  pub inputs : PluginInputs Value
  pub outputs : List Value
  pub actions : List (Action Value)
  pub plugin_definition : String
  pub tags : Option (Map String String)
  pub retry_attempts : ℤ
  pub job_timeout : ℤ
  pub resource_requirements : List ResourceRequirement
  pub payload_id : Uuid

pub record Event (Value : Type 0) : Type 0 where
  pub id : Uuid
  pub per_event_loop_num : ℕ
  pub event_identifier : String
  pub manifests : List (ComputeManifest Value)
  pub is_sorted : Bool
  pub additional_event_env_vars : KeyValuePairs

pub sort_graph : Digraph Uuid → List Uuid × Option SortError
sort_graph [] = ([], some no_dependencies)
sort_graph (entry ∷ g) = topological_sort ℕ_discrete (entry ∷ g)

pub sort_graph_empty : sort_graph [] ≡ ([], some no_dependencies)
unfolding sort_graph
sort_graph_empty = refl

module _ {Value : Type 0} where
  -- `ComputeManifest{}`
  abbrev pub empty_manifest : ComputeManifest Value
  empty_manifest = record {
    manifest_name = "";
    manifest_id = nil_uuid;
    command = [];
    dependencies = [];
    stores = [];
    inputs = record {
      environment = [];
      parameters = [];
      data_sources = [];
      payload_attributes = none;
    };
    outputs = [];
    actions = [];
    plugin_definition = "";
    tags = none;
    retry_attempts = pos 0;
    job_timeout = pos 0;
    resource_requirements = [];
    payload_id = nil_uuid;
  }

  -- The methods `Node` and `Deps`, and `toTopoSortable`.
  abbrev pub to_topo_sortable : List (ComputeManifest Value) → List (TopoSortable Uuid)
  to_topo_sortable [] = []
  to_topo_sortable (m ∷ ms) =
      record { node = m.manifest_id; deps = m.dependencies } ∷ to_topo_sortable ms

  -- The order may be partial where the error is "not a DAG".
  unfoldable pub topo_sort : Event Value → List Uuid × Option SortError
  unfolding sort_graph
  topo_sort e =
      let digraph = deps_to_graph ℕ_discrete (to_topo_sortable e.manifests) in sort_graph digraph

  unfoldable pub get_manifest :
      List (ComputeManifest Value) → Uuid → ComputeManifest Value × Option SortError
  get_manifest [] id = (empty_manifest, some not_found)
  get_manifest (m ∷ ms) id = ite (ℕ_discrete m.manifest_id id) (m, none) (get_manifest ms id)

  -- The loop of `SortManifests` over the ordered ids, from position `i`.
  unfoldable pub place_manifests :
      List (ComputeManifest Value)
      → ℕ
      → List Uuid
      → List (ComputeManifest Value)
      → Outcome (List (ComputeManifest Value) × Option SortError)
  unfolding get_manifest
  place_manifests ms i [] ordered = return (ordered, none)
  place_manifests ms i (oid ∷ ids) ordered =
      let (m, err) = get_manifest ms oid in
      let rest = place_manifests ms (suc i) ids (set ordered i m) in
      cond (ltb i (length ordered)) (elim err [ some e ↦ return (ordered, some e) | none ↦ rest ])
        panic

  -- The event after the call, and the error.
  sort_ordered :
      Event Value → List Uuid × Option SortError → Outcome (Event Value × Option SortError)
  unfolding place_manifests
  sort_ordered e (ids, some err) = return (e, some err)
  sort_ordered e (ids, none) = do
    placed ← place_manifests e.manifests 0 ids (replicate (length e.manifests) empty_manifest)
    elim placed.1 [
      | none ↦ return (record e { manifests = placed.0 }, none)
      | some err ↦ return (e, some err)
    ]

  unfoldable pub sort_manifests : Event Value → Outcome (Event Value × Option SortError)
  unfolding sort_ordered topo_sort
  sort_manifests e =
      let ordered = sort_ordered e (topo_sort e) in
      cond (ltb 1 (length e.manifests)) ordered (return (e, none))

  unfoldable pub add_manifest : Event Value → ComputeManifest Value → Event Value
  add_manifest e m = record e { manifests = e.manifests ++ m ∷ [] }

  -- `spare` says whether the slice has capacity beyond its length: then `e.Manifests[:i+1]` is in
  -- range at the very end too.
  unfoldable pub add_manifest_at :
      Bool → Event Value → ComputeManifest Value → ℕ → Outcome (Event Value)
  add_manifest_at spare e m i =
      cond (ltb i (length e.manifests))
        (return (record e { manifests = set (take (suc i) e.manifests ++ drop i e.manifests) i m }))
        (cond (spare && i == length e.manifests)
          (return (record e { manifests = e.manifests ++ m ∷ [] })) panic)

  -- `GetManifest`: the position (-1 is `none`) and the manifest. The deep copy is a copy of the
  -- exported fields, so `payload_id` comes back as the nil uuid.
  abbrev pub shallow_or_deep : Bool → ComputeManifest Value → ComputeManifest Value
  shallow_or_deep false m = m
  shallow_or_deep true m = record m { payload_id = nil_uuid }

  get_manifest_from :
      ℕ → List (ComputeManifest Value) → Uuid → Bool → Option (ℕ × ComputeManifest Value)
  get_manifest_from i [] id deep = none
  get_manifest_from i (m ∷ ms) id deep =
      let rest = get_manifest_from (suc i) ms id deep in
      ite (ℕ_discrete m.manifest_id id) (some (i, shallow_or_deep deep m)) rest

  unfoldable pub get_manifest_by_id :
      List (ComputeManifest Value) → Uuid → Bool → Option (ℕ × ComputeManifest Value)
  unfolding get_manifest_from
  get_manifest_by_id ms id deep = get_manifest_from 0 ms id deep

  unfoldable pub get_manifest_by_index :
      List (ComputeManifest Value) → ℕ → Bool → Outcome (ComputeManifest Value)
  get_manifest_by_index ms i deep = elim (get_elem? ms i) [
    | none ↦ panic
    | some m ↦ return (shallow_or_deep deep m)
  ]
