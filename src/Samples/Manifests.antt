-- ===== src/Samples/Manifests.antt =====
-- An event of three manifests for SortManifests, one with an isolated manifest, and environments.
use cloudcompute.Base.{
  ℕ, ◌≡◌, refl, String, List, [], ◌∷◌, false, none, ℕ_discrete, String_discrete, has, arith, return,
}
use cloudcompute.Base.Maps.{Map}
use cloudcompute.Toposort.{topological_sort, deps_to_graph}
use cloudcompute.Manifest.{
  Uuid, ComputeManifest, Event, KeyValuePair, KeyValuePairs, empty_manifest, sort_manifests,
}
use cloudcompute.Toposort.Acyclic.{IsAcyclic}
use cloudcompute.Manifest.Place.{manifest_ids, Found}
use cloudcompute.Manifest.Dependencies.{event_graph}
use cloudcompute.Manifest.Sorting.{IsSortable, IsSortOf, sort_manifests_lem}
use cloudcompute.Manifest.Isolated.{sort_manifests_drops}
use cloudcompute.KeyValues.{merge, set_val}

abbrev pub manifest : Uuid → List Uuid → ComputeManifest ℕ
manifest id deps = record empty_manifest { manifest_id = id; dependencies = deps }

abbrev pub event_of : List (ComputeManifest ℕ) → Event ℕ
event_of ms = record {
  id = 9;
  per_event_loop_num = 0;
  event_identifier = "";
  manifests = ms;
  is_sorted = false;
  additional_event_env_vars = [];
}

abbrev pub three : Event ℕ
three = event_of (manifest 3 (1 ∷ 2 ∷ []) ∷ manifest 2 (1 ∷ []) ∷ manifest 1 [] ∷ [])

abbrev pub three_sorted : Event ℕ
three_sorted = event_of (manifest 1 [] ∷ manifest 2 (1 ∷ []) ∷ manifest 3 (1 ∷ 2 ∷ []) ∷ [])

abbrev with_isolated : Event ℕ
with_isolated = event_of (manifest 2 (1 ∷ []) ∷ manifest 1 [] ∷ manifest 7 [] ∷ [])

abbrev cyclic : Event ℕ
cyclic = event_of (manifest 2 (1 ∷ []) ∷ manifest 1 (2 ∷ []) ∷ [])

pub three_order : sort_manifests three ≡ return (three_sorted, none)
unfolding sort_manifests ℕ_discrete deps_to_graph topological_sort
three_order = refl

isolated_order :
    sort_manifests with_isolated
    ≡ return (event_of (manifest 1 [] ∷ manifest 2 (1 ∷ []) ∷ empty_manifest ∷ []), none)
unfolding sort_manifests ℕ_discrete deps_to_graph topological_sort
isolated_order = refl

pub three-IsSortable : IsSortable (λ v. v) three.manifests
unfolding deps_to_graph ℕ_discrete
three-IsSortable = record {
  several = omega arith;
  once = (refl, (refl, (refl, tt)));
  closed = ((refl, (refl, tt)), ((refl, tt), (tt, tt)));
  linked = (refl, (refl, (refl, tt)));
  ranked = ((omega arith, (omega arith, tt)), ((omega arith, tt), (tt, tt)));
}

sort_manifests_lem_example :
    (sorted : List (ComputeManifest ℕ)) × (sort_manifests three
      ≡ return (record three { manifests = sorted }, none))
    × Found three.manifests (manifest_ids sorted) sorted
    × IsSortOf three.manifests (manifest_ids sorted)
sort_manifests_lem_example = sort_manifests_lem (λ v. v) three three-IsSortable

sort_manifests_drops_example :
    has ℕ_discrete 7 (manifest_ids (manifest 1 [] ∷ manifest 2 (1 ∷ []) ∷ empty_manifest ∷ []))
    ≡ false
unfolding deps_to_graph ℕ_discrete
sort_manifests_drops_example =
    sort_manifests_drops with_isolated
      (event_of (manifest 1 [] ∷ manifest 2 (1 ∷ []) ∷ empty_manifest ∷ [])) 7 (omega arith)
      (omega arith) refl isolated_order

cyclic-edges : ¬ IsAcyclic ℕ_discrete (event_graph cyclic.manifests)
unfolding deps_to_graph ℕ_discrete
cyclic-edges (rank, rises) = omega (arith, rises.0.0, rises.1.0.0)

abbrev pub kvp : String → String → KeyValuePair
kvp name value = record { name = name; value = value }

abbrev defaults : KeyValuePairs
defaults = kvp "A" "1" ∷ kvp "B" "2" ∷ []

abbrev overrides : KeyValuePairs
overrides = kvp "B" "3" ∷ kvp "C" "4" ∷ []

merged : merge defaults overrides ≡ kvp "A" "1" ∷ kvp "B" "3" ∷ kvp "C" "4" ∷ []
unfolding merge String_discrete set_val
merged = refl

abbrev table : Map String String
table = ("A", "1") ∷ ("B", "2") ∷ []
