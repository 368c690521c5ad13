-- ===== src/Events/Batches.antt =====
-- eventgenerator.go: BatchEventGenerator, one event for each override of a batch, and the merge of
-- a manifest with an override. `utils.Copy` copies the fields of a manifest, and so shares its maps
-- and slices with the original: what the merge writes into the attribute map of the inputs, and
-- into the actions, is written into the generator's own event, and is there for the next call.
pub mod Attributes
pub mod Leaks
pub mod Identities
pub mod Run
use cloudcompute.Base.{
  ℕ, suc, ◌+◌, String, List, [], ◌∷◌, ◌++◌, Bool, true, false, Option, none, some, ite, cond, leb,
  ◌==◌, length, get_elem?, Outcome, return, panic, ◌>>=◌, String_discrete,
}
use cloudcompute.Base.Maps.{Map, lookup, insert}
use cloudcompute.Manifest.{
  Uuid, nil_uuid, ComputeManifest, PluginInputs, Event, Action, PayloadAttributes, empty_manifest,
  shallow_or_deep,
}
use cloudcompute.Events.{Next, EventError, merge_failed}

pub record BatchEvent (Value : Type 0) : Type 0 where
  pub event_identifier : String
  pub manifest_overrides : ComputeManifest Value

pub record BatchEventGenerator (Value : Type 0) : Type 0 where
  pub event : Event Value
  pub batch : List (BatchEvent Value)
  pub index : ℕ
  pub size : ℕ

-- `uuidTransformer`: what the merge of a uuid leaves in the destination.
unfoldable pub merge_uuid : Uuid → Uuid → Uuid
merge_uuid dst src = cond (src == nil_uuid) dst src

-- The merged manifests, whether `mergo.Merge` failed, and the originals afterwards.
pub record Merged (Value : Type 0) : Type 0 where
  pub merged : List (ComputeManifest Value)
  pub failed : Bool
  pub originals : List (ComputeManifest Value)

module _ {Value : Type 0} where
  abbrev pub empty_event : Event Value
  empty_event = record {
    id = nil_uuid;
    per_event_loop_num = 0;
    event_identifier = "";
    manifests = [];
    is_sorted = false;
    additional_event_env_vars = [];
  }

  unfoldable pub new_batch_event_generator :
      Event Value → List (BatchEvent Value) → BatchEventGenerator Value
  new_batch_event_generator e batch = record {
    event = e;
    batch = batch;
    index = 0;
    size = length batch;
  }

  -- A value is written where the key is missing, or where the value is not nil.
  pub put_attribute : String → Option Value → PayloadAttributes Value → PayloadAttributes Value
  put_attribute key none dst = elim (lookup String_discrete key dst) [
    | none ↦ insert String_discrete key none dst
    | some old ↦ dst
  ]
  put_attribute key (some v) dst = insert String_discrete key (some v) dst

  -- The keys of `src` in the order in which `range` visits them.
  unfoldable pub merge_payload_attributes :
      PayloadAttributes Value → PayloadAttributes Value → PayloadAttributes Value
  unfolding put_attribute
  merge_payload_attributes dst [] = dst
  merge_payload_attributes dst ((key, value) ∷ src) =
      merge_payload_attributes (put_attribute key value dst) src

  -- The loop over `dst.Actions`: an action of `dst` with no counterpart in `src` is an index out of
  -- range.
  unfoldable pub merge_actions :
      List (Action Value) → List (Action Value) → Outcome (List (Action Value))
  merge_actions [] src = return []
  merge_actions (d ∷ ds) [] = panic
  merge_actions (d ∷ ds) (s ∷ src) = do
    rest ← merge_actions ds src
    return (record d { attributes = merge_payload_attributes d.attributes s.attributes } ∷ rest)

  abbrev pub entries_of : Option (PayloadAttributes Value) → PayloadAttributes Value
  entries_of none = []
  entries_of (some attributes) = attributes

  -- The manifest behind the two manual merges, before `mergo.Merge`.
  pub merge_by_hand :
      ComputeManifest Value → ComputeManifest Value → Outcome (ComputeManifest Value)
  unfolding merge_actions
  merge_by_hand dst src =
      let inputs = dst.inputs in
      let attributes =
        merge_payload_attributes (entries_of inputs.payload_attributes)
          (entries_of src.inputs.payload_attributes) in
      merge_actions dst.actions src.actions >>= λ actions. return (record dst {
        inputs = record inputs { payload_attributes = some attributes };
        actions = actions;
      })

  -- What the original manifest sees of the merge into its copy: the copy's attribute map, unless
  -- there was none to share, and its actions.
  abbrev pub shared_attributes :
      Option (PayloadAttributes Value)
      → Option (PayloadAttributes Value)
      → Option (PayloadAttributes Value)
  shared_attributes none written = none
  shared_attributes (some old) written = written

  pub write_through : ComputeManifest Value → ComputeManifest Value → ComputeManifest Value
  write_through original copy =
      let inputs = original.inputs in
      record original {
        inputs = record inputs {
          payload_attributes =
              shared_attributes inputs.payload_attributes copy.inputs.payload_attributes;
        };
        actions = copy.actions;
      }

  -- `mergo.Merge` is an argument: it takes the two manifests and returns the merged one, or `none`
  -- for an error. What it writes itself into maps that the original shares is left out.
  module _
      (mergo : ComputeManifest Value → ComputeManifest Value → Option (ComputeManifest Value)) where
    pub merge_all : List (ComputeManifest Value) → ComputeManifest Value → Outcome (Merged Value)
    unfolding merge_by_hand write_through
    merge_all [] src = return (record { merged = []; failed = false; originals = [] })
    merge_all (m ∷ ms) src =
        let rest = merge_all ms src in
        merge_by_hand (shallow_or_deep true m) src >>= λ copy. elim (mergo copy src) [
          | none ↦
              return (record { merged = []; failed = true; originals = write_through m copy ∷ ms })
          | some merged ↦ rest >>= λ r. return (record {
            merged = merged ∷ r.merged;
            failed = r.failed;
            originals = write_through m copy ∷ r.originals;
          })
        ]

    -- The generator whose event holds the originals as they are left.
    abbrev pub left_with :
        BatchEventGenerator Value → List (ComputeManifest Value) → ℕ → BatchEventGenerator Value
    left_with beg originals index =
        let event = beg.event in
        record beg { event = record event { manifests = originals }; index = index }

    pub finish :
        BatchEventGenerator Value
        → BatchEvent Value
        → Uuid
        → Merged Value
        → Next Value (BatchEventGenerator Value)
    finish beg b new_id r =
        let has_next = leb (beg.index + 1) beg.size in
        cond r.failed
          (record {
            event = empty_event;
            has_next = has_next;
            error = some merge_failed;
            generator = left_with beg r.originals beg.index;
          })
          (record {
            event = record empty_event {
              id = new_id;
              event_identifier = b.event_identifier;
              manifests = r.merged;
            };
            has_next = has_next;
            error = none;
            generator = left_with beg r.originals (suc beg.index);
          })

    -- The id of the event is that of `uuid.New`, here a function of the index.
    unfoldable pub next_event :
        (ℕ → Uuid) → BatchEventGenerator Value → Outcome (Next Value (BatchEventGenerator Value))
    unfolding merge_all finish
    next_event new_uuid beg = elim (get_elem? beg.batch beg.index) [
      | none ↦ panic
      | some b ↦ merge_all beg.event.manifests b.manifest_overrides >>= λ r.
          return (finish beg b (new_uuid beg.index) r)
    ]
