-- ===== src/Events/Arrays.antt =====
-- eventgenerator.go: ArrayEventGenerator, one event for each number of a range.

pub mod Run
pub mod Created
use cloudcompute.Base.{
  ℕ, zero, suc, ◌+◌, List, [], ◌∷◌, ◌++◌, Bool, true, false, Option, none, some, length, set,
  replicate, ltb, cond, Outcome, return, panic, ◌>>=◌, String,
}
use cloudcompute.Base.Int.{ℤ, pos, increment, lt_ℤ}
use cloudcompute.Base.Maps.{Map}
use cloudcompute.Base.Text.{itoa}
use cloudcompute.Toposort.{SortError}
use cloudcompute.Manifest.{Uuid, ComputeManifest, Event, empty_manifest, get_manifest, topo_sort}
use cloudcompute.KeyValues.{map_to_kvps}
use cloudcompute.Events.{Next, EventError}
use cloudcompute.Events.Looper.{PerEventLooper, Turn, new_per_event_looper, next_turn}

-- `position` and `end` are Go `int64`s.
pub record ArrayEventGenerator (Value : Type 0) : Type 0 where
  pub event : Event Value
  pub end : ℤ
  pub position : ℤ
  pub pel : Option PerEventLooper

module _ {Value : Type 0} where
  -- The loop of the constructor over the ordered ids: an error is logged, and the empty manifest
  -- that came with it stays.
  unfoldable pub place_all :
      List (ComputeManifest Value)
      → ℕ
      → List Uuid
      → List (ComputeManifest Value)
      → Outcome (List (ComputeManifest Value))
  place_all ms i [] ordered = return ordered
  place_all ms i (oid ∷ ids) ordered =
      let rest = place_all ms (suc i) ids (set ordered i (get_manifest ms oid).0) in
      cond (ltb i (length ordered)) rest panic

  unfoldable pub order_manifests : Event Value → Outcome (Event Value)
  unfolding place_all
  order_manifests e =
      cond (ltb 1 (length e.manifests))
        (place_all e.manifests 0 (topo_sort e).0 (replicate (length e.manifests) empty_manifest)
          >>= λ ordered. return (record e { manifests = ordered }))
        (return e)

  unfoldable pub new_array_event_generator :
      Event Value → List (Map String String) → ℤ → ℤ → Outcome (ArrayEventGenerator Value)
  unfolding order_manifests
  new_array_event_generator e data' start end = order_manifests e >>= λ ordered.
      return
        (record { event = ordered; end = end; position = start; pel = new_per_event_looper data' })

  -- The part of `NextEvent` behind the looper's turn.
  pub emit :
      ArrayEventGenerator Value
      → Option PerEventLooper
      → Event Value
      → Bool
      → Next Value (ArrayEventGenerator Value)
  emit aeg pel e false = record {
    event = record e { event_identifier = itoa aeg.position };
    has_next = true;
    error = none;
    generator = record aeg { pel = pel };
  }
  emit aeg pel e true = record {
    event = record e { event_identifier = itoa aeg.position };
    has_next = lt_ℤ aeg.position aeg.end;
    error = none;
    generator = record aeg { pel = pel; position = increment aeg.position };
  }

  -- The event with what the looper's turn gives it.
  abbrev pub with_turn : Turn → Event Value → Event Value
  with_turn t e = record e {
    additional_event_env_vars = map_to_kvps t.env_vars;
    per_event_loop_num = t.per_event_loop_pos;
  }

  pub take_turn :
      ArrayEventGenerator Value
      → Option PerEventLooper
      → Outcome (Next Value (ArrayEventGenerator Value))
  unfolding emit
  take_turn aeg none = return (emit aeg none aeg.event true)
  take_turn aeg (some pel) = next_turn pel >>= λ (t, pel').
      return (emit aeg (some pel') (with_turn t aeg.event) t.increment_event)

  unfoldable pub next_event :
      ArrayEventGenerator Value → Outcome (Next Value (ArrayEventGenerator Value))
  unfolding take_turn
  next_event aeg = take_turn aeg aeg.pel
