-- ===== src/Events/Lists.antt =====
-- eventgenerator.go: EventList, the events of a slice in order.
pub mod Run
use cloudcompute.Base.{
  ℕ, suc, ◌+◌, List, Bool, Option, none, some, length, get_elem?, ltb, ite, Outcome, return, panic,
  String_discrete,
}
use cloudcompute.Base.Int.{pos}
use cloudcompute.Base.Text.{itoa}
use cloudcompute.Manifest.{Event}
use cloudcompute.Events.{Next}

pub record EventList (Value : Type 0) : Type 0 where
  pub current_event : ℕ
  pub events : List (Event Value)

module _ {Value : Type 0} where
  unfoldable pub new_event_list : List (Event Value) → EventList Value
  new_event_list events = record { current_event = 0; events = events }

  -- An event with no identifier gets its position.
  abbrev pub identified : ℕ → Event Value → Event Value
  identified i e =
      ite (String_discrete e.event_identifier "") (record e { event_identifier = itoa (pos i) }) e

  -- `current < len - 1` over Go's signed integers is `current + 1 < len`.
  unfoldable pub next_event : EventList Value → Outcome (Next Value (EventList Value))
  next_event el = elim (get_elem? el.events el.current_event) [
    | none ↦ panic
    | some e ↦ return (record {
      event = identified el.current_event e;
      has_next = ltb (suc el.current_event) (length el.events);
      error = none;
      generator = record el { current_event = suc el.current_event };
    })
  ]
