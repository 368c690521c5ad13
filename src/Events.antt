-- ===== src/Events.antt =====
-- eventgenerator.go: the interface of the sources of events, and the loop of
-- `CloudCompute.RunParallel` (cloudcompute.go) that draws events from one. A mutex serialises the
-- calls of `NextEvent`, so a call is one step from the generator's state to the next.
pub mod Looper
pub mod Arrays
pub mod Streams
pub mod Batches
pub mod Lists
use cloudcompute.Base.{
  ℕ, zero, suc, List, [], ◌∷◌, Bool, true, false, Option, none, some, Outcome, return, panic,
}
use cloudcompute.Manifest.{Event}

pub data EventError : Type 0 where
  empty_event_identifier : ℕ → EventError
  merge_failed copy_failed : EventError

-- What a call of `NextEvent` returns, and the generator after it.
pub record Next (Value G : Type 0) : Type 0 where
  pub event : Event Value
  pub has_next : Bool
  pub error : Option EventError
  pub generator : G

abbrev pub NextEvent : Type 0 → Type 0 → Type 0
NextEvent Value G = G → Outcome (Next Value G)

-- How the event loop ended; `unfinished` where the fuel did not suffice.
pub data Ending : Type 0 where
  finished panicked unfinished : Ending

-- The `for` loop of `RunParallel`: the events that are handed to the submission function, in order.
-- An error is logged and the loop goes on, whatever `hasNext` says.
unfoldable pub event_loop :
    {Value G : Type 0} → NextEvent Value G → ℕ → G → List (Event Value) × Ending
event_loop next zero g = ([], unfinished)
event_loop next (suc fuel) g = elim (next g) [
  | panic ↦ ([], panicked)
  | return n ↦ elim n.error [
    | some e ↦ event_loop next fuel n.generator
    | none ↦ elim n.has_next [
      | true ↦ let (events, end) = event_loop next fuel n.generator in (n.event ∷ events, end)
      | false ↦ (n.event ∷ [], finished)
    ]
  ]
]
