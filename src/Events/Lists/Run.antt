-- ===== src/Events/Lists/Run.antt =====
-- The event loop over an EventList.
use cloudcompute.Base.{
  ℕ, zero, suc, ◌≤◌, ◌≡◌, refl, List, [], ◌∷◌, ◌++◌, some, length, get_elem?, arith, length-append,
  append_assoc,
}
use cloudcompute.Manifest.{Event}
use cloudcompute.Events.{Ending, finished, panicked, event_loop}
use cloudcompute.Events.Lists.{new_event_list, identified, next_event}

module _ {Value : Type 0} where
  -- The events of the slice from position `i`, each with an identifier.
  abbrev pub identified_from : ℕ → List (Event Value) → List (Event Value)
  identified_from i [] = []
  identified_from i (e ∷ es) = identified i e ∷ identified_from (suc i) es

  get_elem?-length :
      (done es : List (Event Value)) (e : Event Value)
      → get_elem? (done ++ e ∷ es) (length done) ≡ some e
  get_elem?-length [] es e = refl
  get_elem?-length (d ∷ done) es e = get_elem?-length done es e

  loop_from :
      (fuel : ℕ) (done : List (Event Value)) (e : Event Value) (es : List (Event Value))
      → length es ≤ fuel
      → event_loop next_event
          (suc fuel)
          (record { current_event = length done; events = done ++ e ∷ es })
        ≡ (identified_from (length done) (e ∷ es), finished)
  unfolding event_loop next_event
  loop_from fuel done e [] h =
      ground (arith, get_elem?-length done [] e, length-append done (e ∷ []))
  loop_from zero done e (e' ∷ es) h = absurd (omega arith)
  loop_from (suc fuel) done e (e' ∷ es) h = ground (
    arith,
    get_elem?-length done (e' ∷ es) e,
    length-append done (e ∷ e' ∷ es),
    length-append done (e ∷ []),
    append_assoc done (e ∷ []) (e' ∷ es),
    loop_from fuel (done ++ e ∷ []) e' es,
  )

  -- A run over no events ends in a panic.
  abbrev pub list_ending : List (Event Value) → Ending
  list_ending [] = panicked
  list_ending (e ∷ es) = finished

  -- The loop hands on the events of the slice in order, each with an identifier, and ends; over the
  -- empty slice it panics.
  pub event_list_loop :
      (fuel : ℕ) (es : List (Event Value))
      → length es ≤ suc fuel
      → event_loop next_event (suc fuel) (new_event_list es)
        ≡ (identified_from 0 es, list_ending es)
  unfolding new_event_list event_loop next_event
  event_list_loop fuel [] h = refl
  event_list_loop fuel (e ∷ es) h = loop_from fuel [] e es (omega arith)
