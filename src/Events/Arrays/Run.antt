-- ===== src/Events/Arrays/Run.antt =====
-- The event loop over an ArrayEventGenerator.
use cloudcompute.Base.{
  ℕ, zero, suc, ◌+◌, ◌*◌, ◌≤◌, ◌<◌, ◌≡◌, refl, List, [], ◌∷◌, ◌++◌, Bool, true, false, Option, none,
  some, length, get_elem?, ltb, return, arith, length-append, append_assoc, String, sym, ◌∙◌,
  append-nil,
}
use cloudcompute.Base.Int.{ℤ, pos, negsuc, increment, lt_ℤ}
use cloudcompute.Base.Maps.{Map}
use cloudcompute.Base.Text.{itoa}
use cloudcompute.Manifest.{Event}
use cloudcompute.Events.{finished, event_loop}
use cloudcompute.Events.Looper.{PerEventLooper, Turn, next_turn, new_per_event_looper}
use cloudcompute.Events.Arrays.{ArrayEventGenerator, with_turn, next_event}

-- `n` steps up from `p`.
abbrev pub advance : ℕ → ℤ → ℤ
advance zero p = p
advance (suc n) p = advance n (increment p)

advance-pos : (n a : ℕ) → advance n (pos a) ≡ pos (a + n)
advance-pos zero a = ground arith
advance-pos (suc n) a = ground (arith, advance-pos n (suc a))

lt-advance : (n : ℕ) (p : ℤ) → lt_ℤ p (advance n p) ≡ ltb 0 n
lt-advance n (pos a) = ground (arith, advance-pos n a)
lt-advance zero (negsuc a) = ground arith
lt-advance (suc n) (negsuc zero) = ground (arith, advance-pos n 0)
lt-advance (suc n) (negsuc (suc a)) = ground (arith, above n a (suc a))
  where
    above : (n a b : ℕ) → a < b → lt_ℤ (negsuc b) (advance n (negsuc a)) ≡ true
    above zero a b h = ground arith
    above (suc n) zero b h = ground (arith, advance-pos n 0)
    above (suc n) (suc a) b h = above n a b (omega arith)

module _ {Value : Type 0} (event : Event Value) where
  abbrev turn : Map String String → Bool → ℕ → Turn
  turn vars more j = record { env_vars = vars; increment_event = more; per_event_loop_pos = j }

  abbrev stamp : ℤ → Map String String → ℕ → Event Value
  stamp p vars j = record (with_turn (turn vars true j) event) { event_identifier = itoa p }

  -- One event for each entry of the looper's data, at position `p`.
  abbrev pub entries : ℤ → ℕ → List (Map String String) → List (Event Value)
  entries p j [] = []
  entries p j (vars ∷ rest) = stamp p vars j ∷ entries p (suc j) rest

  -- The events of `n + 1` positions from `p` on: one each, or one for each entry of the data.
  abbrev pub at_position : ℤ → List (Map String String) → List (Event Value)
  at_position p [] = record event { event_identifier = itoa p } ∷ []
  at_position p (vars ∷ rest) = entries p 0 (vars ∷ rest)

  abbrev pub range_events : ℤ → ℕ → List (Map String String) → List (Event Value)
  range_events p zero pel = at_position p pel
  range_events p (suc n) pel = at_position p pel ++ range_events (increment p) n pel

  -- How many calls of `NextEvent` one position takes.
  abbrev pub calls : List (Map String String) → ℕ
  calls [] = 1
  calls (vars ∷ rest) = suc (length rest)

  abbrev generator : ℤ → ℤ → Option PerEventLooper → ArrayEventGenerator Value
  generator p end pel = record { event = event; end = end; position = p; pel = pel }

  plain_loop :
      (n fuel : ℕ) (p : ℤ)
      → n ≤ fuel
      → event_loop next_event (suc fuel) (generator p (advance n p) none)
        ≡ (range_events p n [], finished)
  unfolding event_loop next_event
  plain_loop zero fuel p h = ground (arith, lt-advance zero p)
  plain_loop (suc n) zero p h = absurd (omega arith)
  plain_loop (suc n) (suc fuel) p h =
      ground (arith, lt-advance (suc n) p, plain_loop n fuel (increment p))

  get_elem?-split :
      (done rest : List (Map String String)) (vars : Map String String)
      → get_elem? (done ++ vars ∷ rest) (length done) ≡ some vars
  get_elem?-split [] rest vars = refl
  get_elem?-split (d ∷ done) rest vars = get_elem?-split done rest vars

  abbrev later : ℕ → ℤ → List (Map String String) → List (Event Value)
  later zero p pel = []
  later (suc n) p pel = range_events (increment p) n pel

  range-later :
      (n : ℕ) (p : ℤ) (first : Map String String) (more : List (Map String String))
      → range_events p n (first ∷ more) ≡ entries p 0 (first ∷ more) ++ later n p (first ∷ more)
  range-later zero p first more = sym (append-nil (entries p 0 (first ∷ more)))
  range-later (suc n) p first more = refl

  abbrev looper : List (Map String String) → ℕ → PerEventLooper
  looper pel j = record {
    per_event_loop_data = pel;
    per_event_loop_position = j;
    per_event_loops = length pel;
  }

  looping_step :
      (done rest : List (Map String String)) (vars : Map String String)
      (pel : List (Map String String))
      → done ++ vars ∷ rest ≡ pel
      → next_turn (looper pel (length done)) ≡ (elim rest [
        | [] ↦ return (turn vars true (length done), looper pel 0)
        | x ∷ xs ↦ return (turn vars false (length done), looper pel (suc (length done)))
      ])
  unfolding next_turn
  looping_step done [] vars pel e =
      ground (arith, e, get_elem?-split done [] vars, length-append done (vars ∷ []))
  looping_step done (x ∷ xs) vars pel e =
      ground (arith, e, get_elem?-split done (x ∷ xs) vars, length-append done (vars ∷ x ∷ xs))

  looping_loop :
      (fuel n : ℕ) (p : ℤ) (done rest more : List (Map String String))
      (vars first : Map String String)
      → done ++ vars ∷ rest ≡ first ∷ more
      → length rest + n * suc (length more) ≤ fuel
      → event_loop next_event
          (suc fuel)
          (generator p (advance n p) (some (looper (first ∷ more) (length done))))
        ≡ (entries p (length done) (vars ∷ rest) ++ later n p (first ∷ more), finished)
  unfolding event_loop next_event
  looping_loop fuel zero p done [] more vars first e h =
      ground (arith, looping_step done [] vars (first ∷ more) e, lt-advance zero p)
  looping_loop zero (suc n) p done [] more vars first e h = absurd (grind arith)
  looping_loop (suc fuel) (suc n) p done [] more vars first e h = ground (
    arith,
    looping_step done [] vars (first ∷ more) e,
    lt-advance (suc n) p,
    range-later n (increment p) first more,
    looping_loop fuel n (increment p) [] more more first first refl (grind arith),
  )
  looping_loop zero n p done (x ∷ rest) more vars first e h = absurd (omega arith)
  looping_loop (suc fuel) n p done (x ∷ rest) more vars first e h = ground (
    arith,
    looping_step done (x ∷ rest) vars (first ∷ more) e,
    looping_loop fuel n p (done ++ vars ∷ []) rest more x first
        (append_assoc done (vars ∷ []) (x ∷ rest) ∙ e) (omega arith),
    length-append done (vars ∷ []),
  )

  -- With `end` at `n` positions above the start, the loop hands on one event for each position from
  -- the start to `end` and each entry of the looper's data, in that order, and ends. The fuel is
  -- the number of events.
  pub array_loop :
      (fuel n : ℕ) (p : ℤ) (pel : List (Map String String))
      → suc n * calls pel ≤ suc fuel
      → event_loop next_event (suc fuel) (record {
        event = event;
        end = advance n p;
        position = p;
        pel = new_per_event_looper pel;
      })
        ≡ (range_events p n pel, finished)
  unfolding new_per_event_looper
  array_loop fuel n p [] h = plain_loop n fuel p (omega arith)
  array_loop fuel n p (first ∷ more) h =
      looping_loop fuel n p [] more more first first refl (grind arith)
      ∙ rw (range-later n p first more)
