-- ===== src/Events/Looper.antt =====
-- eventgenerator.go: PerEventLooper, which repeats each event once for each entry of its data.
use cloudcompute.Base.{
  ℕ, suc, String, List, [], ◌∷◌, Bool, true, false, Option, none, some, length, get_elem?, ltb,
  cond, Outcome, return, panic,
}
use cloudcompute.Base.Maps.{Map}

pub record PerEventLooper : Type 0 where
  pub per_event_loop_data : List (Map String String)
  pub per_event_loop_position : ℕ
  pub per_event_loops : ℕ

-- `nil` where there is no data.
unfoldable pub new_per_event_looper : List (Map String String) → Option PerEventLooper
new_per_event_looper [] = none
new_per_event_looper (entry ∷ pel) = some (record {
  per_event_loop_data = entry ∷ pel;
  per_event_loop_position = 0;
  per_event_loops = length (entry ∷ pel);
})

-- What `Next` returns: the variables, whether to go on to the next event, and the position.
pub record Turn : Type 0 where
  pub env_vars : Map String String
  pub increment_event : Bool
  pub per_event_loop_pos : ℕ

abbrev read_turn :
    Option (Map String String) → Bool → ℕ → PerEventLooper → Outcome (Turn × PerEventLooper)
read_turn none more pos pel = panic
read_turn (some vars) more pos pel =
    return (record { env_vars = vars; increment_event = more; per_event_loop_pos = pos }, pel)

-- `position < loops - 1` over Go's signed integers is `position + 1 < loops`.
unfoldable pub next_turn : PerEventLooper → Outcome (Turn × PerEventLooper)
next_turn pel =
    let pos = pel.per_event_loop_position in
    cond (ltb (suc pos) pel.per_event_loops)
      (read_turn (get_elem? pel.per_event_loop_data pos) false pos
        (record pel { per_event_loop_position = suc pos }))
      (read_turn (get_elem? pel.per_event_loop_data pos) true pos
        (record pel { per_event_loop_position = 0 }))
