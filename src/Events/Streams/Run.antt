-- ===== src/Events/Streams/Run.antt =====
-- The event loop over a StreamingEventGenerator.
use cloudcompute.Base.{
  ℕ, zero, suc, ◌≤◌, ◌<◌, ◌++◌, All, some, map, length-map, length-append, ◌≡◌, refl, String, List,
  [], ◌∷◌, Bool, true, false, none, ite, length, arith, String_discrete,
}
use cloudcompute.Base.Text.{trim_space}
use cloudcompute.Manifest.{Event}
use cloudcompute.Events.{finished, unfinished, event_loop}
use cloudcompute.Events.Looper.{new_per_event_looper}
use cloudcompute.Events.Streams.{
  StreamingEventGenerator, new_streaming_event_generator, next_event,
  new_streaming_event_generator_for_reader,
}
use cloudcompute.Events.Streams.Scanner.{index, concat}
use cloudcompute.Events.Streams.Scanner.Joined.{joined, last_token, tokens_of-joined}

trim_empty : trim_space "" ≡ ""
unfolding trim_space
trim_empty = refl

-- Is the last of the identifiers blank, `id` the one before the tokens?
abbrev pub ends_blank : String → List String → Bool
ends_blank id [] = ite (String_discrete id "") true false
ends_blank id (token ∷ tokens) = ends_blank (trim_space token) tokens

length-last_token : (last : List ℕ) → length (last_token last) ≤ 1
length-last_token [] = omega arith
length-last_token (b ∷ bs) = omega arith

module _ {Value : Type 0} (event : Event Value) where
  abbrev state : ℕ → Bool → String → List String → StreamingEventGenerator Value
  state index has_next id tokens = record {
    event = event;
    scanner = tokens;
    index = index;
    per_event_looper = none;
    has_next = has_next;
    event_id = id;
  }

  -- The events of the tokens that are not blank.
  abbrev pub named : String → List String → List (Event Value)
  named id [] = ite (String_discrete id "") [] (record event { event_identifier = id } ∷ [])
  named id (token ∷ tokens) =
      let rest = named (trim_space token) tokens in
      ite (String_discrete id "") rest (record event { event_identifier = id } ∷ rest)

  run_finishes :
      (fuel index : ℕ) (more : Bool) (id : String) (tokens : List String)
      → ends_blank id tokens ≡ false
      → length tokens ≤ fuel
      → event_loop next_event (suc fuel) (state index more id tokens) ≡ (named id tokens, finished)
  unfolding event_loop next_event
  run_finishes fuel index more id [] h enough = ground arith
  run_finishes zero index more id (token ∷ tokens) h enough = absurd (omega arith)
  run_finishes (suc fuel) index more id (token ∷ tokens) h enough =
      ground (arith, run_finishes fuel (suc index) true (trim_space token) tokens)

  run_hangs :
      (fuel index : ℕ) (more : Bool) (id : String) (tokens : List String)
      → ends_blank id tokens ≡ true
      → (event_loop next_event fuel (state index more id tokens)).1 ≡ unfinished
  unfolding event_loop next_event
  run_hangs zero index more id tokens h = refl
  run_hangs (suc fuel) index more id [] h =
      ground (arith, trim_empty, run_hangs fuel (suc index) false (trim_space "") [])
  run_hangs (suc fuel) index more id (token ∷ tokens) h =
      ground (arith, run_hangs fuel (suc index) true (trim_space token) tokens)

  -- Over a stream whose last token is not blank, and with no looper data, the loop hands on one
  -- event for each token that is not blank, in order, and ends; the fuel is the number of tokens.
  pub stream_loop_finishes :
      (fuel : ℕ) (token : String) (tokens : List String)
      → ends_blank (trim_space token) tokens ≡ false
      → length tokens ≤ fuel
      → event_loop next_event (suc fuel) (new_streaming_event_generator event [] (token ∷ tokens))
        ≡ (named (trim_space token) tokens, finished)
  unfolding new_streaming_event_generator new_per_event_looper
  stream_loop_finishes fuel token tokens = run_finishes fuel 0 true (trim_space token) tokens

  tokens_finish :
      (fuel : ℕ) (tokens : List String)
      → ends_blank "" tokens ≡ false
      → length tokens ≤ suc fuel
      → event_loop next_event (suc fuel) (new_streaming_event_generator event [] tokens)
        ≡ (named "" tokens, finished)
  unfolding String_discrete
  tokens_finish fuel [] h enough = ground arith
  tokens_finish fuel (token ∷ tokens) h enough =
      stream_loop_finishes fuel token tokens h (omega (arith, enough))

  -- Over a reader that gives texts with a delimiter that is not empty between them, the last one
  -- not blank, with no looper data, the loop hands on one event for each text that is not blank,
  -- in order, and ends; the first delimiter of each text with the delimiter behind it is that one,
  -- the chunks of the reader are any, and the fuel is the number of texts.
  pub reader_loop_finishes :
      (text : List ℕ → String) (fuel : ℕ) (delimiter : List ℕ) (texts : List (List ℕ))
      (last : List ℕ) (chunks : List (List ℕ))
      → 0 < length delimiter
      → All (λ t. index delimiter (t ++ delimiter) ≡ some (length t)) texts
      → index delimiter last ≡ none
      → concat chunks ≡ joined delimiter texts last
      → ends_blank "" (map text (texts ++ last_token last)) ≡ false
      → length texts ≤ fuel
      → event_loop next_event
          (suc fuel)
          (new_streaming_event_generator_for_reader text event [] chunks delimiter)
        ≡ (named "" (map text (texts ++ last_token last)), finished)
  unfolding new_streaming_event_generator_for_reader
  reader_loop_finishes text fuel delimiter texts last chunks pos first free whole blank enough =
      let tokens = texts ++ last_token last in
      let size : length (map text tokens) ≤ suc fuel = omega (
        arith,
        enough,
        length-map text tokens,
        length-append texts (last_token last),
        length-last_token last,
      ) in
      rw (tokens_of-joined delimiter texts last chunks pos first free whole)
        (tokens_finish fuel (map text tokens) blank size)

  -- Over an empty stream, or one whose last token is blank, with no looper data, the loop never
  -- ends: `NextEvent` returns an error with `hasNext` false, and the loop calls it again.
  pub stream_loop_hangs :
      (fuel : ℕ) (tokens : List String)
      → ends_blank "" tokens ≡ true
      → (event_loop next_event fuel (new_streaming_event_generator event [] tokens)).1 ≡ unfinished
  unfolding new_streaming_event_generator new_per_event_looper
  stream_loop_hangs fuel [] h =
      ground (arith, trim_empty, run_hangs fuel 0 false (trim_space "") [])
  stream_loop_hangs fuel (token ∷ tokens) h = run_hangs fuel 0 true (trim_space token) tokens h
