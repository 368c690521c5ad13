-- ===== src/Events/Streams.antt =====
-- eventgenerator.go: StreamingEventGenerator, one event for each token of a scanner. The scanner
-- (`bufio.Scanner`) is the list of tokens that are still to come; behind the last, `Scan` returns
-- false and `Text` is empty.
pub mod Scanner
pub mod Payloads
pub mod Handed
pub mod Shared
pub mod Run
use cloudcompute.Base.{
  ℕ, suc, ◌+◌, String, List, [], ◌∷◌, Bool, true, false, Option, none, some, ite, cond, Outcome,
  return, panic, ◌>>=◌, String_discrete, map,
}
use cloudcompute.Base.Maps.{Map}
use cloudcompute.Base.Text.{trim_space}
use cloudcompute.Manifest.{Event}
use cloudcompute.KeyValues.{map_to_kvps}
use cloudcompute.Events.{Next, EventError, empty_event_identifier}
use cloudcompute.Events.Looper.{PerEventLooper, Turn, new_per_event_looper, next_turn}
use cloudcompute.Events.Arrays.{with_turn}
use cloudcompute.Events.Streams.Scanner.{tokens_of}

pub record StreamingEventGenerator (Value : Type 0) : Type 0 where
  pub event : Event Value
  pub scanner : List String
  pub index : ℕ
  pub per_event_looper : Option PerEventLooper
  pub has_next : Bool
  pub event_id : String

module _ {Value : Type 0} where
  -- `Scan` and `TrimSpace(Text())`.
  scan : List String → StreamingEventGenerator Value → StreamingEventGenerator Value
  scan [] seg = record seg { scanner = []; has_next = false; event_id = trim_space "" }
  scan (token ∷ tokens) seg = record seg {
    scanner = tokens;
    has_next = true;
    event_id = trim_space token;
  }

  unfoldable pub new_streaming_event_generator :
      Event Value → List (Map String String) → List String → StreamingEventGenerator Value
  unfolding scan
  new_streaming_event_generator e pel tokens = scan tokens (record {
    event = e;
    scanner = tokens;
    index = 0;
    per_event_looper = new_per_event_looper pel;
    has_next = false;
    event_id = "";
  })

  scan_next : StreamingEventGenerator Value → StreamingEventGenerator Value
  unfolding scan
  scan_next seg = let seg' = scan seg.scanner seg in record seg' { index = suc seg.index }

  -- The event with the current token; the next token is read where the looper says so.
  emit :
      StreamingEventGenerator Value
      → Event Value
      → Bool
      → Next Value (StreamingEventGenerator Value)
  unfolding scan_next
  emit seg e increment_event =
      let seg' = cond increment_event (scan_next seg) seg in
      record {
        event = record e { event_identifier = seg.event_id };
        has_next = seg'.has_next;
        error = none;
        generator = seg';
      }

  take_turn :
      StreamingEventGenerator Value
      → Option PerEventLooper
      → Outcome (Next Value (StreamingEventGenerator Value))
  unfolding emit
  take_turn seg none = return (emit seg seg.event true)
  take_turn seg (some pel) = next_turn pel >>= λ (t, pel').
      return (
        emit (record seg { per_event_looper = some pel' }) (with_turn t seg.event)
          t.increment_event)

  skip_token : StreamingEventGenerator Value → Next Value (StreamingEventGenerator Value)
  unfolding scan_next
  skip_token seg =
      let seg' = scan_next seg in
      record {
        event = seg.event;
        has_next = seg'.has_next;
        error = some (empty_event_identifier seg'.index);
        generator = seg';
      }

  unfoldable pub next_event :
      StreamingEventGenerator Value → Outcome (Next Value (StreamingEventGenerator Value))
  unfolding take_turn skip_token
  next_event seg =
      ite (String_discrete seg.event_id "") (return (skip_token seg))
        (take_turn seg seg.per_event_looper)

  -- The generator over a reader, where `text` turns the bytes of a token into a text.
  unfoldable pub new_streaming_event_generator_for_reader :
      (List ℕ → String)
      → Event Value
      → List (Map String String)
      → List (List ℕ)
      → List ℕ
      → StreamingEventGenerator Value
  unfolding new_streaming_event_generator
  new_streaming_event_generator_for_reader text e pel chunks delimiter =
      new_streaming_event_generator e pel (map text (tokens_of delimiter chunks))
