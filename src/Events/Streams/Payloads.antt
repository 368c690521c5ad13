-- ===== src/Events/Streams/Payloads.antt =====
-- eventgenerator.go: NewStreamingEventGenerator, which writes the payload of every manifest, and
-- hands them on with every event.
use cloudcompute.Base.{ℕ, suc, String, List, [], ◌∷◌, Option, none, some, Outcome, return, ◌>>=◌}
use cloudcompute.Base.Maps.{Map}
use cloudcompute.Manifest.{Uuid, ComputeManifest, Event}
use cloudcompute.Compute.{Names, PayloadStore, write_payload}
use cloudcompute.Events.Streams.{StreamingEventGenerator, new_streaming_event_generator}

module _ {Value : Type 0} where
  abbrev pub cons_written :
      ComputeManifest Value
      → Option (List (ComputeManifest Value))
      → Option (List (ComputeManifest Value))
  cons_written m none = none
  cons_written m (some ms) = some (m ∷ ms)

  abbrev pub written_before :
      Outcome (Option (List (ComputeManifest Value)))
      → Option (ComputeManifest Value)
      → Outcome (Option (List (ComputeManifest Value)))
  written_before rest none = return none
  written_before rest (some m) = rest >>= λ ms. return (cons_written m ms)

  -- The loop over the manifests from position `i`; `none` where a payload could not be written.
  unfoldable pub write_payloads :
      Names
      → PayloadStore Value
      → (ℕ → Uuid)
      → ℕ
      → List (ComputeManifest Value)
      → Outcome (Option (List (ComputeManifest Value)))
  unfolding write_payload
  write_payloads names store new_payload i [] = return (some [])
  write_payloads names store new_payload i (m ∷ ms) =
      let rest = write_payloads names store new_payload (suc i) ms in
      write_payload names store (new_payload i) m >>= written_before rest

  abbrev pub generator_of :
      Event Value
      → List (Map String String)
      → List String
      → Option (List (ComputeManifest Value))
      → Option (StreamingEventGenerator Value)
  generator_of e pel tokens none = none
  generator_of e pel tokens (some ms) =
      some (new_streaming_event_generator (record e { manifests = ms }) pel tokens)

  -- The generator over a scanner with these tokens.
  unfoldable pub new_generator_with_payloads :
      Names
      → PayloadStore Value
      → (ℕ → Uuid)
      → Event Value
      → List (Map String String)
      → List String
      → Outcome (Option (StreamingEventGenerator Value))
  unfolding write_payloads new_streaming_event_generator
  new_generator_with_payloads names store new_payload e pel tokens =
      write_payloads names store new_payload 0 e.manifests >>= λ ms.
      return (generator_of e pel tokens ms)
