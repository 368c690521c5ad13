-- ===== src/Samples/Generators.antt =====
-- Event loops over small sources of events.
use cloudcompute.Base.{
  ℕ, ◌≡◌, refl, String, List, [], ◌∷◌, Option, none, some, String_discrete, arith, return, Outcome,
  map, All, ◌≢◌,
}
use cloudcompute.Base.Int.{pos, negsuc}
use cloudcompute.Base.Maps.{Map}
use cloudcompute.Base.Text.{trim_space}
use cloudcompute.Manifest.{ComputeManifest, Event, PayloadAttributes, nil_uuid}
use cloudcompute.Manifest.Place.{manifest_ids}
use cloudcompute.Events.Batches.Identities.{Transforms, next_event-manifest_ids}
use cloudcompute.Events.{finished, panicked, unfinished, Next, event_loop}
use cloudcompute.Events.Looper.{new_per_event_looper}
use cloudcompute.Events.Arrays as Arrays
use cloudcompute.Events.Arrays.{ArrayEventGenerator, new_array_event_generator}
use cloudcompute.Events.Arrays.Run.{range_events, array_loop}
use cloudcompute.Events.Streams as Streams
use cloudcompute.Events.Streams.{
  new_streaming_event_generator, new_streaming_event_generator_for_reader,
}
use cloudcompute.Events.Streams.Scanner.{index, tokens_of}
use cloudcompute.Events.Streams.Scanner.Joined.{tokens_of-joined}
use cloudcompute.Events.Streams.Run.{named, reader_loop_finishes, stream_loop_hangs}
use cloudcompute.Samples.Computes.{names as sdk_names, store as sdk_store}
use cloudcompute.Manifest.{Uuid}
use cloudcompute.Base.{suc, ◌++◌, cond, ◌==◌}
use cloudcompute.Base.Text.{join}
use cloudcompute.Events.Batches as Batches
use cloudcompute.Events.Batches.{
  BatchEvent, BatchEventGenerator, merge_payload_attributes, new_batch_event_generator, entries_of,
  merge_uuid,
}
use cloudcompute.Events.Batches.Leaks.{attributes_at, next_event-leaks}
use cloudcompute.Events.Batches.Run.{identifiers, batch_loop_panics}
use cloudcompute.Samples.Manifests.{manifest, event_of, three}

abbrev variables : List (Map String String)
variables = (("SEED", "1") ∷ []) ∷ (("SEED", "2") ∷ []) ∷ []

array_loop_example :
    event_loop Arrays.next_event 6 (record {
      event = three;
      end = pos 1;
      position = negsuc 0;
      pel = new_per_event_looper variables;
    })
    ≡ (range_events three (negsuc 0) 2 variables, finished)
array_loop_example = array_loop three 5 2 (negsuc 0) variables (omega arith)

abbrev unrelated : Event ℕ
unrelated = event_of (manifest 1 [] ∷ manifest 2 [] ∷ [])

abbrev tokens : List String
tokens = " " ∷ "e2" ∷ []

-- The bytes of "e1\n \ne2", in two chunks, with the delimiter "\n".
abbrev chunks : List (List ℕ)
chunks = (101 ∷ 49 ∷ []) ∷ (10 ∷ 32 ∷ 10 ∷ 101 ∷ 50 ∷ []) ∷ []

abbrev texts : List (List ℕ)
texts = (101 ∷ 49 ∷ []) ∷ (32 ∷ []) ∷ []

abbrev last : List ℕ
last = 101 ∷ 50 ∷ []

abbrev letter : ℕ → String
letter b = cond (b == 101) "e" (cond (b == 49) "1" (cond (b == 50) "2" " "))

abbrev text_of : List ℕ → String
text_of [] = ""
text_of (b ∷ bs) = join (letter b) (text_of bs)

tokens_of-joined_example : tokens_of (10 ∷ []) chunks ≡ texts ++ last ∷ []
unfolding index
tokens_of-joined_example =
    tokens_of-joined (10 ∷ []) texts last chunks (omega arith) (refl, (refl, tt)) refl refl

reader_loop_finishes_example :
    event_loop Streams.next_event 3
      (new_streaming_event_generator_for_reader text_of three [] chunks (10 ∷ []))
    ≡ (named three "" ("e1" ∷ " " ∷ "e2" ∷ []), finished)
unfolding index trim_space String_discrete
reader_loop_finishes_example =
    reader_loop_finishes three text_of 2 (10 ∷ []) texts last chunks (omega arith)
      (refl, (refl, tt)) refl refl refl (omega arith)

stream_loop_hangs_example :
    (event_loop Streams.next_event 100 (new_streaming_event_generator three [] ("e1" ∷ " " ∷ []))).1
    ≡ unfinished
unfolding trim_space String_discrete
stream_loop_hangs_example = stream_loop_hangs three 100 ("e1" ∷ " " ∷ []) refl

abbrev drawn : ℕ → Uuid
drawn i = suc i

abbrev tagged : Event ℕ
tagged = event_of (record (manifest 1 []) { tags = some [] } ∷ [])

abbrev old : PayloadAttributes ℕ
old = ("a", some 1) ∷ ("b", some 2) ∷ []

abbrev new : PayloadAttributes ℕ
new = ("b", some 5) ∷ ("a", none) ∷ ("c", none) ∷ []

abbrev with_attributes : PayloadAttributes ℕ → ComputeManifest ℕ
with_attributes attributes =
    let inputs = (manifest 1 []).inputs in
    record (manifest 1 []) { inputs = record inputs { payload_attributes = some attributes } }

abbrev keep : ComputeManifest ℕ → ComputeManifest ℕ → Option (ComputeManifest ℕ)
keep dst src = some dst

abbrev batch : List (BatchEvent ℕ)
batch = record { event_identifier = "e1"; manifest_overrides = with_attributes new } ∷ []

abbrev first_call : Outcome (Next ℕ (BatchEventGenerator ℕ))
first_call =
    Batches.next_event keep (λ i. i)
      (new_batch_event_generator (event_of (with_attributes old ∷ [])) batch)

returned : (n : Next ℕ (BatchEventGenerator ℕ)) × (first_call ≡ return n) × (n.error ≡ none)
unfolding Batches.next_event new_batch_event_generator
returned = (_, refl, refl)

next_event-leaks_example :
    attributes_at 0 returned.0.generator.event.manifests ≡ some (merge_payload_attributes old new)
unfolding new_batch_event_generator
next_event-leaks_example =
    next_event-leaks keep (λ i. i)
      (new_batch_event_generator (event_of (with_attributes old ∷ [])) batch)
      (record { event_identifier = "e1"; manifest_overrides = with_attributes new }) returned.0 0
      old refl returned.1 returned.2 refl

-- A merge that looks at the ids alone.
abbrev merging : ComputeManifest ℕ → ComputeManifest ℕ → Option (ComputeManifest ℕ)
merging dst src = some (record dst { manifest_id = merge_uuid dst.manifest_id src.manifest_id })

merging-Transforms : Transforms merging
unfolding merge_uuid
merging-Transforms dst src merged e = ground (arith, e)

abbrev batch_of_three : BatchEventGenerator ℕ
batch_of_three = record {
  event = three;
  batch = record { event_identifier = "e1"; manifest_overrides = manifest 9 [] } ∷ [];
  index = 0;
  size = 1;
}

overridden :
    (n : Next ℕ (BatchEventGenerator ℕ)) × (Batches.next_event merging (λ i. i) batch_of_three
      ≡ return n)
    × (n.error ≡ none)
unfolding Batches.next_event
overridden = (_, refl, refl)

next_event-manifest_ids_example :
    (manifest_ids overridden.0.event.manifests ≡ map (λ id. merge_uuid id 9) (3 ∷ 2 ∷ 1 ∷ []))
    × (9 ≢ nil_uuid → All (λ id. id ≡ 9) (manifest_ids overridden.0.event.manifests))
next_event-manifest_ids_example =
    next_event-manifest_ids merging (λ i. i) batch_of_three
      (record { event_identifier = "e1"; manifest_overrides = manifest 9 [] }) overridden.0
      merging-Transforms refl overridden.1 overridden.2

batch_loop_panics_example :
    (let (events, end) =
        event_loop
          (Batches.next_event keep (λ i. i))
          2
          (new_batch_event_generator (event_of (with_attributes old ∷ [])) batch) in
      (identifiers events ≡ "e1" ∷ []) × (end ≡ panicked))
batch_loop_panics_example =
    batch_loop_panics keep (λ i. i) 2 (event_of (with_attributes old ∷ [])) batch (λ dst src e. cc)
      (refl, tt) (omega arith)
