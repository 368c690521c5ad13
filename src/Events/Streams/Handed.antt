-- ===== src/Events/Streams/Handed.antt =====
-- The manifests of the events that the loop hands on from a stream.
use cloudcompute.Base.{
  ℕ, zero, suc, ◌≡◌, refl, String, List, [], ◌∷◌, Bool, true, false, Option, none, some, All,
  Outcome, return, panic, ◌>>=◌, String_discrete, ite, subst,
}
use cloudcompute.Manifest.{ComputeManifest, Event}
use cloudcompute.Events.{Next, EventError, event_loop, Ending, finished, panicked}
use cloudcompute.Events.Looper.{PerEventLooper, Turn, next_turn}
use cloudcompute.Events.Arrays.{with_turn}
use cloudcompute.Events.Streams.{
  StreamingEventGenerator, scan, scan_next, emit, take_turn, skip_token, next_event,
}

module _ {Value : Type 0} where
  scan-event :
      (tokens : List String) (seg : StreamingEventGenerator Value)
      → (scan tokens seg).event ≡ seg.event
  unfolding scan
  scan-event [] seg = refl
  scan-event (token ∷ tokens) seg = refl

  scan_next-event : (seg : StreamingEventGenerator Value) → (scan_next seg).event ≡ seg.event
  unfolding scan_next
  scan_next-event seg = scan-event seg.scanner seg

  -- An event that is handed on has the manifests of `e`, and the generator keeps its event.
  abbrev Keeps : Event Value → Outcome (Next Value (StreamingEventGenerator Value)) → Type 0
  Keeps e panic = Unit
  Keeps e (return n) = (n.error ≡ none → n.event.manifests ≡ e.manifests) × (n.generator.event ≡ e)

  emit-Keeps :
      (seg : StreamingEventGenerator Value) (e : Event Value) (increment : Bool)
      → e.manifests ≡ seg.event.manifests
      → Keeps seg.event (return (emit seg e increment))
  unfolding emit
  emit-Keeps seg e true h = (λ ok. h, scan_next-event seg)
  emit-Keeps seg e false h = (λ ok. h, refl)

  turn-Keeps :
      (seg : StreamingEventGenerator Value) (turn : Outcome (Turn × PerEventLooper))
      → Keeps seg.event (
          turn >>= λ (t, pel'). return (
            emit
              (record seg { per_event_looper = some pel' })
              (with_turn t seg.event)
              t.increment_event))
  turn-Keeps seg panic = tt
  turn-Keeps seg (return (t, pel')) =
      emit-Keeps (record seg { per_event_looper = some pel' }) (with_turn t seg.event)
        t.increment_event refl

  take_turn-Keeps :
      (seg : StreamingEventGenerator Value) (looper : Option PerEventLooper)
      → Keeps seg.event (take_turn seg looper)
  unfolding take_turn
  take_turn-Keeps seg none = emit-Keeps seg seg.event true refl
  take_turn-Keeps seg (some pel) = turn-Keeps seg (next_turn pel)

  ite-Keeps :
      {P : Type 0} (d : Dec P) (e : Event Value)
      (a b : Outcome (Next Value (StreamingEventGenerator Value)))
      → Keeps e a
      → Keeps e b
      → Keeps e (ite d a b)
  ite-Keeps (yes p) e a b h k = h
  ite-Keeps (no n) e a b h k = k

  next_event-Keeps : (seg : StreamingEventGenerator Value) → Keeps seg.event (next_event seg)
  unfolding next_event skip_token
  next_event-Keeps seg =
      ite-Keeps (String_discrete seg.event_id "") seg.event (return (skip_token seg))
        (take_turn seg seg.per_event_looper) (λ ok. refl, scan_next-event seg)
        (take_turn-Keeps seg seg.per_event_looper)

  -- Every event that the loop hands on has these manifests.
  abbrev pub AllHave : List (ComputeManifest Value) → List (Event Value) × Ending → Type 0
  AllHave ms (events, end) = All (λ e. e.manifests ≡ ms) events

  cons-AllHave :
      (ms : List (ComputeManifest Value)) (e : Event Value) (r : List (Event Value) × Ending)
      → e.manifests ≡ ms
      → AllHave ms r
      → AllHave ms (let (events, end) = r in (e ∷ events, end))
  cons-AllHave ms e (events, end) h k = (h, k)

  -- One round of the loop, by what the call and its error and `hasNext` are.
  round-AllHave :
      (e : Event Value) (fuel : ℕ) (n : Next Value (StreamingEventGenerator Value))
      (error : Option EventError) (more : Bool)
      → (error ≡ none → n.event.manifests ≡ e.manifests)
      → AllHave e.manifests (event_loop next_event fuel n.generator)
      → AllHave e.manifests (elim error [
        | some e ↦ event_loop next_event fuel n.generator
        | none ↦ elim more [
          | true ↦
              let (events, end) = event_loop next_event fuel n.generator in (n.event ∷ events, end)
          | false ↦ (n.event ∷ [], finished)
        ]
      ])
  round-AllHave e fuel n (some wrong) more h rest = rest
  round-AllHave e fuel n none false h rest = (h refl, tt)
  round-AllHave e fuel n none true h rest =
      cons-AllHave e.manifests n.event (event_loop next_event fuel n.generator) (h refl) rest

  call-AllHave :
      (e : Event Value) (fuel : ℕ) (o : Outcome (Next Value (StreamingEventGenerator Value)))
      → Keeps e o
      → ((g : StreamingEventGenerator Value)
          → g.event ≡ e
          → AllHave e.manifests (event_loop next_event fuel g))
      → AllHave e.manifests (elim o [
        | panic ↦ ([], panicked)
        | return n ↦ elim n.error [
          | some e ↦ event_loop next_event fuel n.generator
          | none ↦ elim n.has_next [
            | true ↦
                let (events, end) = event_loop next_event fuel n.generator in
                (n.event ∷ events, end)
            | false ↦ (n.event ∷ [], finished)
          ]
        ]
      ])
  call-AllHave e fuel panic k rest = tt
  call-AllHave e fuel (return n) k rest =
      round-AllHave e fuel n n.error n.has_next k.0 (rest n.generator k.1)

  pub event_loop-AllHave :
      (fuel : ℕ) (e : Event Value) (g : StreamingEventGenerator Value)
      → g.event ≡ e
      → AllHave e.manifests (event_loop next_event fuel g)
  unfolding event_loop
  event_loop-AllHave zero e g same = tt
  event_loop-AllHave (suc fuel) e g same =
      call-AllHave e fuel (next_event g)
        (subst (λ e. Keeps e (next_event g)) same (next_event-Keeps g))
        (λ g' same'. event_loop-AllHave fuel e g' same')
