-- ===== src/Events/Streams/Shared.antt =====
-- The events of a stream share the payloads that its generator has written.
use cloudcompute.Base.{
  ℕ, suc, ◌==◌, ◌≡◌, List, [], ◌∷◌, false, Option, none, some, All, Outcome, return, panic,
}
use cloudcompute.Manifest.{Uuid, nil_uuid, ComputeManifest, Event}
use cloudcompute.Jobs.{Job}
use cloudcompute.Compute.{Names, CloudCompute, make_job}
use cloudcompute.Events.Streams.{StreamingEventGenerator}

module _ {Value : Type 0} where
  -- Every manifest has a payload.
  abbrev pub AllWritten : List (ComputeManifest Value) → Type 0
  AllWritten ms = All (λ m. (m.payload_id == nil_uuid) ≡ false) ms

  abbrev Writes : Outcome (Option (List (ComputeManifest Value))) → Type 0
  Writes panic = Unit
  Writes (return none) = Unit
  Writes (return (some ms)) = AllWritten ms

  abbrev WritesOne : Outcome (Option (ComputeManifest Value)) → Type 0
  WritesOne panic = Unit
  WritesOne (return none) = Unit
  WritesOne (return (some m)) = (m.payload_id == nil_uuid) ≡ false

  -- The jobs of manifests that have their payloads.
  abbrev pub jobs_with :
      Names → CloudCompute → (ℕ → Uuid) → ℕ → Event Value → List (ComputeManifest Value) → List Job
  jobs_with names compute new_job i e [] = []
  jobs_with names compute new_job i e (m ∷ ms) =
      make_job names compute e m (new_job i) ∷ jobs_with names compute new_job (suc i) e ms

  abbrev Hands : Outcome (Option (StreamingEventGenerator Value)) → Type 0
  Hands panic = Unit
  Hands (return none) = Unit
  Hands (return (some g)) = AllWritten g.event.manifests
