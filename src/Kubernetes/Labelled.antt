-- ===== src/Kubernetes/Labelled.antt =====
-- The labels of the jobs of a compute.
use Prim.Native.Char.{code}
use cloudcompute.Base.{
  ◌≡◌, refl, String, List, [], ◌∷◌, Bool, true, false, ◌==◌, ◌||◌, arith, return, length,
}
use cloudcompute.Base.Text.{join}
use cloudcompute.Manifest.{Uuid, Event}
use cloudcompute.Jobs.Names.{guid_shape, matches, is_hex}
use cloudcompute.Jobs.Names.Segments.{IsGuid, text_length}
use cloudcompute.Compute.{Names, CloudCompute, job_name_of}
use cloudcompute.Kubernetes.{split, labels_of}

abbrev pub has_underscore : String → Bool
has_underscore String.[] = false
has_underscore (String.◌∷◌ c s) = code c == 95 || has_underscore s

split-whole : (s : String) → has_underscore s ≡ false → split s ≡ s ∷ []
unfolding split
split-whole String.[] h = refl
split-whole (String.◌∷◌ c s) h = ground (arith, split-whole s)

split-segment :
    (s rest : String) → has_underscore s ≡ false → split (join s (join "_" rest)) ≡ s ∷ split rest
unfolding split
split-segment String.[] rest h = refl
split-segment (String.◌∷◌ c s) rest h = ground (arith, split-segment s rest)

matches-underscore :
    (shape : List Bool) (s : String)
    → matches shape s ≡ true
    → text_length s ≡ length shape
    → has_underscore s ≡ false
unfolding matches is_hex
matches-underscore shape String.[] m l = refl
matches-underscore [] (String.◌∷◌ c s) m l = absurd (omega (arith, l))
matches-underscore (true ∷ shape) (String.◌∷◌ c s) m l =
    ground (arith, m, l, matches-underscore shape s)
matches-underscore (false ∷ shape) (String.◌∷◌ c s) m l =
    ground (arith, m, l, matches-underscore shape s)

guid-underscore : (s : String) → IsGuid s → has_underscore s ≡ false
guid-underscore s h = matches-underscore guid_shape s h.has_shape (unfold guid_shape in h.has_size)

-- The labels of a job on the cluster are the ids of its compute, its event and itself, where the
-- profile holds no `_` and a uuid's text is written as a guid.
pub labels-job_name_of :
    {Value : Type 0} (names : Names) (compute : CloudCompute) (e : Event Value) (job_id : Uuid)
    → has_underscore names.profile ≡ false
    → ((id : Uuid) → IsGuid (names.uuid_string id))
    → labels_of (job_name_of names compute e job_id)
      ≡ return (record {
        compute = names.uuid_string compute.id;
        event = names.uuid_string e.id;
        job = names.uuid_string job_id;
      })
unfolding job_name_of labels_of
labels-job_name_of names compute e job_id profile guid =
    let job = names.uuid_string job_id in
    let behind_j = join "j" (join "_" job) in
    let behind_event = join (names.uuid_string e.id) (join "_" behind_j) in
    let behind_e = join "e" (join "_" behind_event) in
    let behind_compute = join (names.uuid_string compute.id) (join "_" behind_e) in
    rw
      (
        split-segment names.profile (join "c" (join "_" behind_compute)) profile,
        split-segment (names.uuid_string compute.id) behind_e
            (guid-underscore (names.uuid_string compute.id) (guid compute.id)),
        split-segment (names.uuid_string e.id) behind_j
            (guid-underscore (names.uuid_string e.id) (guid e.id)),
        split-whole job (guid-underscore job (guid job_id)),
      )
      refl
