-- ===== src/Samples/Computes.antt =====
-- An event of three manifests, prepared for a provider.
use cloudcompute.Base.{
  ℕ, ◌+◌, ◌≡◌, refl, List, String, [], ◌∷◌, true, none, some, String_discrete, return, panic,
}
use cloudcompute.Base.Int.{pos}
use cloudcompute.Base.Text.{itoa}
use cloudcompute.Manifest.{Uuid, ComputeManifest, sort_manifests}
use cloudcompute.Jobs.{SubmitJobsInput}
use cloudcompute.Docker.Provider.Linked.{IsInOrder}
use cloudcompute.Manifest.{KeyValuePairs}
use cloudcompute.KeyValues.{get_val, has_key, merge}
use cloudcompute.Compute.{
  job_environment, Names, CloudCompute, PayloadStore, build_jobs, prepare_event, job_name_of,
}
use cloudcompute.Compute.Named.{parse-job_name_of}
use cloudcompute.Jobs.Names.{guids_of, parse, matches, guid_shape}
use cloudcompute.Jobs.Names.Segments.{IsGuid}
use cloudcompute.Compute.Environment.{expected_merged, value_of, expected, job_environment_lem}
use cloudcompute.Compute.Built.{prepare_event-IsInOrder}
use cloudcompute.Compute.Payloads.{IsAvailable, jobs_of, build_jobs-panics, prepare_event_lem}
use cloudcompute.Samples.Manifests.{manifest, three, three-IsSortable}

abbrev pub names : Names
names = record {
  payload_id = "PAYLOAD";
  manifest_id = "MANIFEST";
  event_identifier = "EVENT";
  event_number = "EVENT_NUMBER";
  plugin_definition = "PLUGIN";
  profile = "cc";
  uuid_string = λ u. itoa (pos u);
}

abbrev pub store : PayloadStore ℕ
store = record { opens = λ m p. true; takes = λ m. true }

pub store-IsAvailable : IsAvailable store
store-IsAvailable = record { opened = λ m p. refl; taken = λ m. refl }

abbrev pub compute : CloudCompute
compute = record { id = 50; job_queue = "queue" }

abbrev pub new_payload : ℕ → Uuid
new_payload i = 100 + i

abbrev pub new_job : ℕ → Uuid
new_job i = 200 + i

-- A text with the shape of a guid.
abbrev pub uuid_text : String
uuid_text = "01234567-89ab-cdef-0123-456789ABCDEF"

abbrev pub guid_names : Names
guid_names = record names { uuid_string = λ u. uuid_text }

pub uuid_text-IsGuid : (id : Uuid) → IsGuid (guid_names.uuid_string id)
unfolding matches guid_shape
uuid_text-IsGuid id = record { has_shape = refl; has_size = refl }

no_guid : guids_of guid_names.profile ≡ []
unfolding guids_of
no_guid = refl

parse-job_name_of_example :
    parse (job_name_of guid_names compute three 7)
    ≡ some (record { compute = uuid_text; event = uuid_text; job = uuid_text })
parse-job_name_of_example = parse-job_name_of guid_names compute three 7 no_guid uuid_text-IsGuid

job_environment_lem_example :
    (value_of names three (manifest 3 []) "PAYLOAD"
      ≡ expected names three (manifest 3 []) "PAYLOAD" "0")
    × (value_of names three (manifest 3 []) "MANIFEST"
        ≡ expected names three (manifest 3 []) "MANIFEST" "3")
    × (value_of names three (manifest 3 []) "EVENT"
        ≡ expected names three (manifest 3 []) "EVENT" "")
    × (value_of names three (manifest 3 []) "EVENT_NUMBER"
        ≡ expected names three (manifest 3 []) "EVENT_NUMBER" "")
    × (value_of names three (manifest 3 []) "PLUGIN"
        ≡ expected names three (manifest 3 []) "PLUGIN" "")
    × ((defaults : KeyValuePairs)
        → (let merged = merge defaults (job_environment names three (manifest 3 [])) in
            (get_val merged "PAYLOAD" ≡ expected_merged names three (manifest 3 []) "PAYLOAD" "0")
            × (get_val merged "MANIFEST"
                ≡ expected_merged names three (manifest 3 []) "MANIFEST" "3")
            × (get_val merged "PLUGIN" ≡ expected_merged names three (manifest 3 []) "PLUGIN" "")))
unfolding String_discrete itoa has_key
job_environment_lem_example =
    job_environment_lem names three (manifest 3 []) (refl, (refl, (refl, (refl, (refl, tt)))))

prepare_event_lem_example :
    (sorted : List (ComputeManifest ℕ)) × (sort_manifests three
      ≡ return (record three { manifests = sorted }, none))
    × (prepare_event names store compute new_payload new_job none three
        ≡ return (
            some (record {
              compute_id = 50;
              jobs =
                  jobs_of names store compute new_payload new_job 0
                    (record three { manifests = sorted })
                    sorted;
              submission_id_map = [];
            })))
prepare_event_lem_example =
    prepare_event_lem names store compute new_payload new_job (λ v. v) three three-IsSortable refl
      store-IsAvailable (refl, (refl, (refl, tt)))

prepared :
    (sorted : List (ComputeManifest ℕ)) × (sort_manifests three
      ≡ return (record three { manifests = sorted }, none))
    × (prepare_event names store compute new_payload new_job none three
        ≡ return (
            some (record {
              compute_id = 50;
              jobs =
                  jobs_of names store compute new_payload new_job 0
                    (record three { manifests = sorted })
                    sorted;
              submission_id_map = [];
            })))
prepared =
    prepare_event_lem names store compute new_payload new_job (λ v. v) three three-IsSortable refl
      store-IsAvailable (refl, (refl, (refl, tt)))

abbrev submitted : SubmitJobsInput
submitted = record {
  compute_id = 50;
  jobs =
      jobs_of names store compute new_payload new_job 0 (record three { manifests = prepared.0 })
        prepared.0;
  submission_id_map = [];
}

prepare_event-IsInOrder_example : IsInOrder [] submitted.jobs
prepare_event-IsInOrder_example =
    prepare_event-IsInOrder names store compute new_payload new_job (λ v. v) three submitted
      three-IsSortable refl prepared.2

abbrev untagged : ComputeManifest ℕ
untagged =
    let inputs = (manifest 1 []).inputs in
    record (manifest 1 []) { inputs = record inputs { data_sources = 7 ∷ [] } }

build_jobs-panics_example :
    build_jobs names store compute new_payload new_job 0 three (manifest 2 [] ∷ untagged ∷ [])
    ≡ panic
build_jobs-panics_example =
    build_jobs-panics names store compute new_payload new_job 0 three
      (manifest 2 [] ∷ untagged ∷ []) store-IsAvailable refl
