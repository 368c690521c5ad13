-- ===== src/Compute/Named.antt =====
-- The names of jobs: JobNameParts.Parse, and the queries for them.
use cloudcompute.Base.{◌≡◌, refl, [], some}
use cloudcompute.Base.Text.{join}
use cloudcompute.Manifest.{Uuid, Event}
use cloudcompute.Jobs.Names.{guids_of, parse}
use cloudcompute.Jobs.Names.Segments.{IsGuid, guids_of-IsGuid, guids_of-segment, parse-guids_of}
use cloudcompute.Compute.{Names, CloudCompute, job_name_of}

letter_c : guids_of "c" ≡ []
unfolding guids_of
letter_c = refl

letter_e : guids_of "e" ≡ []
unfolding guids_of
letter_e = refl

letter_j : guids_of "j" ≡ []
unfolding guids_of
letter_j = refl

-- The parts of a job's name are the ids of its compute, its event and itself, where a uuid's text
-- is written as a guid, and the profile holds none.
pub parse-job_name_of :
    {Value : Type 0} (names : Names) (compute : CloudCompute) (e : Event Value) (job_id : Uuid)
    → guids_of names.profile ≡ []
    → ((id : Uuid) → IsGuid (names.uuid_string id))
    → parse (job_name_of names compute e job_id)
      ≡ some (record {
        compute = names.uuid_string compute.id;
        event = names.uuid_string e.id;
        job = names.uuid_string job_id;
      })
unfolding job_name_of
parse-job_name_of names compute e job_id profile guid =
    let job = names.uuid_string job_id in
    let behind_j = join "j" (join "_" job) in
    let behind_event = join (names.uuid_string e.id) (join "_" behind_j) in
    let behind_e = join "e" (join "_" behind_event) in
    let behind_compute = join (names.uuid_string compute.id) (join "_" behind_e) in
    parse-guids_of (job_name_of names compute e job_id) (names.uuid_string compute.id)
      (names.uuid_string e.id) job
      (rw
        (
          guids_of-segment names.profile (join "c" (join "_" behind_compute)),
          profile,
          guids_of-segment "c" behind_compute,
          letter_c,
          guids_of-segment (names.uuid_string compute.id) behind_e,
          guids_of-IsGuid (names.uuid_string compute.id) (guid compute.id),
          guids_of-segment "e" behind_event,
          letter_e,
          guids_of-segment (names.uuid_string e.id) behind_j,
          guids_of-IsGuid (names.uuid_string e.id) (guid e.id),
          guids_of-segment "j" job,
          letter_j,
          guids_of-IsGuid job (guid job_id),
        )
        refl)
