-- ===== src/Jobs.antt =====
-- compute-provider.go and the plugin types of cloudcompute.go: jobs, what a provider is asked for,
-- and the mapping of manifest dependencies to submitted jobs. A Go pointer that may be nil is an
-- `Option`.
pub mod Names
use cloudcompute.Base.{
  ℕ, String, List, [], ◌∷◌, Bool, true, false, Option, none, some, ite, String_discrete, ℕ_discrete,
  Outcome, return, panic,
}
use cloudcompute.Base.Int.{ℤ}
use cloudcompute.Base.Maps.{Map, get_or}
use cloudcompute.Manifest.{Uuid, KeyValuePairs, ResourceRequirement}

pub record ContainerOverrides : Type 0 where
  pub command : List String
  pub environment : KeyValuePairs
  pub resource_requirements : List ResourceRequirement

pub record SubmitJobResult : Type 0 where
  pub job_id : Option String
  pub resource_name : Option String

pub record Job : Type 0 where
  pub id : Uuid
  pub event_id : Uuid
  pub per_event_loop_num : ℕ
  pub manifest_id : Uuid
  pub payload_id : Uuid
  pub job_name : String
  pub job_queue : String
  pub job_definition : String
  pub container_overrides : ContainerOverrides
  pub depends_on : List String
  pub manifest_dependencies : List Uuid
  pub parameters : Map String String
  pub tags : Map String String
  pub retry_attempts : ℤ
  pub job_timeout : ℤ
  pub submitted_job : Option SubmitJobResult

pub record MountPoint : Type 0 where
  pub container_path : String
  pub read_only : Bool
  pub source_volume : String

pub record LinuxDevice : Type 0 where
  pub host_path : Option String
  pub container_path : Option String

pub record PluginComputeEnvironment : Type 0 where
  pub vcpu : String
  pub memory : String
  pub extra_hosts : List String
  pub ephemeral_storage : String

pub record PluginComputeVolumes : Type 0 where
  pub name : String
  pub resource_name : String
  pub read_only : Bool
  pub mount_point : String

pub record Plugin : Type 0 where
  pub name : String
  pub image_and_tag : String
  pub description : String
  pub command : List String
  pub compute_environment : PluginComputeEnvironment
  pub default_environment : KeyValuePairs
  pub volumes : List PluginComputeVolumes
  pub credentials : KeyValuePairs
  pub parameters : Map String String
  pub retry_attempts : ℤ
  pub execution_timeout : Option ℕ
  pub privileged : Bool
  pub devices : List LinuxDevice
  pub mount_points : List MountPoint

abbrev pub SubmissionIdMap : Type 0
SubmissionIdMap = Map Uuid String

pub record SubmitJobsInput : Type 0 where
  pub compute_id : Uuid
  pub jobs : List Job
  pub submission_id_map : SubmissionIdMap

-- `MapDependencies` over the ids: one that was not submitted leaves the empty text.
unfoldable pub map_dependencies : SubmissionIdMap → List Uuid → List String
map_dependencies ids [] = []
map_dependencies ids (d ∷ ds) = get_or ℕ_discrete "" d ids ∷ map_dependencies ids ds

pub record VendorJob : Type 0 where
  pub id : String
  pub name : String

unfoldable pub includes_job : List VendorJob → String → Bool
includes_job [] id = false
includes_job (v ∷ vs) id = ite (String_discrete v.id id) true (includes_job vs id)

-- The times are Unix milliseconds.
pub record JobSummary : Type 0 where
  pub job_id : String
  pub job_name : String
  pub created_at : Option ℕ
  pub started_at : Option ℕ
  pub status : String
  pub status_detail : Option String
  pub stopped_at : Option ℕ
  pub resource_name : String

pub record JobNameParts : Type 0 where
  pub compute : String
  pub event : String
  pub job : String

-- A query of the jobs of a level, COMPUTE, EVENT or JOB, by the ids down to it. The function that
-- processes the summaries is left out.
pub record JobsSummaryQuery : Type 0 where
  pub query_level : String
  pub query_value : JobNameParts

pub record TerminateJobInput : Type 0 where
  pub reason : String
  pub job_queue : String
  pub query : JobsSummaryQuery
  pub vendor_jobs : Option (List VendorJob)

abbrev vendor_job_of : String → Option SubmitJobResult → Outcome VendorJob
vendor_job_of name none = panic
vendor_job_of name (some r) = elim r.job_id [
  | none ↦ panic
  | some id ↦ return (record { id = id; name = name })
]

-- `ToVendorJob`: a job that was not submitted is a nil pointer.
unfoldable pub to_vendor_job : Job → Outcome VendorJob
to_vendor_job job = vendor_job_of job.job_name job.submitted_job

-- The revision is an int32.
pub record PluginRegistrationOutput : Type 0 where
  pub name : String
  pub resource_name : String
  pub revision : ℤ
