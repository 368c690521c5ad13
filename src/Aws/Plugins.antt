-- ===== src/Aws/Plugins.antt =====
-- providers/awsbatch/aws-batch.go: the registration of plugins, and the logs of jobs. The clients
-- of Batch and of CloudWatch are parameters; `none` is an error of theirs.
use cloudcompute.Base.{
  ℕ, String, List, [], ◌∷◌, Bool, Option, none, some, ite, String_discrete, Outcome, return, panic,
  ◌>>=◌, ◌/◌,
}
use cloudcompute.Base.Maps.{Map}
use cloudcompute.Base.Text.{join}
use cloudcompute.Manifest.{KeyValuePairs, vcpu, memory, ResourceRequirement}
use cloudcompute.Jobs.{Plugin, LinuxDevice, JobSummary, PluginRegistrationOutput}
use cloudcompute.Aws.{BatchPair, kvp_to_batch_kvp}

unfoldable pub creds_to_batch_secrets : KeyValuePairs → List BatchPair
creds_to_batch_secrets [] = []
creds_to_batch_secrets (s ∷ creds) =
    record { name = s.name; value = s.value } ∷ creds_to_batch_secrets creds

unfoldable pub batch_devices : List LinuxDevice → List LinuxDevice
batch_devices [] = []
batch_devices (d ∷ devices) =
    record { host_path = d.host_path; container_path = d.container_path } ∷ batch_devices devices

-- `toBatchLinuxParams`, with `none` for nil.
unfoldable pub to_batch_linux_params : List LinuxDevice → Option (List LinuxDevice)
unfolding batch_devices
to_batch_linux_params [] = none
to_batch_linux_params (d ∷ devices) = some (batch_devices (d ∷ devices))

-- The map in an order in which `range` visits it.
unfoldable pub params_map_to_kvp : Map String String → List BatchPair
params_map_to_kvp [] = []
params_map_to_kvp ((k, v) ∷ params) = record { name = k; value = v } ∷ params_map_to_kvp params

-- A definition of a job, of type container.
pub record JobDefinition : Type 0 where
  pub name : String
  pub command : List String
  pub environment : List BatchPair
  pub execution_role : String
  pub image : String
  pub is_privileged : Bool
  pub linux_parameters : Option (List LinuxDevice)
  pub resource_requirements : List ResourceRequirement
  pub secrets : List BatchPair
  pub timeout : Option ℕ

unfoldable pub job_definition_of : String → Plugin → JobDefinition
unfolding kvp_to_batch_kvp to_batch_linux_params creds_to_batch_secrets
job_definition_of execution_role plugin = record {
  name = plugin.name;
  command = plugin.command;
  environment = kvp_to_batch_kvp plugin.default_environment;
  execution_role = execution_role;
  image = plugin.image_and_tag;
  is_privileged = plugin.privileged;
  linux_parameters = to_batch_linux_params plugin.devices;
  resource_requirements =
      record { kind = memory; value = plugin.compute_environment.memory }
      ∷ record { kind = vcpu; value = plugin.compute_environment.vcpu }
      ∷ [];
  secrets = creds_to_batch_secrets plugin.credentials;
  timeout = plugin.execution_timeout;
}

-- `RegisterPlugin`, with `none` for the error of the client.
unfoldable pub register_plugin :
    (JobDefinition → Option PluginRegistrationOutput)
    → String
    → Plugin
    → Option PluginRegistrationOutput
unfolding job_definition_of
register_plugin register execution_role plugin = register (job_definition_of execution_role plugin)

unfoldable pub unregister_plugin : (String → Bool) → String → Bool
unregister_plugin deregister name_and_revision = deregister name_and_revision

-- A job in the answer of Batch. Its pointers may be nil.
pub record BatchSummary : Type 0 where
  pub job_id : Option String
  pub job_name : Option String
  pub created_at : Option ℕ
  pub started_at : Option ℕ
  pub status : String
  pub status_reason : Option String
  pub stopped_at : Option ℕ
  pub job_arn : Option String

abbrev summary_of :
    BatchSummary → Option String → Option String → Option String → Outcome JobSummary
summary_of s (some id) (some name) (some arn) = return (record {
  job_id = id;
  job_name = name;
  created_at = s.created_at;
  started_at = s.started_at;
  status = s.status;
  status_detail = s.status_reason;
  stopped_at = s.stopped_at;
  resource_name = arn;
})
summary_of s _ _ _ = panic

unfoldable pub list_output_to_job_summary : List BatchSummary → Outcome (List JobSummary)
list_output_to_job_summary [] = return []
list_output_to_job_summary (s ∷ summaries) =
    let rest = list_output_to_job_summary summaries in
    summary_of s s.job_id s.job_name s.job_arn >>= λ js. rest >>= λ jss. return (js ∷ jss)

-- An event of a log, with its time in milliseconds.
pub record LogEvent : Type 0 where
  pub timestamp : ℕ
  pub message : String

pub record LogEvents : Type 0 where
  pub events : List LogEvent
  pub next_forward_token : Option String

pub record JobLogOutput : Type 0 where
  pub logs : List String
  pub token : Option String

-- A token that is empty is none.
abbrev pub token_or_none : Option String → Option String
token_or_none none = none
token_or_none (some token) = ite (String_discrete token "") none (some token)

-- The lines of a log, where `time_text` writes a time in seconds.
unfoldable pub log_lines : (ℕ → String) → List LogEvent → List String
log_lines time_text [] = []
log_lines time_text (v ∷ events) =
    join (time_text (v.timestamp / 1000)) (join ": " v.message) ∷ log_lines time_text events

-- `JobLog`, of the log streams of the jobs with an id, and of what CloudWatch answers for a stream
-- and a token. Where Batch does not know the job, the first of no jobs is an index out of range.
abbrev logs_of :
    (ℕ → String)
    → (String → Option String → Option (Option LogEvents))
    → Option String
    → List String
    → Outcome (Option JobLogOutput)
logs_of time_text get_log_events token [] = panic
logs_of time_text get_log_events token (stream ∷ streams) = elim (get_log_events stream token) [
  | none ↦ return none
  | some none ↦ return (some (record { logs = "No logs" ∷ []; token = none }))
  | some (some answer) ↦ return (
      some (record { logs = log_lines time_text answer.events; token = answer.next_forward_token }))
]

unfoldable pub job_log :
    (ℕ → String)
    → (String → Option (List String))
    → (String → Option String → Option (Option LogEvents))
    → String
    → Option String
    → Outcome (Option JobLogOutput)
unfolding log_lines
job_log time_text describe get_log_events vendor_job_id token = elim (describe vendor_job_id) [
  | none ↦ return none
  | some streams ↦ logs_of time_text get_log_events (token_or_none token) streams
]
