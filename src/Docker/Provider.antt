-- ===== src/Docker/Provider.antt =====
-- docker-compute-provider.go and plugin-registry.go. The texts that `uuid.New`
-- yields are an argument, `new_id`, by how many were drawn before, and so is the text of a uuid.
pub mod Linked
pub mod Counts
use cloudcompute.Base.{
  ℕ, zero, suc, String, List, [], ◌∷◌, Option, none, some, String_discrete, ℕ_discrete,
}
use cloudcompute.Base.Maps.{Map, insert, delete, lookup, update}
use cloudcompute.Manifest.{Uuid}
use cloudcompute.Jobs.{
  Job, Plugin, SubmitJobResult, SubmissionIdMap, SubmitJobsInput, JobSummary, map_dependencies,
}
use cloudcompute.Docker.Queue.{
  JobStatus, submitted, pending, runnable, starting, running, succeeded, failed, DockerJob, jobs,
}
use cloudcompute.Docker.Manager.{Manager, add_job}

-- `InMemoryPluginRegistry`; in `get_plugin`, `none` is the error "is not registered".
abbrev pub PluginRegistry : Type 0
PluginRegistry = Map String Plugin

unfoldable pub register : Plugin → PluginRegistry → PluginRegistry
register plugin registry = insert String_discrete plugin.name plugin registry

unfoldable pub deregister : String → PluginRegistry → PluginRegistry
deregister name registry = delete String_discrete name registry

unfoldable pub get_plugin : String → PluginRegistry → Option Plugin
get_plugin name registry = lookup String_discrete name registry

-- What `SubmitJobs` returns, and the ids and the manager afterwards. The error names the job
-- definition that is not registered.
pub record Submission : Type 0 where
  pub workflow_name : String
  pub error : Option String
  pub submission_id_map : SubmissionIdMap
  pub manager : Manager

-- The job that is handed to the manager under the id `jobid`.
abbrev pub submitted_as : List String → String → Plugin → Job → DockerJob
submitted_as depends_on jobid plugin job = record {
  job = record job {
    depends_on = depends_on;
    submitted_job = some (record { job_id = some jobid; resource_name = none });
  };
  submitted_job_id = jobid;
  plugin = plugin;
  status = submitted;
  log = "";
  runner = none;
}

module _ (uuid_string : Uuid → String) (new_id : ℕ → String) (registry : PluginRegistry) where
  -- The loop over the jobs, of which `k` came before. `AddJob` blocks until the runner loop has
  -- received its event; the steps of the loop and of other goroutines in between are left out,
  -- since nothing here reads what they write.
  unfoldable pub submit_from : ℕ → String → SubmissionIdMap → Manager → List Job → Submission
  unfolding get_plugin
  submit_from k name ids m [] = record {
    workflow_name = name;
    error = none;
    submission_id_map = ids;
    manager = m;
  }
  submit_from k name ids m (job ∷ jobs) = elim (get_plugin job.job_definition registry) [
    | none ↦ record {
      workflow_name = uuid_string job.event_id;
      error = some job.job_definition;
      submission_id_map = ids;
      manager = m;
    }
    | some plugin ↦
        let depends_on = map_dependencies ids job.manifest_dependencies in
        submit_from (suc k) (uuid_string job.event_id)
          (insert ℕ_discrete job.manifest_id (new_id k) ids)
          (add_job (submitted_as depends_on (new_id k) plugin job) m) jobs
  ]

  unfoldable pub submit_jobs : Manager → SubmitJobsInput → Submission
  unfolding submit_from
  submit_jobs m input = submit_from 0 "" input.submission_id_map m input.jobs

abbrev pub status_text : JobStatus → String
status_text submitted = "SUBMITTED"
status_text pending = "PENDING"
status_text runnable = "RUNNABLE"
status_text starting = "STARTING"
status_text running = "RUNNING"
status_text succeeded = "SUCCEEDED"
status_text failed = "FAILED"

summaries : (Uuid → String) → List DockerJob → List JobSummary
summaries uuid_string [] = []
summaries uuid_string (j ∷ queue) =
    record {
      job_id = uuid_string j.job.id;
      job_name = j.job.job_name;
      created_at = none;
      started_at = none;
      status = status_text j.status;
      status_detail = none;
      stopped_at = none;
      resource_name = "";
    }
    ∷ summaries uuid_string queue

-- `Status`: what the query's function is called with.
unfoldable pub status : (Uuid → String) → Manager → List JobSummary
unfolding summaries
status uuid_string m = summaries uuid_string (jobs [] m.queue)

-- The loop of `StartMonitor` over the jobs: how many have each status. Statuses are texts.
unfoldable pub status_counts : Map String ℕ → List DockerJob → Map String ℕ
status_counts counts [] = counts
status_counts counts (j ∷ queue) =
    status_counts (update String_discrete 0 suc (status_text j.status) counts) queue
