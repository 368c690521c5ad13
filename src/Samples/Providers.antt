-- ===== src/Samples/Providers.antt =====
-- A submission of two jobs to the Docker provider, and a container of the first.
use cloudcompute.Base.{
  ℕ, ◌≡◌, refl, String, [], ◌∷◌, false, none, some, String_discrete, arith, inl,
}
use cloudcompute.Base.Int.{pos}
use cloudcompute.Base.Text.{itoa, atoi}
use cloudcompute.Manifest.{memory}
use cloudcompute.KeyValues.{merge, has_key}
use cloudcompute.Jobs.{Plugin, SubmitJobsInput}
use cloudcompute.Docker.Queue.{DockerJob, starting}
use cloudcompute.Docker.Provider.{PluginRegistry}
use cloudcompute.Docker.Runner.{
  DockerClient, pull_failed, get_container_config, get_host_config, run,
}
use cloudcompute.Docker.Runner.Environment.{default_environment-leaks}
use cloudcompute.Docker.Runner.Resources.{get_host_config_lem}
use cloudcompute.Samples.Manifests.{kvp}
use cloudcompute.Samples.Queues.{job_of, plugin, docker_job}

abbrev number_text : ℕ → String
number_text n = itoa (pos n)

abbrev registry : PluginRegistry
registry = ("", plugin) ∷ []

abbrev pub input : SubmitJobsInput
input = record {
  compute_id = 4;
  jobs = job_of 1 [] ∷ record (job_of 2 []) { manifest_dependencies = 1 ∷ [] } ∷ [];
  submission_id_map = [];
}

abbrev secret_plugin : Plugin
secret_plugin = record plugin {
  default_environment = kvp "MODE" "fast" ∷ kvp "KEY" "" ∷ [];
  credentials = kvp "KEY" "k" ∷ [];
}

abbrev slow_job : DockerJob
slow_job =
    let job = job_of 1 [] in
    record (docker_job 1 "a" []) {
      plugin = secret_plugin;
      status = starting;
      job = record job {
        container_overrides = record {
          command = [];
          environment = kvp "MODE" "slow" ∷ [];
          resource_requirements = record { kind = memory; value = "2048" } ∷ [];
        };
      };
    }

abbrev secret : String → String
secret key = "s3cret"

default_environment-leaks_example :
    (get_container_config 0 secret slow_job).1
    ≡ merge
        (merge secret_plugin.default_environment (kvp "MODE" "slow" ∷ []))
        (kvp "KEY" "s3cret" ∷ [])
unfolding has_key String_discrete
default_environment-leaks_example =
    default_environment-leaks 0 secret slow_job (refl, tt) (refl, tt)

get_host_config_lem_example :
    get_host_config slow_job
    ≡ inl (record {
      memory_limit = pos 2147483648;
      nano_cpus = pos 1000000000;
      mounts = [];
      extra_hosts = [];
    })
unfolding atoi
get_host_config_lem_example =
    get_host_config_lem slow_job 2048 1 (refl, refl) (omega arith) (omega arith)

abbrev offline : DockerClient
offline = record {
  image_list = none;
  image_pull = λ image. none;
  container_create = λ config host. none;
  container_start = λ id. false;
}

offline-run : (run offline 0 secret slow_job).error ≡ some pull_failed
unfolding run
offline-run = refl
