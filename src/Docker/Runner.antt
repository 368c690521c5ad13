-- ===== src/Docker/Runner.antt =====
-- docker-runner.go: the configuration of a job's container, and what a run of it reports.
pub mod Environment
pub mod Resources
pub mod Outcomes
use cloudcompute.Base.{
  ℕ, zero, suc, ◌*◌, ◌-◌, ◌%◌, ◌^◌, String, List, [], ◌∷◌, ◌++◌, Bool, true, false, not, ◌||◌,
  Option, none, some, String_discrete, ite, cond, ltb, ◌⊎◌, inl, inr,
}
use cloudcompute.Base.Int.{ℤ, pos, negsuc}
use cloudcompute.Base.Text.{join, atoi}
use cloudcompute.Manifest.{
  KeyValuePair, KeyValuePairs, ResourceType, vcpu, memory, ResourceRequirement,
}
use cloudcompute.KeyValues.{has_key, set_val}
use cloudcompute.Jobs.{MountPoint}
use cloudcompute.Docker.Queue.{JobStatus, running, failed, DockerJob}

unfoldable pub kvp_to_env : KeyValuePairs → List String
kvp_to_env [] = []
kvp_to_env (kvp ∷ kvps) = join kvp.name (join "=" kvp.value) ∷ kvp_to_env kvps

-- A slice `env` that began as another, `original`. While they share an array, `spare` is the room
-- behind it, and a write to an element of the one is a write to the other; after an append that
-- finds no room, it is `none`.
pub record SharedEnv : Type 0 where
  pub env : KeyValuePairs
  pub original : KeyValuePairs
  pub spare : Option ℕ

abbrev pub share : ℕ → KeyValuePairs → SharedEnv
share spare kvps = record { env = kvps; original = kvps; spare = some spare }

-- A write to the first pair with the key.
abbrev pub written : Option ℕ → KeyValuePairs → String → String → KeyValuePairs
written none original key val = original
written (some spare) original key val =
    cond (has_key original key) (set_val original key val) original

abbrev pub appended : Option ℕ → Option ℕ
appended none = none
appended (some zero) = none
appended (some (suc spare)) = some spare

-- `SetVal` on `env`.
unfoldable pub set_shared : String → String → SharedEnv → SharedEnv
set_shared key val s =
    cond (has_key s.env key)
      (record {
        env = set_val s.env key val;
        original = written s.spare s.original key val;
        spare = s.spare;
      })
      (record { env = set_val s.env key val; original = s.original; spare = appended s.spare })

unfoldable pub merge_shared : KeyValuePairs → SharedEnv → SharedEnv
unfolding set_shared
merge_shared [] s = s
merge_shared (kvp ∷ kvps) s = merge_shared kvps (set_shared kvp.name kvp.value s)

-- The loop over the credentials, with the secrets of the manager.
unfoldable pub set_credentials : (String → String) → KeyValuePairs → SharedEnv → SharedEnv
unfolding set_shared
set_credentials get_secret [] s = s
set_credentials get_secret (kvp ∷ kvps) s =
    set_credentials get_secret kvps (set_shared kvp.name (get_secret kvp.value) s)

pub record ContainerConfig : Type 0 where
  pub image : String
  pub entrypoint : List String
  pub env : List String

unfoldable pub container_env : ℕ → (String → String) → DockerJob → SharedEnv
unfolding merge_shared set_credentials
container_env spare get_secret djob = set_credentials get_secret djob.plugin.credentials (
    merge_shared djob.job.container_overrides.environment
      (share spare djob.plugin.default_environment))

abbrev pub command_or : List String → List String → List String
command_or [] default = default
command_or (c ∷ command) default = c ∷ command

-- `getContainerConfig`: the configuration, and the default environment that the plugin has
-- afterwards. `spare` is the room behind the plugin's slice.
unfoldable pub get_container_config :
    ℕ → (String → String) → DockerJob → ContainerConfig × KeyValuePairs
unfolding container_env kvp_to_env
get_container_config spare get_secret djob =
    let s = container_env spare get_secret djob in
    (
      record {
        image = djob.plugin.image_and_tag;
        entrypoint = command_or djob.job.container_overrides.command djob.plugin.command;
        env = kvp_to_env s.env;
      },
      s.original,
    )

pub record Mount : Type 0 where
  pub source : String
  pub target : String

pub record HostConfig : Type 0 where
  pub memory_limit : ℤ
  pub nano_cpus : ℤ
  pub mounts : List Mount
  pub extra_hosts : List String

pub data ConfigError : Type 0 where
  invalid_memory invalid_cpu : ConfigError

-- The loop over the resource requirements, on `cpuStr` and `memoryStr`.
unfoldable pub override_resources : List ResourceRequirement → String → String → String × String
override_resources [] cpu mem = (cpu, mem)
override_resources (rr ∷ rrs) cpu mem = elim rr.kind [
  | vcpu ↦ override_resources rrs rr.value mem
  | memory ↦ override_resources rrs cpu rr.value
  | _ ↦ override_resources rrs cpu mem
]

-- The signed number that 64 bits spell.
abbrev pub signed : ℕ → ℤ
signed n = cond (ltb n (2 ^ 63)) (pos n) (negsuc (2 ^ 64 - 1 - n))

-- `int64(n) * by`
unfoldable pub mul_int64 : ℤ → ℕ → ℤ
mul_int64 (pos n) by = signed (n * by % 2 ^ 64)
mul_int64 (negsuc n) by = signed ((2 ^ 64 - suc n * by % 2 ^ 64) % 2 ^ 64)

abbrev pub bind_mounts : List MountPoint → List Mount
bind_mounts [] = []
bind_mounts (m ∷ ms) =
    record { source = m.source_volume; target = m.container_path } ∷ bind_mounts ms

abbrev pub host_config : DockerJob → Option ℤ → Option ℤ → HostConfig ⊎ ConfigError
host_config djob none cpu = inr invalid_memory
host_config djob (some mem) none = inr invalid_cpu
host_config djob (some mem) (some cpu) = inl (record {
  memory_limit = mul_int64 mem (1024 * 1024);
  nano_cpus = mul_int64 cpu 1000000000;
  mounts = bind_mounts djob.plugin.mount_points;
  extra_hosts = djob.plugin.compute_environment.extra_hosts;
})

unfoldable pub get_host_config : DockerJob → HostConfig ⊎ ConfigError
unfolding override_resources
get_host_config djob =
    let environment = djob.plugin.compute_environment in
    let (cpu, mem) =
      override_resources djob.job.container_overrides.resource_requirements environment.vcpu
        environment.memory in
    host_config djob (atoi mem) (atoi cpu)

-- A message of a pull as it is decoded; a field may be missing.
pub record PullMessage : Type 0 where
  pub id : Option String
  pub status : Option String
  pub error : Option String
  pub progress : Option String

pub record DockerEvent : Type 0 where
  pub id : String
  pub status : String
  pub error : String
  pub progress : String

-- The messages of a pull, which end at `io.EOF` or with an error.
pub data PullStream : Type 0 where
  eof broken : PullStream
  message : PullMessage → PullStream → PullStream

abbrev or_before : Option String → String → String
or_before none before = before
or_before (some field) before = field

-- A message is decoded into the one variable `event`: a missing field keeps its value.
abbrev pub decode : PullMessage → DockerEvent → DockerEvent
decode m e = record {
  id = or_before m.id e.id;
  status = or_before m.status e.status;
  error = or_before m.error e.error;
  progress = or_before m.progress e.progress;
}

-- The loop over the messages: the updates of the progress, and whether the stream was whole.
unfoldable pub decode_all : DockerEvent → PullStream → List DockerEvent × Bool
decode_all event eof = ([], true)
decode_all event broken = ([], false)
decode_all event (message m stream) =
    let event' = decode m event in
    let (updates, whole) = decode_all event' stream in (event' ∷ updates, whole)

-- What the Docker client answers: the tags of the local images, the stream of a pull, the id of
-- a created container, and whether it starts. `none` is an error.
pub record DockerClient : Type 0 where
  pub image_list : Option (List (List String))
  pub image_pull : String → Option PullStream
  pub container_create : ContainerConfig → HostConfig → Option String
  pub container_start : String → Bool

pub data RunError : Type 0 where
  pull_failed create_failed start_failed : RunError
  config_failed : ConfigError → RunError

-- The status and the container id behind `Run`; where `error` is `none`, the monitor was waited
-- for.
pub record RunResult : Type 0 where
  pub status : JobStatus
  pub container_id : String
  pub error : Option RunError

has_tag : String → List String → Bool
has_tag tag [] = false
has_tag tag (t ∷ tags) = ite (String_discrete t tag) true (has_tag tag tags)

any_image : String → List (List String) → Bool
unfolding has_tag
any_image tag [] = false
any_image tag (tags ∷ images) = has_tag tag tags || any_image tag images

unfoldable pub is_local_image : DockerClient → String → Bool
unfolding any_image
is_local_image client tag = elim client.image_list [
  | none ↦ false
  | some images ↦ any_image tag images
]

abbrev pub pulled : Option PullStream → List DockerEvent × Bool
pulled none = ([], false)
pulled (some stream) =
    decode_all (record { id = ""; status = ""; error = ""; progress = "" }) stream

-- `imagePull`: the updates of the progress, which is closed at the end of a whole stream, and
-- whether it succeeded.
unfoldable pub image_pull : DockerClient → String → List DockerEvent × Bool
unfolding is_local_image decode_all
image_pull client tag = cond (is_local_image client tag) ([], true) (pulled (client.image_pull tag))

abbrev pub failed_run : DockerJob → RunError → RunResult
failed_run djob e = record { status = djob.status; container_id = ""; error = some e }

abbrev pub start_container : DockerClient → Option String → RunResult
start_container client none = record {
  status = failed;
  container_id = "";
  error = some create_failed;
}
start_container client (some id) =
    cond (client.container_start id) (record { status = running; container_id = id; error = none })
      (record { status = failed; container_id = id; error = some start_failed })

abbrev pub create_container :
    DockerClient → DockerJob → ContainerConfig → HostConfig ⊎ ConfigError → RunResult
create_container client djob config (inr e) = failed_run djob (config_failed e)
create_container client djob config (inl host) =
    start_container client (client.container_create config host)

unfoldable pub run : DockerClient → ℕ → (String → String) → DockerJob → RunResult
unfolding image_pull get_container_config get_host_config
run client spare get_secret djob =
    let config = (get_container_config spare get_secret djob).0 in
    cond (image_pull client djob.plugin.image_and_tag).1
      (create_container client djob config (get_host_config djob)) (failed_run djob pull_failed)
