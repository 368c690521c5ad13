-- ===== src/Docker/Runner/Resources.antt =====
-- getHostConfig: the limits of the container.
use cloudcompute.Base.{
  ℕ, ◌*◌, ◌^◌, ◌<◌, ◌≡◌, refl, String, List, [], ◌∷◌, Bool, true, false, some, cond, arith, inl,
}
use cloudcompute.Base.Int.{pos}
use cloudcompute.Base.Text.{atoi}
use cloudcompute.Manifest.{ResourceType, vcpu, memory, ResourceRequirement}
use cloudcompute.Docker.Queue.{DockerJob}
use cloudcompute.Docker.Runner.{override_resources, mul_int64, get_host_config, bind_mounts}

abbrev pub is_vcpu : ResourceType → Bool
is_vcpu vcpu = true
is_vcpu _ = false

abbrev pub is_memory : ResourceType → Bool
is_memory memory = true
is_memory _ = false

-- The value of the last requirement of a kind, or the plugin's.
abbrev pub last_requirement : (ResourceType → Bool) → List ResourceRequirement → String → String
last_requirement is_kind [] default = default
last_requirement is_kind (rr ∷ rrs) default =
    last_requirement is_kind rrs (cond (is_kind rr.kind) rr.value default)

override_resources_lem :
    (rrs : List ResourceRequirement) (cpu mem : String)
    → override_resources rrs cpu mem
      ≡ (last_requirement is_vcpu rrs cpu, last_requirement is_memory rrs mem)
unfolding override_resources
override_resources_lem [] cpu mem = refl
override_resources_lem (rr ∷ rrs) cpu mem = ground (
  arith,
  override_resources_lem rrs rr.value mem,
  override_resources_lem rrs cpu rr.value,
  override_resources_lem rrs cpu mem,
)

mul_int64-pos : (n by : ℕ) → n * by < 2 ^ 63 → mul_int64 (pos n) by ≡ pos (n * by)
unfolding mul_int64
mul_int64-pos n by h = ground arith

-- The last `VCPU` and `MEMORY` requirements of the job override the plugin's; where they are
-- numbers whose products with 10^9 and 2^20 stay below 2^63, these are the limits of the container,
-- and nothing wraps around.
pub get_host_config_lem :
    (djob : DockerJob) (mem cpu : ℕ)
    → (let rrs = djob.job.container_overrides.resource_requirements in
        let environment = djob.plugin.compute_environment in
        (atoi (last_requirement is_memory rrs environment.memory) ≡ some (pos mem))
        × (atoi (last_requirement is_vcpu rrs environment.vcpu) ≡ some (pos cpu)))
    → mem * 1048576 < 2 ^ 63
    → cpu * 1000000000 < 2 ^ 63
    → get_host_config djob
      ≡ inl (record {
        memory_limit = pos (mem * 1048576);
        nano_cpus = pos (cpu * 1000000000);
        mounts = bind_mounts djob.plugin.mount_points;
        extra_hosts = djob.plugin.compute_environment.extra_hosts;
      })
unfolding get_host_config
get_host_config_lem djob mem cpu numbers low_mem low_cpu =
    let environment = djob.plugin.compute_environment in
    let rrs = djob.job.container_overrides.resource_requirements in
    rw
      (
        override_resources_lem rrs environment.vcpu environment.memory,
        numbers.0,
        numbers.1,
        mul_int64-pos mem 1048576 low_mem,
        mul_int64-pos cpu 1000000000 low_cpu,
      )
      refl
