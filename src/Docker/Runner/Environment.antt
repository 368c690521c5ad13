-- ===== src/Docker/Runner/Environment.antt =====
-- getContainerConfig: the environment of the container, and what it does to that of the plugin.
use cloudcompute.Base.{ℕ, ◌≡◌, refl, String, [], ◌∷◌, true, arith, All}
use cloudcompute.Manifest.{KeyValuePairs}
use cloudcompute.KeyValues.{has_key, get_val, set_val, merge}
use cloudcompute.KeyValues.Laws.{last_val, or_else, merge_lem, has_key-set_val}
use cloudcompute.Docker.Queue.{DockerJob}
use cloudcompute.Docker.Runner.{
  SharedEnv, share, set_shared, merge_shared, set_credentials, container_env, get_container_config,
}

-- The credentials with their secrets.
abbrev pub resolved : (String → String) → KeyValuePairs → KeyValuePairs
resolved get_secret [] = []
resolved get_secret (kvp ∷ kvps) =
    record kvp { value = get_secret kvp.value } ∷ resolved get_secret kvps

merge_shared-env :
    (kvps : KeyValuePairs) (s : SharedEnv) → (merge_shared kvps s).env ≡ merge s.env kvps
unfolding merge_shared merge
merge_shared-env [] s = refl
merge_shared-env (kvp ∷ kvps) s =
    ground
      (arith, merge_shared-env kvps (set_shared kvp.name kvp.value s), set_env kvp.name kvp.value s)
  where
    set_env :
        (key val : String) (s : SharedEnv) → (set_shared key val s).env ≡ set_val s.env key val
    set_env key val s = ground arith

set_credentials-merge :
    (get_secret : String → String) (kvps : KeyValuePairs) (s : SharedEnv)
    → set_credentials get_secret kvps s ≡ merge_shared (resolved get_secret kvps) s
unfolding set_credentials merge_shared
set_credentials-merge get_secret [] s = refl
set_credentials-merge get_secret (kvp ∷ kvps) s =
    set_credentials-merge get_secret kvps (set_shared kvp.name (get_secret kvp.value) s)

container_env-merge :
    (spare : ℕ) (get_secret : String → String) (djob : DockerJob)
    → container_env spare get_secret djob
      ≡ merge_shared (resolved get_secret djob.plugin.credentials) (
          merge_shared djob.job.container_overrides.environment
            (share spare djob.plugin.default_environment))
unfolding container_env
container_env-merge spare get_secret djob =
    set_credentials-merge get_secret djob.plugin.credentials (
      merge_shared djob.job.container_overrides.environment
        (share spare djob.plugin.default_environment))

-- A variable of the container has the secret of the last credential that names it; with none, the
-- value of the job's last override of it; with none of these, the plugin's default.
pub container_env_lem :
    (spare : ℕ) (get_secret : String → String) (djob : DockerJob) (key : String)
    → get_val (container_env spare get_secret djob).env key
      ≡ or_else (last_val (resolved get_secret djob.plugin.credentials) key) (
          or_else
            (last_val djob.job.container_overrides.environment key)
            (get_val djob.plugin.default_environment key))
container_env_lem spare get_secret djob key =
    let default = djob.plugin.default_environment in
    let overrides = djob.job.container_overrides.environment in
    let credentials = resolved get_secret djob.plugin.credentials in
    let shared = merge_shared overrides (share spare default) in
    rw
      (
        container_env-merge spare get_secret djob,
        merge_shared-env credentials shared,
        merge_shared-env overrides (share spare default),
        (merge_lem (merge default overrides) credentials key).0,
        (merge_lem default overrides key).0,
      )
      refl

-- Every pair's name is there.
abbrev pub Known : KeyValuePairs → KeyValuePairs → Type 0
Known env kvps = All (λ kvp. has_key env kvp.name ≡ true) kvps

Known-set_val :
    (env kvps : KeyValuePairs) (key val : String)
    → Known env kvps
    → Known (set_val env key val) kvps
Known-set_val env [] key val k = tt
Known-set_val env (kvp ∷ kvps) key val k =
    (ground (arith, has_key-set_val env key val kvp.name, k.0), Known-set_val env kvps key val k.1)

Known-merge : (env more kvps : KeyValuePairs) → Known env kvps → Known (merge env more) kvps
unfolding merge
Known-merge env [] kvps k = k
Known-merge env (kvp ∷ more) kvps k =
    Known-merge (set_val env kvp.name kvp.value) more kvps
      (Known-set_val env kvps kvp.name kvp.value k)

merge_shared-Known :
    (spare : ℕ) (env kvps : KeyValuePairs)
    → Known env kvps
    → merge_shared kvps (share spare env) ≡ share spare (merge env kvps)
unfolding merge_shared merge
merge_shared-Known spare env [] k = refl
merge_shared-Known spare env (kvp ∷ kvps) k =
    let env' = set_val env kvp.name kvp.value in
    ground (
      arith,
      k.0,
      merge_shared-Known spare env' kvps (Known-set_val env kvps kvp.name kvp.value k.1),
    )

-- Where the plugin's default environment has every name that the job overrides and that a
-- credential sets, `getContainerConfig` leaves the registered plugin with the job's overrides and
-- with the secrets as its default environment, whatever room there is behind the slice.
pub default_environment-leaks :
    (spare : ℕ) (get_secret : String → String) (djob : DockerJob)
    → Known djob.plugin.default_environment djob.job.container_overrides.environment
    → Known djob.plugin.default_environment (resolved get_secret djob.plugin.credentials)
    → (get_container_config spare get_secret djob).1
      ≡ merge
          (merge djob.plugin.default_environment djob.job.container_overrides.environment)
          (resolved get_secret djob.plugin.credentials)
unfolding get_container_config
default_environment-leaks spare get_secret djob overridden credited =
    let default = djob.plugin.default_environment in
    let overrides = djob.job.container_overrides.environment in
    let credentials = resolved get_secret djob.plugin.credentials in
    rw
      (
        container_env-merge spare get_secret djob,
        merge_shared-Known spare default overrides overridden,
        merge_shared-Known spare (merge default overrides) credentials
            (Known-merge default overrides credentials credited),
      )
      refl
