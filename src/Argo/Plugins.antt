-- ===== src/Argo/Plugins.antt =====
-- k8sargo.go and spec-overrides.go: the workflow template that RegisterPlugin makes of a plugin.
-- The encoding in JSON, `strings.ToLower` and the parser of quantities are parameters.
pub mod Volumes
pub mod Registry
use Prim.Native.Char.{Char, code}
use cloudcompute.Base.{
  ℕ, zero, suc, ◌+◌, String, List, [], ◌∷◌, ◌++◌, Bool, true, false, Option, none, some, cond, ite,
  ltb, leb, String_discrete, length, Outcome, return, panic, ◌>>=◌, panic_unless, ◌==◌, ◌&&◌,
}
use cloudcompute.Base.Int.{ℤ, pos, negsuc}
use cloudcompute.Base.Text.{join, itoa}
use cloudcompute.Manifest.{KeyValuePair, KeyValuePairs}
use cloudcompute.Jobs.{Plugin, LinuxDevice, PluginComputeVolumes}
use cloudcompute.Argo.Patches.{get_default_pod_spec_patch_json}
use cloudcompute.Argo.{Parameter, parameter, args_text, Encoding}

-- A variable of a container: a value, or a key of a secret.
pub data EnvVar : Type 0 where
  plain : String → String → EnvVar
  secret : String → String → String → EnvVar

unfoldable pub cc_env_to_template_env : KeyValuePairs → List EnvVar
cc_env_to_template_env [] = []
cc_env_to_template_env (v ∷ env) = plain v.name v.value ∷ cc_env_to_template_env env

abbrev cons_char : Char → List String → List String
cons_char c [] = String.◌∷◌ c "" ∷ []
cons_char c (s ∷ parts) = String.◌∷◌ c s ∷ parts

-- `strings.Split(text, "::")`
unfoldable pub split_colons : String → List String
split_colons String.[] = "" ∷ []
split_colons (String.◌∷◌ c String.[]) = String.◌∷◌ c "" ∷ []
split_colons (String.◌∷◌ c (String.◌∷◌ d s)) =
    let behind = split_colons s in
    let next = split_colons (String.◌∷◌ d s) in
    cond (code c == 58 && code d == 58) ("" ∷ behind) (cons_char c next)

-- Parts 0 and 1; an index that is out of range panics.
abbrev pub secret_of : String → List String → Outcome EnvVar
secret_of name [] = panic
secret_of name (s ∷ []) = panic
secret_of name (s ∷ key ∷ parts) = return (secret name s key)

unfoldable pub cc_credentials_to_template_env : KeyValuePairs → Outcome (List EnvVar)
unfolding split_colons
cc_credentials_to_template_env [] = return []
cc_credentials_to_template_env (v ∷ creds) =
    let rest = cc_credentials_to_template_env creds in
    secret_of v.name (split_colons v.value) >>= λ e. rest >>= λ es. return (e ∷ es)

pub record Volume : Type 0 where
  pub name : String
  pub path : String

pub record PluginTemplate : Type 0 where
  pub name : String
  pub image : String
  pub parameters : List Parameter
  pub pod_spec_patch : String
  pub env : List EnvVar
  pub ephemeral_storage : Option String
  pub retry_limit : Option ℕ
  pub is_privileged : Bool
  pub volume_mounts : List Volume

pub record WorkflowTemplate : Type 0 where
  pub name : String
  pub volumes : List Volume
  pub template : PluginTemplate

abbrev pub default_of : String → String → Parameter
default_of name default = record { name = name; value = none; default = some default }

abbrev pub timeout_parameter : Option ℕ → List Parameter
timeout_parameter none = []
timeout_parameter (some seconds) =
    cond (ltb 0 seconds) (parameter "ExecutionTimeout" (itoa (pos seconds)) ∷ []) []

-- The parameters; the first word of a command that is empty is an index out of range.
unfoldable pub template_parameters : Encoding → Plugin → List String → Outcome (List Parameter)
template_parameters enc plugin [] = panic
template_parameters enc plugin (c ∷ args) = return (
    parameter "VCPU" plugin.compute_environment.vcpu
    ∷ parameter "Memory" (join plugin.compute_environment.memory "Mi")
    ∷ default_of "DagTaskEnv" "{}"
    ∷ default_of "ExecCommand" c
    ∷ default_of "ExecArgs" (args_text enc args)
    ∷ timeout_parameter plugin.execution_timeout)

-- The loop over the plugin's volumes from position `i`: each makes slices of the length of the
-- devices, writes to them at `i`, and drops them.
unfoldable pub add_volumes : ℕ → ℕ → List PluginComputeVolumes → Outcome Unit
add_volumes i devices [] = return tt
add_volumes i devices (v ∷ volumes) =
    let rest = add_volumes (suc i) devices volumes in cond (ltb i devices) rest panic

-- The volumes and mounts of the devices from position `i`; a nil path panics.
abbrev pub device_at : ℕ → Option String → Option String → Outcome (Volume × Volume)
device_at i (some host) (some container) =
    let name = join "linuxparameter-device-" (itoa (pos i)) in
    return (record { name = name; path = host }, record { name = name; path = container })
device_at i _ _ = panic

unfoldable pub device_volumes : ℕ → List LinuxDevice → Outcome (List Volume × List Volume)
device_volumes i [] = return ([], [])
device_volumes i (d ∷ devices) =
    let rest = device_volumes (suc i) devices in
    device_at i d.host_path d.container_path >>= λ (v, m).
    rest >>= λ (vs, ms). return (v ∷ vs, m ∷ ms)

abbrev pub privileged_volumes : Bool → List LinuxDevice → Outcome (List Volume × List Volume)
privileged_volumes false devices = return ([], [])
privileged_volumes true devices = device_volumes 0 devices

abbrev pub retry_limit_of : ℤ → Option ℕ
retry_limit_of (pos zero) = none
retry_limit_of (pos (suc n)) = some (suc n)
retry_limit_of (negsuc n) = none

abbrev pub storage_of : String → Option String
storage_of storage = ite (String_discrete storage "") none (some storage)

-- `formats` are the substitutions for the patch, in the order in which `range` visits them.
module _ (enc : Encoding) (formats : List (String × String)) (to_lower : String → String)
    (parses : String → Bool) where
  abbrev pub finished_template :
      Plugin → List Parameter → List EnvVar → List Volume × List Volume → WorkflowTemplate
  finished_template plugin parameters credentials (volumes, mounts) = record {
    name = to_lower plugin.name;
    volumes = volumes;
    template = record {
      name = to_lower plugin.name;
      image = plugin.image_and_tag;
      parameters = parameters;
      pod_spec_patch = get_default_pod_spec_patch_json formats plugin;
      env = cc_env_to_template_env plugin.default_environment ++ credentials;
      ephemeral_storage = storage_of plugin.compute_environment.ephemeral_storage;
      retry_limit = retry_limit_of plugin.retry_attempts;
      is_privileged = plugin.privileged;
      volume_mounts = mounts;
    };
  }

  -- Is the size of the ephemeral storage one, where it is given?
  abbrev pub valid_storage : String → Bool
  valid_storage storage = ite (String_discrete storage "") true (parses storage)

  -- `pluginToWorkflowTemplate`, with `none` for the error on the ephemeral storage.
  unfoldable pub plugin_to_workflow_template : Plugin → Outcome (Option WorkflowTemplate)
  unfolding template_parameters cc_credentials_to_template_env add_volumes device_volumes
      cc_env_to_template_env get_default_pod_spec_patch_json
  plugin_to_workflow_template plugin =
      template_parameters enc plugin plugin.command >>= λ parameters.
      cc_credentials_to_template_env plugin.credentials >>= λ credentials.
      cond (valid_storage plugin.compute_environment.ephemeral_storage)
        (add_volumes 0 (length plugin.devices) plugin.volumes >>= λ u.
          privileged_volumes plugin.privileged plugin.devices >>= λ made.
          return (some (finished_template plugin parameters credentials made)))
        (return none)
