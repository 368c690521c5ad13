-- ===== src/Argo/Patches.antt =====
-- spec-overrides.go: the patch of a plugin's pod, as the text that Argo gets.
pub mod Replacing
pub mod Order
use Prim.Native.Char.{Char, code}
use cloudcompute.Base.{
  ℕ, zero, suc, ◌-◌, String, List, [], ◌∷◌, ◌++◌, Bool, true, false, cond, ite, String_discrete,
  ◌==◌, ◌&&◌, Option, none, some, ltb,
}
use cloudcompute.Base.Text.{join, text_length}
use cloudcompute.Jobs.{Plugin}

-- A container of a pod's patch, with the placeholders that Argo's substitutions replace.
pub record PodSpecPatch : Type 0 where
  pub active_deadline_seconds : String
  pub container_name : String
  pub env : String
  pub cpu : String
  pub memory : String
  pub exec_command : String
  pub exec_args : String

abbrev pub has_timeout : Option ℕ → Bool
has_timeout none = false
has_timeout (some seconds) = ltb 0 seconds

unfoldable pub get_default_pod_spec_patch : Plugin → PodSpecPatch
get_default_pod_spec_patch plugin = record {
  active_deadline_seconds =
      cond (has_timeout plugin.execution_timeout) "${activeDeadlineSeconds}" "";
  container_name = "main";
  env = "${env}";
  cpu = "${VCPU}";
  memory = "${Memory}";
  exec_command = "${command}";
  exec_args = "${args}";
}

abbrev pub starts_with : String → String → Bool
starts_with String.[] s = true
starts_with (String.◌∷◌ c k) String.[] = false
starts_with (String.◌∷◌ c k) (String.◌∷◌ d s) = code c == code d && starts_with k s

abbrev pub put : Bool → String → Char → String → String
put true by c rest = join by rest
put false by c rest = String.◌∷◌ c rest

-- `strings.ReplaceAll` of a key that is not empty, where `skip` characters of it are still to be
-- passed over.
unfoldable pub replace_from : String → String → ℕ → String → String
replace_from key by skip String.[] = ""
replace_from key by (suc skip) (String.◌∷◌ c s) = replace_from key by skip s
replace_from key by zero (String.◌∷◌ c s) =
    let found = starts_with key (String.◌∷◌ c s) in
    let rest = replace_from key by (cond found (text_length key - 1) 0) s in put found by c rest

unfoldable pub valid_to_invalid_json : List (String × String) → String → String
unfolding replace_from
valid_to_invalid_json [] json = json
valid_to_invalid_json ((key, value) ∷ formats) json =
    valid_to_invalid_json formats (replace_from key value 0 json)

-- The keys of `dynamicSubstitutionFormats`.
pub data Placeholder : Type 0 where
  seconds env vcpu memory exec_command exec_args : Placeholder

unfoldable pub dynamic_substitution_formats : Placeholder → String × String
dynamic_substitution_formats seconds =
    ("\"${activeDeadlineSeconds}\"", "{{inputs.parameters.ExecutionTimeout}}")
dynamic_substitution_formats env = ("\"${env}\"", "{{inputs.parameters.DagTaskEnv}}")
dynamic_substitution_formats vcpu = ("\"${VCPU}\"", "\"{{inputs.parameters.VCPU}}\"")
dynamic_substitution_formats memory = ("\"${Memory}\"", "\"{{inputs.parameters.Memory}}\"")
dynamic_substitution_formats exec_command =
    ("\"${command}\"", "[\"{{inputs.parameters.ExecCommand}}\"]")
dynamic_substitution_formats exec_args = ("\"${args}\"", "{{=inputs.parameters.ExecArgs}}")

abbrev pub texts : List String → String
texts [] = ""
texts (t ∷ ts) = join t (texts ts)

abbrev pub quoted : String → String
quoted text = texts ("\"" ∷ text ∷ "\"" ∷ [])

-- A field of a struct and the text behind it, left out where the field is empty.
abbrev pub field : String → String → String → String
field name text behind =
    ite (String_discrete text "") "" (texts (quoted name ∷ ":" ∷ quoted text ∷ behind ∷ []))

abbrev pub sizes : PodSpecPatch → String
sizes patch =
    texts ("{\"cpu\":" ∷ quoted patch.cpu ∷ ",\"memory\":" ∷ quoted patch.memory ∷ "}" ∷ [])

-- `json.Marshal` of a patch whose texts need no escapes and of which only the number of seconds may
-- be empty: the fields in the order of the structs, the entries of a map by their keys.
unfoldable pub marshal : PodSpecPatch → String
marshal patch = texts (
    "{"
    ∷ field "activeDeadlineSeconds" patch.active_deadline_seconds ","
    ∷ "\"containers\":[{\"name\":"
    ∷ quoted patch.container_name
    ∷ ",\"resources\":{\"limits\":"
    ∷ sizes patch
    ∷ ",\"requests\":"
    ∷ sizes patch
    ∷ "},\"env\":"
    ∷ quoted patch.env
    ∷ ",\"command\":"
    ∷ quoted patch.exec_command
    ∷ ",\"args\":"
    ∷ quoted patch.exec_args
    ∷ "}]}"
    ∷ [])

-- `getDefaultPodSpecPatchJson`, where `range` visits the formats in this order.
unfoldable pub get_default_pod_spec_patch_json : List (String × String) → Plugin → String
unfolding marshal valid_to_invalid_json get_default_pod_spec_patch
get_default_pod_spec_patch_json formats plugin =
    valid_to_invalid_json formats (marshal (get_default_pod_spec_patch plugin))
