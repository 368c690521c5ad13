-- ===== src/Argo.antt =====
-- providers/k8sargo/k8sargo.go: slugs, and the tasks of a workflow with their dependencies. A text
-- whose bytes matter is the list of its bytes.
pub mod Slugs
pub mod Workflows
pub mod Tasks
pub mod Summaries
pub mod Patches
pub mod Plugins
use cloudcompute.Base.{
  ℕ, zero, suc, ◌+◌, String, List, [], ◌∷◌, Bool, true, false, ◌&&◌, ◌||◌, Option, none, some, cond,
  ite, leb, ◌==◌, String_discrete, ℕ_discrete, ◌++◌,
}
use cloudcompute.Base.Maps.{Map}
use cloudcompute.Base.Text.{join}
use cloudcompute.Manifest.{
  Uuid, ResourceType, gpu, vcpu, memory, attached_storage, other, ResourceRequirement,
  KeyValuePairs,
}
use cloudcompute.Jobs.{Job}

abbrev pub is_upper : ℕ → Bool
is_upper b = leb 65 b && leb b 90

abbrev pub is_lower_or_digit : ℕ → Bool
is_lower_or_digit b = leb 97 b && leb b 122 || leb 48 b && leb b 57

-- The loop of `toSlugFast`, where `hyphen` is `inHyphenSequence`; 45 is the hyphen.
unfoldable pub slug_from : Bool → List ℕ → List ℕ
slug_from hyphen [] = []
slug_from hyphen (b ∷ bs) =
    let rest = slug_from false bs in
    let behind = slug_from true bs in
    cond (is_upper b) ((b + 32) ∷ rest)
      (cond (is_lower_or_digit b) (b ∷ rest) (cond hyphen behind (45 ∷ behind)))

unfoldable pub trim_start : List ℕ → List ℕ
trim_start [] = []
trim_start (b ∷ bs) = let rest = trim_start bs in cond (b == 45) rest (b ∷ bs)

abbrev pub cons_unless_last : ℕ → List ℕ → List ℕ
cons_unless_last b [] = cond (b == 45) [] (b ∷ [])
cons_unless_last b (c ∷ rest) = b ∷ c ∷ rest

unfoldable pub trim_end : List ℕ → List ℕ
trim_end [] = []
trim_end (b ∷ bs) = cons_unless_last b (trim_end bs)

unfoldable pub to_slug : List ℕ → List ℕ
unfolding slug_from trim_start trim_end
to_slug name = trim_end (trim_start (slug_from false name))

module _ (uuid_string : Uuid → String) where
  unfoldable pub job_id_from_manifest_id : Uuid → List Job → String
  job_id_from_manifest_id id [] = ""
  job_id_from_manifest_id id (j ∷ jobs) =
      ite (ℕ_discrete j.manifest_id id) (uuid_string j.id) (job_id_from_manifest_id id jobs)

  job_ids : List Uuid → List Job → List String
  unfolding job_id_from_manifest_id
  job_ids [] jobs = []
  job_ids (d ∷ deps) jobs = job_id_from_manifest_id d jobs ∷ job_ids deps jobs

  -- A job that names no manifest keeps its `DependsOn`.
  abbrev deps_or : Job → List Uuid → List String → Job
  deps_or j [] ids = j
  deps_or j (d ∷ deps) ids = record j { depends_on = ids }

  link_from : List Job → List Job → List Job
  unfolding job_ids
  link_from all [] = []
  link_from all (j ∷ jobs) =
      deps_or j j.manifest_dependencies (job_ids j.manifest_dependencies all) ∷ link_from all jobs

  unfoldable pub manifest_deps_to_job_deps : List Job → List Job
  unfolding link_from
  manifest_deps_to_job_deps jobs = link_from jobs jobs

unfoldable pub deps_to_argo_deps : List String → List String
deps_to_argo_deps [] = []
deps_to_argo_deps (d ∷ deps) = join "e-" d ∷ deps_to_argo_deps deps

-- A parameter with its value, or with the default of a template's parameter.
pub record Parameter : Type 0 where
  pub name : String
  pub value : Option String
  pub default : Option String

abbrev pub parameter : String → String → Parameter
parameter name value = record { name = name; value = some value; default = none }

pub record DagTask : Type 0 where
  pub name : String
  pub template : String
  pub dependencies : List String
  pub parameters : List Parameter

-- The texts that the encodings give: of a uuid, of an environment and of arguments in JSON.
pub record Encoding : Type 0 where
  pub uuid_string : Uuid → String
  pub json_env : KeyValuePairs → String
  pub json_args : List String → String

unfoldable pub resource_parameters : List ResourceRequirement → List Parameter
resource_parameters [] = []
resource_parameters (r ∷ resources) =
    let rest = resource_parameters resources in
    elim r.kind [
      | vcpu ↦ parameter "VCPU" r.value ∷ rest
      | memory ↦ parameter "Memory" r.value ∷ rest
      | _ ↦ rest
    ]

unfoldable pub tag_parameters : Map String String → List Parameter
tag_parameters [] = []
tag_parameters ((k, v) ∷ tags) = parameter k v ∷ tag_parameters tags

abbrev pub args_text : Encoding → List String → String
args_text enc [] = "[]"
args_text enc (a ∷ args) = enc.json_args (a ∷ args)

unfoldable pub command_parameters : Encoding → List String → List Parameter
command_parameters enc [] = []
command_parameters enc (c ∷ args) =
    parameter "ExecCommand" c ∷ parameter "ExecArgs" (args_text enc args) ∷ []

-- The task of a job.
unfoldable pub task_of : Encoding → Job → DagTask
unfolding deps_to_argo_deps resource_parameters tag_parameters command_parameters
task_of enc job = record {
  name = join "j-" (enc.uuid_string job.id);
  template = job.job_definition;
  dependencies = deps_to_argo_deps job.depends_on;
  parameters =
      parameter "DagTaskEnv" (enc.json_env job.container_overrides.environment)
        ∷ resource_parameters job.container_overrides.resource_requirements
      ++ tag_parameters job.tags
      ++ command_parameters enc job.container_overrides.command;
}

-- The equality of resource types, which are texts.
abbrev pub same_type : ResourceType → ResourceType → Bool
same_type gpu gpu = true
same_type vcpu vcpu = true
same_type memory memory = true
same_type attached_storage attached_storage = true
same_type (other s) (other t) = ite (String_discrete s t) true false
same_type _ _ = false

unfoldable pub resource_or_default : List ResourceRequirement → ResourceType → String → String
resource_or_default [] kind default = default
resource_or_default (r ∷ resources) kind default =
    cond (same_type kind r.kind) r.value (resource_or_default resources kind default)
