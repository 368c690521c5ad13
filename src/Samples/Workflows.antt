-- ===== src/Samples/Workflows.antt =====
-- Slugs, a workflow of two jobs, and a plugin with a volume.
use cloudcompute.Base.{
  ℕ, ◌≡◌, ◌≢◌, ◌≤◌, ◌<◌, refl, String, List, [], ◌∷◌, Bool, true, false, Option, some, All, has,
  panic, String_discrete, ℕ_discrete, return, inl, map, length,
}
use cloudcompute.Base.Int.{pos}
use cloudcompute.Base.Text.{itoa}
use cloudcompute.Jobs.{Job, Plugin, SubmitJobsInput}
use cloudcompute.Argo.{Encoding, to_slug, job_id_from_manifest_id}
use cloudcompute.Argo.Workflows.{Template, Workflow, submit_jobs, submitted_jobs}
use cloudcompute.Argo.Workflows.Submitted.{submission, submission_of}
use cloudcompute.Argo.Workflows.Complete.{template_names}
use cloudcompute.Argo.Workflows.Linked.{AreTasks, submit_jobs_complete}
use cloudcompute.Argo.Tasks.{Dangles, workflow_tasks-dangle}
use cloudcompute.Argo.Patches.{dynamic_substitution_formats, get_default_pod_spec_patch_json}
use cloudcompute.Argo.Patches.Order.{
  placeholders, finished_patch, get_default_pod_spec_patch_json_lem,
}
use cloudcompute.Argo.Plugins.{valid_storage, WorkflowTemplate, plugin_to_workflow_template}
use cloudcompute.Argo.Plugins.Volumes.{plugin_to_workflow_template-volumes}
use cloudcompute.KeyValues.{get_val}
use cloudcompute.Samples.Queues.{job_of, plugin}

-- " A--b1."
abbrev name : List ℕ
name = 32 ∷ 65 ∷ 45 ∷ 45 ∷ 98 ∷ 49 ∷ 46 ∷ []

-- "a-b1"
name_slug : to_slug name ≡ 97 ∷ 45 ∷ 98 ∷ 49 ∷ []
unfolding to_slug
name_slug = refl

abbrev linked_jobs : List Job
linked_jobs = job_of 1 [] ∷ record (job_of 2 []) { manifest_dependencies = 1 ∷ [] } ∷ []

first_id : job_id_from_manifest_id (λ u. itoa (pos u)) 1 linked_jobs ≡ "1"
unfolding job_id_from_manifest_id ℕ_discrete itoa
first_id = refl

abbrev encoding : Encoding
encoding = record {
  uuid_string = λ u. itoa (pos u);
  json_env = λ env. "[]";
  json_args = λ args. "[]";
}

abbrev same_text : String → String
same_text s = s

-- Every template is saved under its name.
abbrev saved : String → Option (List Template)
saved name = some (record { name = name; parameters = []; labels = [] } ∷ [])

abbrev accepts : Workflow → Bool
accepts wf = true

abbrev input : SubmitJobsInput
input = record { compute_id = 4; jobs = linked_jobs; submission_id_map = [] }

created :
    (wf : Workflow) × (submit_jobs encoding same_text saved accepts input ≡ return ("0.", inl wf))
unfolding submit_jobs String_discrete ℕ_discrete itoa get_val
created = (_, refl)

submit_jobs_complete_example :
    (created.0.name ≡ "0.")
    × AreTasks encoding linked_jobs linked_jobs created.0.tasks
    × All
        (λ t. has String_discrete t.template (template_names created.0.templates) ≡ true)
        created.0.tasks
    × (map submission (submitted_jobs encoding saved input) ≡ map submission_of created.0.tasks)
submit_jobs_complete_example =
    submit_jobs_complete encoding same_text saved accepts input "0." created.0 created.1

workflow_tasks-dangle_example : Dangles created.0.tasks created.0.tasks
workflow_tasks-dangle_example =
    workflow_tasks-dangle encoding same_text saved accepts input "0." created.0 created.1

abbrev with_volume : Plugin
with_volume = record plugin {
  command = "run" ∷ [];
  volumes =
      record { name = "v"; resource_name = "pvc"; read_only = false; mount_point = "/data" } ∷ [];
}

abbrev formats : List (String × String)
formats = map dynamic_substitution_formats placeholders

get_default_pod_spec_patch_json_lem_example :
    get_default_pod_spec_patch_json formats (record plugin { execution_timeout = some 60 })
    ≡ finished_patch true
get_default_pod_spec_patch_json_lem_example =
    get_default_pod_spec_patch_json_lem placeholders (record plugin { execution_timeout = some 60 })
      (refl, (refl, (refl, (refl, (refl, (refl, tt))))))

plugin_to_workflow_template-volumes_example :
    (length with_volume.volumes ≤ length with_volume.devices
      → plugin_to_workflow_template encoding formats same_text (λ s. true) with_volume
        ≡ plugin_to_workflow_template encoding formats same_text
            (λ s. true)
            (record with_volume { volumes = [] }))
    × (length with_volume.devices < length with_volume.volumes
        → ((t : WorkflowTemplate)
            → plugin_to_workflow_template encoding formats same_text (λ s. true) with_volume
              ≢ return (some t))
          × (valid_storage encoding formats same_text
                  (λ s. true)
                  with_volume.compute_environment.ephemeral_storage
                ≡ true
              → plugin_to_workflow_template encoding formats same_text (λ s. true) with_volume
                ≡ panic))
plugin_to_workflow_template-volumes_example =
    plugin_to_workflow_template-volumes encoding formats same_text (λ s. true) with_volume
