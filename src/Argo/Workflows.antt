-- ===== src/Argo/Workflows.antt =====
-- k8sargo.go: SubmitJobs, which makes one workflow of the jobs of an event. The service's answers
-- are parameters: the templates of a saved workflow template, and whether it creates a workflow.
pub mod Complete
pub mod Linked
pub mod Submitted
use cloudcompute.Base.{
  ℕ, zero, suc, String, List, [], ◌∷◌, ◌++◌, Bool, true, false, Option, none, some, cond, ite, ltb,
  String_discrete, ◌⊎◌, inl, inr, Outcome, return, panic,
}
use cloudcompute.Base.Int.{pos}
use cloudcompute.Base.Maps.{Map}
use cloudcompute.Base.Text.{join, itoa}
use cloudcompute.Manifest.{Uuid}
use cloudcompute.KeyValues.{get_val}
use cloudcompute.Jobs.{Job, SubmitJobsInput}
use cloudcompute.Argo.{Parameter, DagTask, Encoding, to_slug, task_of, manifest_deps_to_job_deps}

-- A template, with what its container is left out.
pub record Template : Type 0 where
  pub name : String
  pub parameters : List Parameter
  pub labels : Map String String

unfoldable pub get_template : List Template → String → Option Template
get_template [] name = none
get_template (t ∷ templates) name =
    ite (String_discrete t.name name) (some t) (get_template templates name)

-- A copy of a saved template, with the parameter and the label `job`.
abbrev pub with_job_label : Template → Template
with_job_label t = record t {
  parameters = t.parameters ++ record { name = "job"; value = none; default = none } ∷ [];
  labels = ("job", "{{inputs.parameters.job}}") ∷ [];
}

-- The copies of those of the saved templates that have the name.
unfoldable pub copies_of : String → List Template → List Template
copies_of name [] = []
copies_of name (t ∷ saved) =
    let rest = copies_of name saved in
    ite (String_discrete t.name name) (with_job_label t ∷ rest) rest

pub data SubmitError : Type 0 where
  template_unavailable : SubmitError
  missing_template : String → SubmitError
  workflow_refused : SubmitError

pub record Workflow : Type 0 where
  pub name : String
  pub compute_label : String
  pub event_label : String
  pub tasks : List DagTask
  pub templates : List Template

-- The templates with those that a job needs.
abbrev pub copied : String → List Template → List Template → List Template ⊎ SubmitError
copied name templates [] = inr (missing_template name)
copied name templates (t ∷ copies) = inl (templates ++ t ∷ copies)

abbrev pub add_templates :
    (String → Option (List Template))
    → List Template
    → String
    → Option Template
    → List Template ⊎ SubmitError
add_templates saved templates name (some t) = inl templates
add_templates saved templates name none = elim (saved name) [
  | none ↦ inr template_unavailable
  | some all ↦ copied name templates (copies_of name all)
]

abbrev pub cons_task :
    DagTask
    → (List DagTask × List Template) ⊎ SubmitError
    → (List DagTask × List Template) ⊎ SubmitError
cons_task task (inl (tasks, templates)) = inl (task ∷ tasks, templates)
cons_task task (inr e) = inr e

module _ (enc : Encoding) (saved : String → Option (List Template)) where
  -- The loop over the jobs, with the templates that it has so far.
  unfoldable pub tasks_from :
      List Template → List Job → (List DagTask × List Template) ⊎ SubmitError
  unfolding get_template copies_of task_of
  tasks_from templates [] = inl ([], templates)
  tasks_from templates (job ∷ jobs) =
      elim (add_templates saved templates job.job_definition
        (get_template templates job.job_definition)) [
          | inr e ↦ inr e
          | inl templates' ↦ cons_task (task_of enc job) (tasks_from templates' jobs)
        ]

-- `eventId`, where `slug` is `toSlugFast` on texts, and the name of the workflow.
unfoldable pub event_label_of : Encoding → (String → String) → Job → String
event_label_of enc slug job =
    join (enc.uuid_string job.event_id)
      (join "." (slug (get_val job.container_overrides.environment "CC_EVENT_IDENTIFIER")))

unfoldable pub workflow_name_of : Encoding → (String → String) → Job → String
unfolding event_label_of
workflow_name_of enc slug job =
    cond (ltb 0 job.per_event_loop_num)
      (join (event_label_of enc slug job) (join "." (itoa (pos job.per_event_loop_num))))
      (event_label_of enc slug job)

-- The texts of bytes, and `toSlugFast` on texts.
abbrev pub slug_text : (String → List ℕ) → (List ℕ → String) → String → String
slug_text bytes text name = text (to_slug (bytes name))

abbrev pub workflow_of :
    Encoding → (String → String) → Uuid → Job → List DagTask × List Template → Workflow
workflow_of enc slug compute_id job (tasks, templates) = record {
  name = workflow_name_of enc slug job;
  compute_label = enc.uuid_string compute_id;
  event_label = event_label_of enc slug job;
  tasks = tasks;
  templates = templates;
}

-- The workflow that the service creates, or the error.
abbrev pub created :
    (Workflow → Bool)
    → Encoding
    → (String → String)
    → Uuid
    → Job
    → (List DagTask × List Template) ⊎ SubmitError
    → Workflow ⊎ SubmitError
created create enc slug compute_id job (inr e) = inr e
created create enc slug compute_id job (inl made) =
    let wf = workflow_of enc slug compute_id job made in
    cond (create wf) (inl wf) (inr workflow_refused)

-- `SubmitJobs`: the name that it returns, and the workflow or the error. No jobs are an index out
-- of range.
unfoldable pub submit_jobs :
    Encoding
    → (String → String)
    → (String → Option (List Template))
    → (Workflow → Bool)
    → SubmitJobsInput
    → Outcome (String × (Workflow ⊎ SubmitError))
unfolding workflow_name_of tasks_from manifest_deps_to_job_deps
submit_jobs enc slug saved create input = elim input.jobs [
  | [] ↦ panic
  | job ∷ jobs ↦ return (
    workflow_name_of enc slug job,
    created create enc slug input.compute_id job
        (tasks_from enc saved [] (manifest_deps_to_job_deps enc.uuid_string (job ∷ jobs))),
  )
]

-- A job with the name of its task as the id that it was submitted under.
abbrev pub submitted_as : Encoding → Job → Job
submitted_as enc job = record job {
  submitted_job =
      some (record { job_id = some (join "j-" (enc.uuid_string job.id)); resource_name = none });
}

-- The jobs as the loop leaves them: those behind an error are not reached.
unfoldable pub jobs_behind :
    Encoding → (String → Option (List Template)) → List Template → List Job → List Job
unfolding get_template copies_of
jobs_behind enc saved templates [] = []
jobs_behind enc saved templates (job ∷ jobs) =
    elim (add_templates saved templates job.job_definition
      (get_template templates job.job_definition)) [
        | inr e ↦ job ∷ jobs
        | inl templates' ↦ submitted_as enc job ∷ jobs_behind enc saved templates' jobs
      ]

-- The jobs of the input as `SubmitJobs` leaves them, linked and with what they were submitted as.
unfoldable pub submitted_jobs :
    Encoding → (String → Option (List Template)) → SubmitJobsInput → List Job
unfolding jobs_behind manifest_deps_to_job_deps
submitted_jobs enc saved input =
    jobs_behind enc saved [] (manifest_deps_to_job_deps enc.uuid_string input.jobs)
