-- ===== src/Argo/Workflows/Complete.antt =====
-- A workflow that was created: a task for each job, and a template for each task.
use cloudcompute.Base.{
  ◌≡◌, refl, String, List, [], ◌∷◌, ◌++◌, Bool, true, false, Option, none, some, ◌⊎◌, inl, inr,
  arith, All, has, ◌||◌, map, String_discrete, return, subst, cond, Outcome, panic,
}
use cloudcompute.Manifest.{Uuid}
use cloudcompute.Jobs.{Job, SubmitJobsInput}
use cloudcompute.Argo.{DagTask, Encoding, task_of, manifest_deps_to_job_deps}
use cloudcompute.Argo.Workflows.{
  Template, get_template, copies_of, copied, SubmitError, template_unavailable, Workflow,
  add_templates, cons_task, tasks_from, workflow_of, created, submit_jobs, workflow_refused,
  workflow_name_of,
}

abbrev pub template_names : List Template → List String
template_names [] = []
template_names (t ∷ templates) = t.name ∷ template_names templates

names-append :
    (s : String) (p q : List Template)
    → has String_discrete s (template_names (p ++ q))
      ≡ (has String_discrete s (template_names p) || has String_discrete s (template_names q))
names-append s [] q = refl
names-append s (t ∷ p) q = ground (arith, names-append s p q)

found-name :
    (templates : List Template) (name : String) (t : Template)
    → get_template templates name ≡ some t
    → has String_discrete name (template_names templates) ≡ true
unfolding get_template
found-name [] name t h = cc
found-name (u ∷ templates) name t h = ground (arith, h, found-name templates name t)

copies-name :
    (saved : List Template) (name : String) (t : Template) (copies : List Template)
    → copies_of name saved ≡ t ∷ copies
    → t.name ≡ name
unfolding copies_of
copies-name [] name t copies h = cc
copies-name (u ∷ saved) name t copies h = ground (arith, h, copies-name saved name t copies)

-- What the templates of a job hold: those before, and the job's.
abbrev Covers : List Template → String → List Template ⊎ SubmitError → Type 0
Covers before name (inr e) = Unit
Covers before name (inl after) =
    (has String_discrete name (template_names after) ≡ true)
    × ((s : String)
        → has String_discrete s (template_names before) ≡ true
        → has String_discrete s (template_names after) ≡ true)

copied-Covers :
    (name : String) (before copies : List Template)
    → ((t : Template) (rest : List Template) → copies ≡ t ∷ rest → t.name ≡ name)
    → Covers before name (copied name before copies)
copied-Covers name before [] h = tt
copied-Covers name before (t ∷ copies) h = (
  ground (arith, names-append name before (t ∷ copies), h t copies refl),
  λ s e. ground (arith, e, names-append s before (t ∷ copies)),
)

add_templates-Covers :
    (saved : String → Option (List Template)) (before : List Template) (name : String)
    (found : Option Template)
    → get_template before name ≡ found
    → Covers before name (add_templates saved before name found)
add_templates-Covers saved before name (some t) e = (found-name before name t e, λ s h. h)
add_templates-Covers saved before name none e = go (saved name)
  where
    go :
        (all : Option (List Template))
        → Covers before name (elim all [
          | none ↦ inr template_unavailable
          | some all ↦ copied name before (copies_of name all)
        ])
    go none = tt
    go (some all) =
        copied-Covers name before (copies_of name all) (λ t rest h. copies-name all name t rest h)

-- The tasks are those of the jobs, each with its template, and no template is lost.
abbrev IsComplete :
    Encoding → List Template → List Job → (List DagTask × List Template) ⊎ SubmitError → Type 0
IsComplete enc before jobs (inr e) = Unit
IsComplete enc before jobs (inl (tasks, templates)) =
    (tasks ≡ map (task_of enc) jobs)
    × All (λ t. has String_discrete t.template (template_names templates) ≡ true) tasks
    × ((s : String)
        → has String_discrete s (template_names before) ≡ true
        → has String_discrete s (template_names templates) ≡ true)

cons-IsComplete :
    (enc : Encoding) (before mid : List Template) (job : Job) (jobs : List Job)
    (r : (List DagTask × List Template) ⊎ SubmitError)
    → Covers before job.job_definition (inl mid)
    → IsComplete enc mid jobs r
    → IsComplete enc before (job ∷ jobs) (cons_task (task_of enc job) r)
cons-IsComplete enc before mid job jobs (inr e) c h = tt
cons-IsComplete enc before mid job jobs (inl (tasks, templates)) c h =
    (rw (h.0) refl, (unfold task_of in h.2 job.job_definition c.0, h.1), λ s e. h.2 s (c.1 s e))

module _ (enc : Encoding) (saved : String → Option (List Template)) where
  -- A job whose templates are there, or could not be got.
  job-IsComplete :
      (before : List Template) (job : Job) (jobs : List Job) (r : List Template ⊎ SubmitError)
      → Covers before job.job_definition r
      → ((mid : List Template) → IsComplete enc mid jobs (tasks_from enc saved mid jobs))
      → IsComplete enc before (job ∷ jobs) (elim r [
        | inr e ↦ inr e
        | inl mid ↦ cons_task (task_of enc job) (tasks_from enc saved mid jobs)
      ])
  job-IsComplete before job jobs (inr e) c h = tt
  job-IsComplete before job jobs (inl mid) c h =
      cons-IsComplete enc before mid job jobs (tasks_from enc saved mid jobs) c (h mid)

  tasks_from-IsComplete :
      (before : List Template) (jobs : List Job)
      → IsComplete enc before jobs (tasks_from enc saved before jobs)
  unfolding tasks_from
  tasks_from-IsComplete before [] = (refl, tt, λ s e. e)
  tasks_from-IsComplete before (job ∷ jobs) =
      let found = get_template before job.job_definition in
      job-IsComplete before job jobs (add_templates saved before job.job_definition found)
        (add_templates-Covers saved before job.job_definition found refl)
        (λ mid. tasks_from-IsComplete mid jobs)

-- What a call of `SubmitJobs` that creates a workflow gives.
abbrev Creates : Encoding → List Job → Outcome (String × (Workflow ⊎ SubmitError)) → Type 0
Creates enc jobs panic = Unit
Creates enc jobs (return (name, inr e)) = Unit
Creates enc jobs (return (name, inl wf)) =
    (wf.name ≡ name)
    × (wf.tasks ≡ map (task_of enc) (manifest_deps_to_job_deps enc.uuid_string jobs))
    × All (λ t. has String_discrete t.template (template_names wf.templates) ≡ true) wf.tasks

module _ (enc : Encoding) (slug : String → String) (saved : String → Option (List Template))
    (create : Workflow → Bool) where
  taken-Creates :
      (taken : Bool) (name : String) (wf : Workflow) (jobs : List Job)
      → Creates enc jobs (return (name, inl wf))
      → Creates enc jobs (return (name, cond taken (inl wf) (inr workflow_refused)))
  taken-Creates false name wf jobs h = tt
  taken-Creates true name wf jobs h = h

  created-Creates :
      (id : Uuid) (job : Job) (jobs : List Job) (r : (List DagTask × List Template) ⊎ SubmitError)
      → IsComplete enc [] (manifest_deps_to_job_deps enc.uuid_string jobs) r
      → Creates enc jobs (return (workflow_name_of enc slug job, created create enc slug id job r))
  created-Creates id job jobs (inr e) h = tt
  created-Creates id job jobs (inl made) h =
      let wf = workflow_of enc slug id job made in
      taken-Creates (create wf) (workflow_name_of enc slug job) wf jobs (refl, h.0, h.1)

  submit_jobs-Creates :
      (input : SubmitJobsInput) → Creates enc input.jobs (submit_jobs enc slug saved create input)
  unfolding submit_jobs
  submit_jobs-Creates input =
      elim input.jobs
        as (λ jobs. Creates enc jobs (elim jobs [
          | [] ↦ panic
          | job ∷ jobs ↦ return (
            workflow_name_of enc slug job,
            created create enc slug input.compute_id job
                (tasks_from enc saved [] (manifest_deps_to_job_deps enc.uuid_string (job ∷ jobs))),
          )
        ])) [
          | [] ↦ tt
          | job ∷ jobs ↦
              created-Creates input.compute_id job (job ∷ jobs)
                (tasks_from enc saved [] (manifest_deps_to_job_deps enc.uuid_string (job ∷ jobs)))
                (tasks_from-IsComplete enc saved []
                  (manifest_deps_to_job_deps enc.uuid_string (job ∷ jobs)))
        ]

  -- The name and the template of each task, and the tasks with their templates.
  pub submit_jobs-tasks :
      (input : SubmitJobsInput) (name : String) (wf : Workflow)
      → submit_jobs enc slug saved create input ≡ return (name, inl wf)
      → (wf.name ≡ name)
        × (wf.tasks ≡ map (task_of enc) (manifest_deps_to_job_deps enc.uuid_string input.jobs))
        × All (λ t. has String_discrete t.template (template_names wf.templates) ≡ true) wf.tasks
  submit_jobs-tasks input name wf h = subst (Creates enc input.jobs) h (submit_jobs-Creates input)
