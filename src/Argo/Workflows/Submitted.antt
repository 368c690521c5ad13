-- ===== src/Argo/Workflows/Submitted.antt =====
-- k8sargo.go: what SubmitJobs writes into the jobs of a workflow.
use cloudcompute.Base.{
  ◌≡◌, refl, String, List, [], ◌∷◌, Bool, true, false, Option, none, some, ◌⊎◌, inl, inr, map,
  subst, cond, Outcome, return, panic,
}
use cloudcompute.Manifest.{Uuid}
use cloudcompute.Jobs.{Job, SubmitJobResult, SubmitJobsInput}
use cloudcompute.Argo.{DagTask, Encoding, task_of, manifest_deps_to_job_deps}
use cloudcompute.Argo.Workflows.{
  Template, get_template, SubmitError, Workflow, add_templates, cons_task, tasks_from, workflow_of,
  created, submit_jobs, workflow_refused, workflow_name_of, submitted_as, jobs_behind,
  submitted_jobs,
}

abbrev pub submission_of : DagTask → Option SubmitJobResult
submission_of t = some (record { job_id = some t.name; resource_name = none })

abbrev pub submission : Job → Option SubmitJobResult
submission j = j.submitted_job

module _ (enc : Encoding) (saved : String → Option (List Template)) where
  abbrev Named : (List DagTask × List Template) ⊎ SubmitError → List Job → Type 0
  Named (inr e) jobs = Unit
  Named (inl (tasks, templates)) jobs = map submission jobs ≡ map submission_of tasks

  cons-Named :
      (job : Job) (r : (List DagTask × List Template) ⊎ SubmitError) (jobs : List Job)
      → Named r jobs
      → Named (cons_task (task_of enc job) r) (submitted_as enc job ∷ jobs)
  unfolding task_of
  cons-Named job (inr e) jobs h = tt
  cons-Named job (inl (tasks, templates)) jobs h = rw h refl

  templates-Named :
      (job : Job) (jobs : List Job) (r : List Template ⊎ SubmitError)
      → ((mid : List Template)
          → Named (tasks_from enc saved mid jobs) (jobs_behind enc saved mid jobs))
      → Named
          (elim r [
            | inr e ↦ inr e
            | inl mid ↦ cons_task (task_of enc job) (tasks_from enc saved mid jobs)
          ])
          (elim r [
            | inr e ↦ job ∷ jobs
            | inl mid ↦ submitted_as enc job ∷ jobs_behind enc saved mid jobs
          ])
  templates-Named job jobs (inr e) h = tt
  templates-Named job jobs (inl mid) h =
      cons-Named job (tasks_from enc saved mid jobs) (jobs_behind enc saved mid jobs) (h mid)

  tasks_from-Named :
      (before : List Template) (jobs : List Job)
      → Named (tasks_from enc saved before jobs) (jobs_behind enc saved before jobs)
  unfolding tasks_from jobs_behind
  tasks_from-Named before [] = refl
  tasks_from-Named before (job ∷ jobs) =
      templates-Named job jobs
        (add_templates saved before job.job_definition (get_template before job.job_definition))
        (λ mid. tasks_from-Named mid jobs)

  -- A workflow that is created.
  abbrev Names : List Job → Outcome (String × (Workflow ⊎ SubmitError)) → Type 0
  Names jobs panic = Unit
  Names jobs (return (name, inr e)) = Unit
  Names jobs (return (name, inl wf)) = map submission jobs ≡ map submission_of wf.tasks

  module _ (slug : String → String) (create : Workflow → Bool) where
    taken-Names :
        (taken : Bool) (name : String) (wf : Workflow) (jobs : List Job)
        → map submission jobs ≡ map submission_of wf.tasks
        → Names jobs (return (name, cond taken (inl wf) (inr workflow_refused)))
    taken-Names false name wf jobs h = tt
    taken-Names true name wf jobs h = h

    created-Names :
        (id : Uuid) (job : Job) (jobs : List Job) (r : (List DagTask × List Template) ⊎ SubmitError)
        → Named r jobs
        → Names jobs (return (workflow_name_of enc slug job, created create enc slug id job r))
    created-Names id job jobs (inr e) h = tt
    created-Names id job jobs (inl made) h =
        let wf = workflow_of enc slug id job made in
        taken-Names (create wf) (workflow_name_of enc slug job) wf jobs h

    jobs-Names :
        (id : Uuid) (jobs : List Job)
        → (let input : SubmitJobsInput = record {
          compute_id = id;
          jobs = jobs;
          submission_id_map = [];
        } in
            Names (submitted_jobs enc saved input) (submit_jobs enc slug saved create input))
    unfolding submit_jobs submitted_jobs
    jobs-Names id [] = tt
    jobs-Names id (job ∷ jobs) =
        let linked = manifest_deps_to_job_deps enc.uuid_string (job ∷ jobs) in
        created-Names id job (jobs_behind enc saved [] linked) (tasks_from enc saved [] linked)
          (tasks_from-Named [] linked)

    submit_jobs-Names :
        (input : SubmitJobsInput)
        → Names (submitted_jobs enc saved input) (submit_jobs enc slug saved create input)
    unfolding submit_jobs submitted_jobs
    submit_jobs-Names input = jobs-Names input.compute_id input.jobs

    pub submit_jobs-submitted :
        (input : SubmitJobsInput) (name : String) (wf : Workflow)
        → submit_jobs enc slug saved create input ≡ return (name, inl wf)
        → map submission (submitted_jobs enc saved input) ≡ map submission_of wf.tasks
    submit_jobs-submitted input name wf h =
        subst (Names (submitted_jobs enc saved input)) h (submit_jobs-Names input)
