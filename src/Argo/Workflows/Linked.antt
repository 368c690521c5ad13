-- ===== src/Argo/Workflows/Linked.antt =====
-- k8sargo.go: the tasks of a workflow beside the jobs that they are made of.
use cloudcompute.Base.{
  ℕ, zero, suc, ◌≡◌, refl, String, List, [], ◌∷◌, Option, Bool, true, has, map, arith, All,
  ℕ_discrete, String_discrete, return, inl,
}
use cloudcompute.Base.Text.{join}
use cloudcompute.Toposort.Positions.{index}
use cloudcompute.Manifest.{Uuid}
use cloudcompute.Jobs.{Job, SubmitJobsInput}
use cloudcompute.Argo.{
  DagTask, Encoding, task_of, deps_to_argo_deps, job_id_from_manifest_id, job_ids, deps_or,
  link_from, manifest_deps_to_job_deps,
}
use cloudcompute.Argo.Workflows.{Template, Workflow, submit_jobs, submitted_jobs}
use cloudcompute.Argo.Workflows.Submitted.{submission, submission_of, submit_jobs-submitted}
use cloudcompute.Argo.Workflows.Complete.{template_names, submit_jobs-tasks}

abbrev pub manifests : List Job → List Uuid
manifests [] = []
manifests (j ∷ jobs) = j.manifest_id ∷ manifests jobs

module _ (enc : Encoding) where
  -- The text of the id of the job at a position, and the empty text behind the last.
  abbrev pub id_at : ℕ → List Job → String
  id_at n [] = ""
  id_at zero (j ∷ jobs) = enc.uuid_string j.id
  id_at (suc n) (j ∷ jobs) = id_at n jobs

  -- The dependency on a manifest: `e-` with the id of the job at the manifest's position.
  abbrev pub dependency_on : List Job → Uuid → String
  dependency_on all d = join "e-" (id_at (index ℕ_discrete d (manifests all)) all)

  -- What a job depends on: the jobs of its manifests, or without any its own `DependsOn`.
  abbrev pub dependencies_of : List Job → List Uuid → List String → List String
  dependencies_of all [] own = map (join "e-") own
  dependencies_of all (d ∷ deps) own = map (dependency_on all) (d ∷ deps)

  -- One task for each job, in order.
  abbrev pub AreTasks : List Job → List Job → List DagTask → Type 0
  AreTasks all [] [] = Unit
  AreTasks all (j ∷ jobs) (t ∷ tasks) =
      (t.name ≡ join "j-" (enc.uuid_string j.id))
      × (t.template ≡ j.job_definition)
      × (t.dependencies ≡ dependencies_of all j.manifest_dependencies j.depends_on)
      × AreTasks all jobs tasks
  AreTasks all _ _ = ⊥

  job_id-position :
      (d : Uuid) (jobs : List Job)
      → job_id_from_manifest_id enc.uuid_string d jobs
        ≡ id_at (index ℕ_discrete d (manifests jobs)) jobs
  unfolding job_id_from_manifest_id
  job_id-position d [] = refl
  job_id-position d (j ∷ jobs) = ground (arith, job_id-position d jobs)

  own-deps : (deps : List String) → deps_to_argo_deps deps ≡ map (join "e-") deps
  unfolding deps_to_argo_deps
  own-deps [] = refl
  own-deps (d ∷ deps) = rw (own-deps deps) refl

  linked-deps :
      (all : List Job) (deps : List Uuid)
      → deps_to_argo_deps (job_ids enc.uuid_string deps all) ≡ map (dependency_on all) deps
  unfolding deps_to_argo_deps job_ids
  linked-deps all [] = refl
  linked-deps all (d ∷ deps) = rw (job_id-position d all, linked-deps all deps) refl

  -- The task of a job with its dependencies linked.
  task-linked :
      (all : List Job) (j : Job) (deps : List Uuid)
      → (let t = task_of enc (deps_or enc.uuid_string j deps (job_ids enc.uuid_string deps all)) in
          (t.name ≡ join "j-" (enc.uuid_string j.id))
          × (t.template ≡ j.job_definition)
          × (t.dependencies ≡ dependencies_of all deps j.depends_on))
  unfolding task_of
  task-linked all j [] = (refl, refl, own-deps j.depends_on)
  task-linked all j (d ∷ deps) = (refl, refl, linked-deps all (d ∷ deps))

  linked-AreTasks :
      (all jobs : List Job)
      → AreTasks all jobs (map (task_of enc) (link_from enc.uuid_string all jobs))
  unfolding link_from
  linked-AreTasks all [] = tt
  linked-AreTasks all (j ∷ jobs) =
      let (name, template, deps) = task-linked all j j.manifest_dependencies in
      (name, template, deps, linked-AreTasks all jobs)

  deps-AreTasks :
      (jobs : List Job)
      → AreTasks jobs jobs (map (task_of enc) (manifest_deps_to_job_deps enc.uuid_string jobs))
  unfolding manifest_deps_to_job_deps
  deps-AreTasks jobs = linked-AreTasks jobs jobs

  -- A workflow that `SubmitJobs` creates has the name that it returns and one task for each job, in
  -- order: `j-` with the job's id, on the template of its job definition, which the workflow has,
  -- and behind `e-` with the id of the job of each manifest that it depends on, of the first job
  -- with this manifest, or with the empty text where no job has it; a job without such manifests
  -- depends on `e-` with what its `DependsOn` holds. The job then holds the name of its task as
  -- what was submitted for it.
  pub submit_jobs_complete :
      (slug : String → String) (saved : String → Option (List Template)) (create : Workflow → Bool)
      (input : SubmitJobsInput) (name : String) (wf : Workflow)
      → submit_jobs enc slug saved create input ≡ return (name, inl wf)
      → (wf.name ≡ name)
        × AreTasks input.jobs input.jobs wf.tasks
        × All (λ t. has String_discrete t.template (template_names wf.templates) ≡ true) wf.tasks
        × (map submission (submitted_jobs enc saved input) ≡ map submission_of wf.tasks)
  submit_jobs_complete slug saved create input name wf h =
      let (named, tasks, templates) = submit_jobs-tasks enc slug saved create input name wf h in
      (
        named,
        rw tasks (deps-AreTasks input.jobs),
        templates,
        submit_jobs-submitted enc saved slug create input name wf h,
      )
