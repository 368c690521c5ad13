-- ===== src/Argo/Tasks.antt =====
-- The dependencies of the tasks of a workflow.
use cloudcompute.Base.{
  ℕ, ◌≡◌, ◌≢◌, refl, String, List, [], ◌∷◌, false, String_discrete, arith, All, has, ap, map,
  Option, Bool, return, inl,
}
use Prim.Native.Char.{code}
use cloudcompute.Base.Text.{join}
use cloudcompute.Jobs.{Job, SubmitJobsInput}
use cloudcompute.Argo.{DagTask, Encoding, task_of, deps_to_argo_deps, manifest_deps_to_job_deps}
use cloudcompute.Argo.Workflows.{Template, Workflow, submit_jobs}
use cloudcompute.Argo.Workflows.Complete.{submit_jobs-tasks}

abbrev pub task_names : List DagTask → List String
task_names [] = []
task_names (t ∷ tasks) = t.name ∷ task_names tasks

first_code : String → ℕ
first_code String.[] = 0
first_code (String.◌∷◌ c s) = code c

prefix-different : (s t : String) → join "e-" s ≢ join "j-" t
unfolding first_code
prefix-different s t e = let codes : 101 ≡ 106 = ap first_code e in absurd (omega (arith, codes))

absent-name :
    (enc : Encoding) (dep : String) (jobs : List Job)
    → has String_discrete (join "e-" dep) (task_names (map (task_of enc) jobs)) ≡ false
unfolding task_of
absent-name enc dep [] = refl
absent-name enc dep (j ∷ jobs) =
    ground (arith, prefix-different dep (enc.uuid_string j.id), absent-name enc dep jobs)

absent-deps :
    (enc : Encoding) (deps : List String) (jobs : List Job)
    → All
        (λ d. has String_discrete d (task_names (map (task_of enc) jobs)) ≡ false)
        (deps_to_argo_deps deps)
unfolding deps_to_argo_deps
absent-deps enc [] jobs = tt
absent-deps enc (d ∷ deps) jobs = (absent-name enc d jobs, absent-deps enc deps jobs)

-- No dependency of a task is the name of one of these tasks.
abbrev pub Dangles : List DagTask → List DagTask → Type 0
Dangles all tasks =
    All (λ t. All (λ d. has String_discrete d (task_names all) ≡ false) t.dependencies) tasks

absent-tasks :
    (enc : Encoding) (all jobs : List Job)
    → Dangles (map (task_of enc) all) (map (task_of enc) jobs)
unfolding task_of
absent-tasks enc all [] = tt
absent-tasks enc all (j ∷ jobs) = (absent-deps enc j.depends_on all, absent-tasks enc all jobs)

-- In a workflow that `SubmitJobs` creates, no dependency of a task is the name of a task of that
-- workflow.
pub workflow_tasks-dangle :
    (enc : Encoding) (slug : String → String) (saved : String → Option (List Template))
    (create : Workflow → Bool) (input : SubmitJobsInput) (name : String) (wf : Workflow)
    → submit_jobs enc slug saved create input ≡ return (name, inl wf)
    → Dangles wf.tasks wf.tasks
workflow_tasks-dangle enc slug saved create input name wf h =
    let linked = manifest_deps_to_job_deps enc.uuid_string input.jobs in
    rw ((submit_jobs-tasks enc slug saved create input name wf h).1)
      (absent-tasks enc linked linked)
