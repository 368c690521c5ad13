-- ===== src/Kubernetes.antt =====
-- providers/k8ssimple/k8s-simple.go: the jobs of a Kubernetes cluster. The cluster's client is a
-- parameter, and so are the uuids that `uuid.New` draws for the names of jobs, by their position.
pub mod Labelled
pub mod Termination
use Prim.Native.Char.{Char, code}
use cloudcompute.Base.{
  ℕ, zero, suc, String, List, [], ◌∷◌, Bool, true, false, Option, none, some, cond, ◌==◌, get_elem?,
  Outcome, return, panic, ◌>>=◌,
}
use cloudcompute.Manifest.{KeyValuePair, KeyValuePairs}
use cloudcompute.Jobs.{Job, Plugin, JobSummary, VendorJob}

abbrev cons_char : Char → List String → List String
cons_char c [] = String.◌∷◌ c "" ∷ []
cons_char c (s ∷ parts) = String.◌∷◌ c s ∷ parts

-- `strings.Split(text, "_")`
unfoldable pub split : String → List String
split String.[] = "" ∷ []
split (String.◌∷◌ c s) = let parts = split s in cond (code c == 95) ("" ∷ parts) (cons_char c parts)

pub record Labels : Type 0 where
  pub compute : String
  pub event : String
  pub job : String

abbrev pub three_labels : Option String → Option String → Option String → Outcome Labels
three_labels (some compute) (some event) (some job) =
    return (record { compute = compute; event = event; job = job })
three_labels _ _ _ = panic

-- The parts 2, 4 and 6 of a job's name; an index that is out of range panics.
unfoldable pub labels_of : String → Outcome Labels
unfolding split
labels_of name =
    let parts = split name in
    three_labels (get_elem? parts 2) (get_elem? parts 4) (get_elem? parts 6)

-- A job of the cluster. Its container has its name, and it is never restarted.
pub record KubernetesJob : Type 0 where
  pub name : String
  pub labels : Option Labels
  pub image : String
  pub command : List String
  pub secret_env : Option String

-- The jobs as `SubmitJobs` leaves them, those that the cluster has created, and whether it took
-- all.
pub record Submitted : Type 0 where
  pub jobs : List Job
  pub created : List KubernetesJob
  pub is_complete : Bool

abbrev pub named : String → Job → Job
named name job = record job {
  submitted_job = some (record { job_id = some name; resource_name = none });
}

abbrev pub kubernetes_job : String → Labels → Job → KubernetesJob
kubernetes_job name labels job = record {
  name = name;
  labels = some labels;
  image = "docker.io/library/hello-world:latest";
  command = job.container_overrides.command;
  secret_env = none;
}

abbrev pub with_created : Job → KubernetesJob → Submitted → Submitted
with_created job k s = record {
  jobs = job ∷ s.jobs;
  created = k ∷ s.created;
  is_complete = s.is_complete;
}

module _ (new_name : ℕ → String) (create : KubernetesJob → Bool) where
  -- The loop over the jobs from position `i`: it ends at the first that the cluster refuses.
  unfoldable pub submit_from : ℕ → List Job → Outcome Submitted
  unfolding labels_of
  submit_from i [] = return (record { jobs = []; created = []; is_complete = true })
  submit_from i (job ∷ jobs) =
      let rest = submit_from (suc i) jobs in
      let job' = named (new_name i) job in
      labels_of job.job_name >>= λ labels.
      let k = kubernetes_job (new_name i) labels job in
      cond (create k) (rest >>= λ s. return (with_created job' k s))
        (return (record { jobs = job' ∷ jobs; created = []; is_complete = false }))

  unfoldable pub submit_jobs : List Job → Outcome Submitted
  unfolding submit_from
  submit_jobs jobs = submit_from 0 jobs

-- `TerminateJobs`: the pods that are deleted, up to the first that the cluster does not delete, and
-- whether all were. The query is not read.
unfoldable pub terminate_jobs : (String → Bool) → List VendorJob → List String × Bool
terminate_jobs delete [] = ([], true)
terminate_jobs delete (v ∷ jobs) =
    let (deleted, all) = terminate_jobs delete jobs in
    cond (delete v.name) (v.name ∷ deleted, all) ([], false)

pub record Pod : Type 0 where
  pub name : String
  pub phase : String

abbrev pub summary_of : Pod → JobSummary
summary_of pod = record {
  job_id = pod.name;
  job_name = pod.name;
  created_at = none;
  started_at = none;
  status = pod.phase;
  status_detail = none;
  stopped_at = none;
  resource_name = pod.name;
}

abbrev pub each_pod : List Pod → List (List JobSummary)
each_pod [] = []
each_pod (pod ∷ pods) = (summary_of pod ∷ []) ∷ each_pod pods

-- `Status`: what the query's function is called with, pod by pod, whatever the query is; `none` for
-- an error.
unfoldable pub status : Option (List Pod) → Option (List (List JobSummary))
status none = none
status (some pods) = some (each_pod pods)

abbrev pub one_log : Option String → Option (List String)
one_log none = none
one_log (some log) = some (log ∷ [])

unfoldable pub job_log : (String → Option String) → String → Option (List String)
job_log logs_of vendor_job_id = one_log (logs_of vendor_job_id)

-- The job that `RegisterPlugin` creates.
unfoldable pub plugin_job : Plugin → KubernetesJob
plugin_job plugin = record {
  name = plugin.name;
  labels = none;
  image = plugin.image_and_tag;
  command = plugin.command;
  secret_env = some "your-secret-name";
}

-- Does `RegisterPlugin` succeed?
unfoldable pub register_plugin : (KubernetesJob → Bool) → Plugin → Bool
unfolding plugin_job
register_plugin create plugin = create (plugin_job plugin)

unfoldable pub unregister_plugin : (String → Bool) → String → Bool
unregister_plugin delete name_and_revision = delete name_and_revision

unfoldable pub convert_to_env_vars : KeyValuePairs → List KeyValuePair
convert_to_env_vars [] = []
convert_to_env_vars (kv ∷ kvs) =
    record { name = kv.name; value = kv.value } ∷ convert_to_env_vars kvs
