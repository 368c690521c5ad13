-- ===== src/Kubernetes/Termination.antt =====
-- TerminateJobs of the Kubernetes provider: what it deletes of what SubmitJobs has created.
use cloudcompute.Base.{
  ℕ, suc, ◌≡◌, ◌≢◌, refl, String, List, [], ◌∷◌, Bool, true, false, arith, All, has,
  String_discrete, return, Outcome, panic, ◌>>=◌, ap, cond, subst,
}
use cloudcompute.Jobs.{Job, VendorJob}
use cloudcompute.Kubernetes.{
  KubernetesJob, Submitted, submit_from, submit_jobs, terminate_jobs, labels_of, with_created,
  kubernetes_job, Labels, named,
}
use cloudcompute.Kubernetes.Labelled.{has_underscore}

abbrev pub created_names : List KubernetesJob → List String
created_names [] = []
created_names (k ∷ created) = k.name ∷ created_names created

different : (s t : String) → has_underscore s ≡ true → has_underscore t ≡ false → s ≢ t
different s t y n e = ground (arith, y, n, ap has_underscore e)

absent :
    (s : String) (created : List KubernetesJob)
    → has_underscore s ≡ true
    → All (λ k. has_underscore k.name ≡ false) created
    → has String_discrete s (created_names created) ≡ false
absent s [] y h = refl
absent s (k ∷ created) y h = ground (arith, different s k.name y h.0, absent s created y h.1)

deleted-absent :
    (delete : String → Bool) (vendor_jobs : List VendorJob) (created : List KubernetesJob)
    → All (λ v. has_underscore v.name ≡ true) vendor_jobs
    → All (λ k. has_underscore k.name ≡ false) created
    → All
        (λ d. has String_discrete d (created_names created) ≡ false)
        (terminate_jobs delete vendor_jobs).0
unfolding terminate_jobs
deleted-absent delete [] created y n = tt
deleted-absent delete (v ∷ jobs) created y n =
    ground (arith, absent v.name created y.0 n, deleted-absent delete jobs created y.1 n)

abbrev Clean : Outcome Submitted → Type 0
Clean panic = Unit
Clean (return s) = All (λ k. has_underscore k.name ≡ false) s.created

-- One job of the loop, by whether the cluster takes it, the labels and the rest.
step-Clean :
    (taken : Bool) (k : KubernetesJob) (job : Job) (jobs : List Job) (rest : Outcome Submitted)
    → has_underscore k.name ≡ false
    → Clean rest
    → Clean (
        cond taken
          (rest >>= λ s. return (with_created job k s))
          (return (record { jobs = job ∷ jobs; created = []; is_complete = false })))
step-Clean false k job jobs rest n h = tt
step-Clean true k job jobs panic n h = tt
step-Clean true k job jobs (return s) n h = (n, h)

labelled-Clean :
    (labels : Outcome Labels) (f : Labels → Outcome Submitted)
    → ((l : Labels) → Clean (f l))
    → Clean (labels >>= f)
labelled-Clean panic f h = tt
labelled-Clean (return l) f h = h l

submit_from-Clean :
    (new_name : ℕ → String) (create : KubernetesJob → Bool) (i : ℕ) (jobs : List Job)
    → ((i : ℕ) → has_underscore (new_name i) ≡ false)
    → Clean (submit_from new_name create i jobs)
unfolding submit_from
submit_from-Clean new_name create i [] n = tt
submit_from-Clean new_name create i (job ∷ jobs) n =
    let rest = submit_from-Clean new_name create (suc i) jobs n in
    labelled-Clean (labels_of job.job_name) _ (λ labels.
      let k = kubernetes_job (new_name i) labels job in
      step-Clean (create k) k (named (new_name i) job) jobs
        (submit_from new_name create (suc i) jobs) (n i) rest)

created-underscore :
    (o : Outcome Submitted) (s : Submitted)
    → Clean o
    → o ≡ return s
    → All (λ k. has_underscore k.name ≡ false) s.created
created-underscore o s h e = subst Clean e h

-- Where the names that uuids give hold no `_`, and those of the jobs to terminate do,
-- `TerminateJobs` deletes no job that `SubmitJobs` created: it deletes by the job's own name, which
-- is another.
pub terminate_jobs-misses :
    (new_name : ℕ → String) (create : KubernetesJob → Bool) (delete : String → Bool)
    (jobs : List Job) (s : Submitted) (vendor_jobs : List VendorJob)
    → ((i : ℕ) → has_underscore (new_name i) ≡ false)
    → All (λ v. has_underscore v.name ≡ true) vendor_jobs
    → submit_jobs new_name create jobs ≡ return s
    → All
        (λ d. has String_discrete d (created_names s.created) ≡ false)
        (terminate_jobs delete vendor_jobs).0
unfolding submit_jobs
terminate_jobs-misses new_name create delete jobs s vendor_jobs n y h =
    deleted-absent delete vendor_jobs s.created y (
      created-underscore (submit_from new_name create 0 jobs) s
        (submit_from-Clean new_name create 0 jobs n) h)
