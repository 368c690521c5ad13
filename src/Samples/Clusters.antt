-- ===== src/Samples/Clusters.antt =====
-- Jobs of a compute on a Kubernetes cluster.
use cloudcompute.Base.{
  ℕ, ◌≡◌, refl, String, List, [], ◌∷◌, Bool, true, false, All, has, String_discrete, return,
}
use cloudcompute.Jobs.{Job, VendorJob}
use cloudcompute.Kubernetes.{KubernetesJob, Submitted, submit_jobs, terminate_jobs}
use cloudcompute.Kubernetes.Termination.{created_names, terminate_jobs-misses}
use cloudcompute.Samples.Queues.{job_of}

abbrev jobs : List Job
jobs = record (job_of 1 []) { job_name = "cc_c_1_e_2_j_3" } ∷ []

abbrev new_name : ℕ → String
new_name i = "n"

abbrev accepts : KubernetesJob → Bool
accepts k = true

abbrev deletes : String → Bool
deletes pod = true

submitted : (s : Submitted) × (submit_jobs new_name accepts jobs ≡ return s)
unfolding submit_jobs
submitted = (_, refl)

abbrev vendor_jobs : List VendorJob
vendor_jobs = record { id = "n"; name = "cc_c_1_e_2_j_3" } ∷ []

terminate_jobs-misses_example :
    All
      (λ d. has String_discrete d (created_names submitted.0.created) ≡ false)
      (terminate_jobs deletes vendor_jobs).0
terminate_jobs-misses_example =
    terminate_jobs-misses new_name accepts deletes jobs submitted.0 vendor_jobs (λ i. refl)
      (refl, tt) submitted.1
