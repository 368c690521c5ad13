-- ===== src/Aws/Linked.antt =====
-- SubmitJobs of the AWS Batch provider: the dependencies of an ordered list of jobs.
use cloudcompute.Base.{
  ◌≡◌, refl, String, List, [], ◌∷◌, ◌++◌, true, false, Option, none, some, ite, ℕ_discrete, arith,
  has, has-append, All, append_assoc,
}
use cloudcompute.Base.Maps.{get_or, insert, get_or-insert}
use cloudcompute.Manifest.{Uuid}
use cloudcompute.Jobs.{Job, SubmitJobResult, SubmissionIdMap, SubmitJobsInput, map_dependencies}
use cloudcompute.Docker.Provider.Linked.{IsInOrder}
use cloudcompute.Aws.{
  BatchJob, Submitted, accepted, with_job, batch_job_of, to_batch_dependency, submit_from,
  submit_jobs,
}

abbrev pub batch_id : Option SubmitJobResult → String
batch_id none = ""
batch_id (some r) = elim r.job_id [ none ↦ "" | some id ↦ id ]

-- The id that Batch gave to the job of a manifest, and to those of several.
abbrev pub id_of : Uuid → List Job → String
id_of d [] = ""
id_of d (j ∷ jobs) = ite (ℕ_discrete d j.manifest_id) (batch_id j.submitted_job) (id_of d jobs)

abbrev pub ids_of : List Uuid → List Job → List String
ids_of [] jobs = []
ids_of (d ∷ deps) jobs = id_of d jobs ∷ ids_of deps jobs

abbrev pub manifests : List Job → List Uuid
manifests [] = []
manifests (j ∷ jobs) = j.manifest_id ∷ manifests jobs

abbrev Holds : List Job → SubmissionIdMap → Type 0
Holds done ids =
    (d : Uuid)
    → has ℕ_discrete d (manifests done) ≡ true
    → get_or ℕ_discrete "" d ids ≡ id_of d done

manifests-append : (p q : List Job) → manifests (p ++ q) ≡ manifests p ++ manifests q
manifests-append [] q = refl
manifests-append (j ∷ p) q = rw (manifests-append p q) refl

id_of-append :
    (d : Uuid) (p q : List Job)
    → has ℕ_discrete d (manifests p) ≡ true
    → id_of d (p ++ q) ≡ id_of d p
id_of-append d [] q h = cc
id_of-append d (j ∷ p) q h = ground (arith, id_of-append d p q)

id_of-snoc :
    (d : Uuid) (p : List Job) (j : Job)
    → has ℕ_discrete d (manifests p) ≡ false
    → id_of d (p ++ j ∷ []) ≡ id_of d (j ∷ [])
id_of-snoc d [] j h = refl
id_of-snoc d (k ∷ p) j h = ground (arith, id_of-snoc d p j)

map_dependencies-ids :
    (done behind : List Job) (deps : List Uuid) (ids : SubmissionIdMap)
    → Holds done ids
    → All (λ d. has ℕ_discrete d (manifests done) ≡ true) deps
    → map_dependencies ids deps ≡ ids_of deps (done ++ behind)
unfolding map_dependencies
map_dependencies-ids done behind [] ids h a = refl
map_dependencies-ids done behind (d ∷ deps) ids h a =
    cc (h d a.0, id_of-append d done behind a.0, map_dependencies-ids done behind deps ids h a.1)

insert-Holds :
    (done : List Job) (j : Job) (id arn : String) (ids : SubmissionIdMap)
    → has ℕ_discrete j.manifest_id (manifests done) ≡ false
    → Holds done ids
    → Holds (done ++ accepted id arn j ∷ []) (insert ℕ_discrete j.manifest_id id ids)
insert-Holds done j id arn ids fresh h d e =
    let k = accepted id arn j in
    elim (ℕ_discrete d j.manifest_id) [
      | yes same ↦
          let gone = rw (← same) at fresh in
          ground
            (arith, get_or-insert ℕ_discrete "" j.manifest_id d id ids, id_of-snoc d done k gone)
      | no other ↦
          let known : has ℕ_discrete d (manifests done) ≡ true = ground (
            arith,
            e,
            manifests-append done (k ∷ []),
            has-append ℕ_discrete d (manifests done) (j.manifest_id ∷ []),
          ) in
          ground (
            arith,
            get_or-insert ℕ_discrete "" j.manifest_id d id ids,
            h d known,
            id_of-append d done (k ∷ []) known,
          )
    ]

module _ (uuid_string : Uuid → String) (submit_job : BatchJob → Option (String × String)) where
  -- What the loop submits of `jobs` behind the jobs of `done`.
  abbrev Links : List Job → List Job → Submitted → Type 0
  Links done jobs s =
      All (λ j. j.depends_on ≡ ids_of j.manifest_dependencies (done ++ s.jobs)) s.jobs
      × (s.is_failed ≡ false → manifests s.jobs ≡ manifests jobs)

  Links-with_job :
      (done : List Job) (job k : Job) (jobs : List Job) (s : Submitted)
      → k.depends_on ≡ ids_of k.manifest_dependencies (done ++ k ∷ s.jobs)
      → k.manifest_id ≡ job.manifest_id
      → Links (done ++ k ∷ []) jobs s
      → Links done (job ∷ jobs) (with_job k s)
  Links-with_job done job k jobs s deps same h =
      let grouped = append_assoc done (k ∷ []) s.jobs in
      ((deps, rw grouped at h.0), λ e. rw (h.1 e, same) refl)

  Links-cons :
      (name name' : String) (done : List Job) (ids : SubmissionIdMap) (job job' : Job)
      (jobs : List Job) (found : Option (String × String))
      → job'.manifest_id ≡ job.manifest_id
      → ((behind : List Job) → job'.depends_on ≡ ids_of job'.manifest_dependencies (done ++ behind))
      → ((id arn : String)
          → Links (done ++ accepted id arn job' ∷ []) jobs (
              submit_from uuid_string submit_job name'
                (insert ℕ_discrete job.manifest_id id ids)
                jobs))
      → Links done (job ∷ jobs) (elim found [
        | none ↦ record {
          workflow_name = name';
          is_failed = true;
          submission_id_map = ids;
          jobs = [];
        }
        | some (id, arn) ↦ with_job (accepted id arn job') (
            submit_from uuid_string submit_job name'
              (insert ℕ_discrete job.manifest_id id ids)
              jobs)
      ])
  Links-cons name name' done ids job job' jobs none same deps rest = (tt, λ e. cc)
  Links-cons name name' done ids job job' jobs (some (id, arn)) same deps rest =
      let k = accepted id arn job' in
      let s =
        submit_from uuid_string submit_job name' (insert ℕ_discrete job.manifest_id id ids) jobs in
      Links-with_job done job k jobs s (deps (k ∷ s.jobs)) same (rest id arn)

  submit_from-Links :
      (name : String) (done : List Job) (ids : SubmissionIdMap) (jobs : List Job)
      → Holds done ids
      → IsInOrder (manifests done) jobs
      → Links done jobs (submit_from uuid_string submit_job name ids jobs)
  unfolding submit_from
  submit_from-Links name done ids [] h o = (tt, λ e. refl)
  submit_from-Links name done ids (job ∷ jobs) h o =
      let job' : Job = record job { depends_on = map_dependencies ids job.manifest_dependencies } in
      Links-cons name (uuid_string job.event_id) done ids job job' jobs
        (submit_job (batch_job_of job')) refl
        (λ behind. map_dependencies-ids done behind job.manifest_dependencies ids h o.0)
        (λ id arn.
          submit_from-Links (uuid_string job.event_id) (done ++ accepted id arn job' ∷ [])
            (insert ℕ_discrete job.manifest_id id ids) jobs
            (insert-Holds done job' id arn ids o.1 h)
            (rw (manifests-append done (accepted id arn job' ∷ [])) o.2))

  -- A job that Batch was asked to run: the request waits for the ids that the job waits for, and
  -- the ids that Batch answered are the job's.
  abbrev pub IsAsked : Job → Type 0
  IsAsked j =
      (id : String) × (arn : String) × (submit_job (batch_job_of j) ≡ some (id, arn))
      × (j.submitted_job ≡ some (record { job_id = some id; resource_name = some arn }))
      × ((batch_job_of j).depends_on ≡ j.depends_on)

  to_batch_dependency_lem : (deps : List String) → to_batch_dependency deps ≡ deps
  unfolding to_batch_dependency
  to_batch_dependency_lem [] = refl
  to_batch_dependency_lem (d ∷ deps) = cc (to_batch_dependency_lem deps)

  accepted-IsAsked :
      (job : Job) (id arn : String)
      → submit_job (batch_job_of job) ≡ some (id, arn)
      → IsAsked (accepted id arn job)
  unfolding batch_job_of
  accepted-IsAsked job id arn answer =
      (id, arn, answer, refl, to_batch_dependency_lem job.depends_on)

  -- The jobs of a submission that begins with `job`, by what Batch answers to it.
  with_job-IsAsked :
      (name : String) (ids : SubmissionIdMap) (job : Job) (found : Option (String × String))
      (rest : String → Submitted)
      → submit_job (batch_job_of job) ≡ found
      → ((id : String) → All IsAsked (rest id).jobs)
      → All IsAsked
          (elim found as (λ x. Submitted) [
            | none ↦ record {
              workflow_name = name;
              is_failed = true;
              submission_id_map = ids;
              jobs = [];
            }
            | some (id, arn) ↦ with_job (accepted id arn job) (rest id)
          ]).jobs
  with_job-IsAsked name ids job none rest answer h = tt
  with_job-IsAsked name ids job (some (id, arn)) rest answer h =
      (accepted-IsAsked job id arn answer, h id)

  submit_from-IsAsked :
      (jobs : List Job) (name : String) (ids : SubmissionIdMap)
      → All IsAsked (submit_from uuid_string submit_job name ids jobs).jobs
  unfolding submit_from
  submit_from-IsAsked [] name ids = tt
  submit_from-IsAsked (job ∷ jobs) name ids =
      let job' : Job = record job { depends_on = map_dependencies ids job.manifest_dependencies } in
      let name' = uuid_string job.event_id in
      with_job-IsAsked name' ids job' (submit_job (batch_job_of job'))
        (λ id.
          submit_from uuid_string submit_job name' (insert ℕ_discrete job.manifest_id id ids) jobs)
        refl (λ id. submit_from-IsAsked jobs name' (insert ℕ_discrete job.manifest_id id ids))

  -- Jobs in an order in which each stands behind those on whose manifests it depends are submitted
  -- to Batch in order, all unless Batch refuses one. Each that is submitted waits for exactly the
  -- ids that Batch gave to the jobs on whose manifests it depends; Batch was asked for a job that
  -- waits for these ids, and what it answered is kept with the job.
  pub submit_jobs-linked :
      (input : SubmitJobsInput)
      → IsInOrder [] input.jobs
      → (let s = submit_jobs uuid_string submit_job input in
          All (λ j. j.depends_on ≡ ids_of j.manifest_dependencies s.jobs) s.jobs
          × All IsAsked s.jobs
          × (s.is_failed ≡ false → manifests s.jobs ≡ manifests input.jobs))
  unfolding submit_jobs
  submit_jobs-linked input o =
      let (links, all) = submit_from-Links "" [] input.submission_id_map input.jobs (λ d e. cc) o in
      (links, submit_from-IsAsked input.jobs "" input.submission_id_map, all)
