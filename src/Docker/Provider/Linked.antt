-- ===== src/Docker/Provider/Linked.antt =====
-- SubmitJobs of the Docker provider: the dependencies of an ordered list of jobs.
use cloudcompute.Base.{
  ℕ, ◌≡◌, String, List, [], ◌∷◌, ◌++◌, true, false, Option, none, some, ℕ_discrete, has, length,
  All,
}
use cloudcompute.Base.Maps.{get_or, insert}
use cloudcompute.Toposort.Positions.{index}
use cloudcompute.Manifest.{Uuid}
use cloudcompute.Jobs.{Job, Plugin, SubmissionIdMap}
use cloudcompute.Docker.Queue.{DockerJob}
use cloudcompute.Docker.Manager.{Manager, add_job}
use cloudcompute.Docker.Provider.{PluginRegistry, get_plugin, submitted_as, submit_from}

-- Each job depends on manifests of jobs before it, or of `done`, and no manifest comes twice.
abbrev pub IsInOrder : List Uuid → List Job → Type 0
IsInOrder done [] = Unit
IsInOrder done (j ∷ jobs) =
    All (λ d. has ℕ_discrete d done ≡ true) j.manifest_dependencies
    × (has ℕ_discrete j.manifest_id done ≡ false)
    × IsInOrder (done ++ j.manifest_id ∷ []) jobs

-- The jobs are added one by one.
abbrev pub add_all : List DockerJob → Manager → Manager
add_all [] m = m
add_all (j ∷ jobs) m = add_all jobs (add_job j m)

-- The job definition of the first job whose plugin is not registered.
abbrev pub first_unregistered : PluginRegistry → List Job → Option String
first_unregistered registry [] = none
first_unregistered registry (j ∷ jobs) = elim (get_plugin j.job_definition registry) [
  | none ↦ some j.job_definition
  | some plugin ↦ first_unregistered registry jobs
]

module _ (new_id : ℕ → String) where
  -- The ids under which the jobs of these manifests were submitted.
  abbrev pub ids_of : List Uuid → List Uuid → List String
  ids_of done [] = []
  ids_of done (d ∷ deps) = new_id (index ℕ_discrete d done) ∷ ids_of done deps

  -- The jobs before the first that is not registered, each with the ids of the jobs on whose
  -- manifests it depends.
  abbrev pub linked : PluginRegistry → List Uuid → List Job → List DockerJob
  linked registry done [] = []
  linked registry done (j ∷ jobs) = elim (get_plugin j.job_definition registry) [
    | none ↦ []
    | some plugin ↦
        submitted_as (ids_of done j.manifest_dependencies) (new_id (length done)) plugin j
        ∷ linked registry (done ++ j.manifest_id ∷ []) jobs
  ]

  -- The map holds the id of each manifest that was submitted.
  abbrev Holds : List Uuid → SubmissionIdMap → Type 0
  Holds done ids =
      (d : Uuid)
      → has ℕ_discrete d done ≡ true
      → get_or ℕ_discrete "" d ids ≡ new_id (index ℕ_discrete d done)

  module _ (uuid_string : Uuid → String) (registry : PluginRegistry) where
    -- What the loop over `jobs` leaves behind the jobs of `done`.
    abbrev Links : List Uuid → String → SubmissionIdMap → Manager → List Job → Type 0
    Links done name ids m jobs =
        let s = submit_from uuid_string new_id registry (length done) name ids m jobs in
        (s.manager ≡ add_all (linked registry done jobs) m)
        × (s.error ≡ first_unregistered registry jobs)

    -- The loop from the job `j` on, where the registry has `plugin` for it.
    abbrev LinksOn : List Uuid → SubmissionIdMap → Manager → Job → List Job → Plugin → Type 0
    LinksOn done ids m j jobs plugin =
        Links (done ++ j.manifest_id ∷ []) (uuid_string j.event_id)
          (insert ℕ_discrete j.manifest_id (new_id (length done)) ids)
          (add_job
            (submitted_as (ids_of done j.manifest_dependencies) (new_id (length done)) plugin j) m)
          jobs
