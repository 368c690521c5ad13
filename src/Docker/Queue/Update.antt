-- ===== src/Docker/Queue/Update.antt =====
-- UpdateJobs gives each job the status that follows from the queue as it was.
use cloudcompute.Base.{
  ◌≡◌, refl, String, List, [], ◌∷◌, ◌++◌, Bool, true, false, ◌||◌, Option, none, some, ite, cond,
  String_discrete, arith, append_assoc, append-nil, ◌∙◌, sym, ap,
}
use cloudcompute.Manifest.{Uuid}
use cloudcompute.Docker.Queue.{
  JobStatus, submitted, pending, DockerJob, contains_status, unfinished_dep_status_list, find_dep,
  has_unfinished_dependencies, next_status, update_from, update_jobs,
}

-- What other jobs see of a job: its submitted id, and whether it is unfinished.
abbrev pub flags : List DockerJob → List (String × Bool)
flags [] = []
flags (j ∷ queue) =
    (j.submitted_job_id, contains_status unfinished_dep_status_list j.status) ∷ flags queue

flag_of : String → List (String × Bool) → Option Bool
flag_of dep [] = none
flag_of dep ((id, b) ∷ fs) = elim (flag_of dep fs) [
  | some later ↦ some later
  | none ↦ ite (String_discrete id dep) (some b) none
]

is_set : Option Bool → Bool
is_set none = false
is_set (some b) = b

some_unfinished : List String → List (String × Bool) → Bool
some_unfinished [] fs = false
some_unfinished (dep ∷ deps) fs = is_set (flag_of dep fs) || some_unfinished deps fs

find_dep-flag :
    (dep : String) (queue : List DockerJob)
    → flag_of dep (flags queue) ≡ elim (find_dep dep queue) [
      | none ↦ none
      | some j ↦ some (contains_status unfinished_dep_status_list j.status)
    ]
unfolding flag_of find_dep
find_dep-flag dep [] = refl
find_dep-flag dep (j ∷ queue) = ground (arith, find_dep-flag dep queue)

unfinished-flags :
    (deps : List String) (queue : List DockerJob)
    → has_unfinished_dependencies deps queue ≡ some_unfinished deps (flags queue)
unfolding has_unfinished_dependencies some_unfinished is_set
unfinished-flags [] queue = refl
unfinished-flags (dep ∷ deps) queue =
    ground (arith, unfinished-flags deps queue, find_dep-flag dep queue)

-- Queues that look alike to other jobs have the same unfinished dependencies.
pub same_unfinished :
    (deps : List String) (p q : List DockerJob)
    → flags p ≡ flags q
    → has_unfinished_dependencies deps p ≡ has_unfinished_dependencies deps q
same_unfinished deps p q e =
    unfinished-flags deps p ∙ ap (some_unfinished deps) e ∙ sym (unfinished-flags deps q)

-- A turn in `UpdateJobs` makes no job finished or unfinished.
next_status-unfinished :
    (deps : List String) (b : Bool) (s : JobStatus)
    → contains_status unfinished_dep_status_list (next_status deps b s).0
      ≡ contains_status unfinished_dep_status_list s
unfolding next_status contains_status
next_status-unfinished [] b submitted = refl
next_status-unfinished (dep ∷ deps) b submitted = refl
next_status-unfinished [] b pending = refl
next_status-unfinished (dep ∷ deps) true pending = refl
next_status-unfinished (dep ∷ deps) false pending = refl
next_status-unfinished deps b s = ground arith

flags-append : (p q : List DockerJob) → flags (p ++ q) ≡ flags p ++ flags q
flags-append [] q = refl
flags-append (j ∷ p) q = cc (flags-append p q)

-- The status of `j` and whether it can start, by its dependencies in the queue `full`.
abbrev pub turn : List DockerJob → DockerJob → JobStatus × Bool
turn full j =
    next_status j.job.depends_on (has_unfinished_dependencies j.job.depends_on full) j.status

abbrev pub refreshed : List DockerJob → List DockerJob → List DockerJob
refreshed full [] = []
refreshed full (j ∷ queue) = record j { status = (turn full j).0 } ∷ refreshed full queue

abbrev pub startable : List DockerJob → List DockerJob → List Uuid
startable full [] = []
startable full (j ∷ queue) =
    let rest = startable full queue in cond (turn full j).1 (j.job.id ∷ rest) rest

update_from_lem :
    (full done queue : List DockerJob)
    → flags (done ++ queue) ≡ flags full
    → update_from done queue ≡ (done ++ refreshed full queue, startable full queue)
unfolding update_from
update_from_lem full done [] e = ground (arith, append-nil done)
update_from_lem full done (j ∷ queue) e =
    let j' = record j { status = (turn full j).0 } in
    let same = same_unfinished j.job.depends_on (done ++ j ∷ queue) full e in
    let alike : flags ((done ++ j' ∷ []) ++ queue) ≡ flags full =
      rw (append_assoc done (j' ∷ []) queue, flags-append done (j' ∷ queue))
        (ap (λ fs. flags done ++ fs)
            (ap (λ b. (j.submitted_job_id, b) ∷ flags queue)
              (next_status-unfinished j.job.depends_on
                (has_unfinished_dependencies j.job.depends_on full) j.status))
          ∙ sym (flags-append done (j ∷ queue))
          ∙ e) in
    ground (
      arith,
      same,
      update_from_lem full (done ++ j' ∷ []) queue alike,
      append_assoc done (j' ∷ []) (refreshed full queue),
    )

-- `UpdateJobs` moves every job at once: the status of each, and the list of those that were pending
-- and can start, follow from the queue as it was, though the loop changes it on the way.
pub update_jobs_lem :
    (queue : List DockerJob) → update_jobs queue ≡ (refreshed queue queue, startable queue queue)
unfolding update_jobs
update_jobs_lem queue = update_from_lem queue [] queue refl

pub refreshed-flags : (full queue : List DockerJob) → flags (refreshed full queue) ≡ flags queue
refreshed-flags full [] = refl
refreshed-flags full (j ∷ queue) = cc (
  refreshed-flags full queue,
  next_status-unfinished j.job.depends_on (has_unfinished_dependencies j.job.depends_on full)
      j.status,
)
