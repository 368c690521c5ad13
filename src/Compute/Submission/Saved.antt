-- ===== src/Compute/Submission/Saved.antt =====
-- The rows that the job store is given.
use cloudcompute.Base.{◌≡◌, refl, List, [], ◌∷◌, ◌++◌, Bool, true, false, All, map, cond}
use cloudcompute.Jobs.{Job}
use cloudcompute.Compute.Submission.{SavedJob, save_jobs}

-- The job behind those that were saved, where there is one, is refused.
abbrev pub IsRefused : (Job → Bool) → Bool → List Job → Type 0
IsRefused saves true rest = rest ≡ []
IsRefused saves false [] = ⊥
IsRefused saves false (job ∷ rest) = saves job ≡ false

-- The rows are those of the jobs up to the first that the store refuses, in order, each taken by
-- it.
pub save_jobs_lem :
    (save : SavedJob → Bool) (row_of : Job → SavedJob) (jobs : List Job)
    → (let (rows, all) = save_jobs save row_of jobs in
        (saved : List Job) × (rest : List Job) × (jobs ≡ saved ++ rest)
        × (rows ≡ map row_of saved)
        × All (λ r. save r ≡ true) rows
        × IsRefused (λ job. save (row_of job)) all rest)
unfolding save_jobs
save_jobs_lem save row_of [] = ([], [], refl, refl, tt, refl)
save_jobs_lem save row_of (job ∷ jobs) =
    next (save (row_of job)) refl (save_jobs_lem save row_of jobs)
  where
    Split : List Job → List SavedJob × Bool → Type 0
    Split jobs (rows, all) =
        (saved : List Job) × (rest : List Job) × (jobs ≡ saved ++ rest)
        × (rows ≡ map row_of saved)
        × All (λ r. save r ≡ true) rows
        × IsRefused (λ job. save (row_of job)) all rest

    next :
        (taken : Bool)
        → save (row_of job) ≡ taken
        → Split jobs (save_jobs save row_of jobs)
        → Split (job ∷ jobs) (
            let (rows, all) = save_jobs save row_of jobs in
            cond taken (row_of job ∷ rows, all) ([], false))
    next true e (saved, rest, whole, rows, taken, refused) =
        (job ∷ saved, rest, rw whole refl, rw rows refl, (e, taken), refused)
    next false e h = ([], job ∷ jobs, refl, refl, tt, e)
