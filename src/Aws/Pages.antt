-- ===== src/Aws/Pages.antt =====
-- The pages of a query, and the termination of the jobs that it finds.
use cloudcompute.Base.{
  ℕ, zero, suc, ◌≤◌, ◌≡◌, ◌≢◌, refl, true, false, ite, String, List, [], ◌∷◌, ◌++◌, Option, none,
  some, cond, String_discrete, arith, length, has,
}
use cloudcompute.Base.{All}
use cloudcompute.Aws.{queue_pages, queue_statuses, terminate_queue, terminate_pages}
use cloudcompute.Jobs.{JobSummary}
use cloudcompute.Aws.{
  ListJobs, done, list_pages, Call, terminate, cancel, call_for, calls_for, calls_for_pages,
  terminate_jobs,
}

-- The client answers with these pages, from the token on.
abbrev pub Serves : ListJobs → Option String → List (List JobSummary) → Type 0
Serves list token [] = ⊥
Serves list token (page ∷ []) = list token ≡ some (record { summaries = page; next_token = none })
Serves list token (page ∷ next ∷ pages) =
    (u : String) × (list token ≡ some (record { summaries = page; next_token = some u }))
    × Serves list (some u) (next ∷ pages)

list_pages_lem :
    (fuel : ℕ) (list : ListJobs) (token : Option String) (pages : List (List JobSummary))
    → Serves list token pages
    → length pages ≤ fuel
    → list_pages fuel list token ≡ (pages, done)
unfolding list_pages
list_pages_lem fuel list token [] s h = elim s [ ]
list_pages_lem zero list token (page ∷ pages) s h = absurd (omega arith)
list_pages_lem (suc fuel) list token (page ∷ []) s h = ground (arith, s)
list_pages_lem (suc fuel) list token (page ∷ next ∷ pages) s h =
    let (u, answer, rest) = s in
    ground (arith, answer, list_pages_lem fuel list (some u) (next ∷ pages) rest (omega arith))

abbrev pub call_id : Call → String
call_id (terminate id) = id
call_id (cancel id) = id

abbrev pub call_ids : List Call → List String
call_ids [] = []
call_ids (c ∷ calls) = call_id c ∷ call_ids calls

-- The ids that `TerminateJob` and `CancelJob` are called with.
abbrev pub terminated_ids : List Call → List String
terminated_ids [] = []
terminated_ids (terminate id ∷ calls) = id ∷ terminated_ids calls
terminated_ids (cancel id ∷ calls) = terminated_ids calls

abbrev pub cancelled_ids : List Call → List String
cancelled_ids [] = []
cancelled_ids (terminate id ∷ calls) = cancelled_ids calls
cancelled_ids (cancel id ∷ calls) = id ∷ cancelled_ids calls

-- The ids of the jobs with one of the statuses.
abbrev pub ids_with : List String → List JobSummary → List String
ids_with statuses [] = []
ids_with statuses (j ∷ summaries) =
    let rest = ids_with statuses summaries in
    cond (has String_discrete j.status statuses) (j.job_id ∷ rest) rest

abbrev pub ids_on_pages : List String → List (List JobSummary) → List String
ids_on_pages statuses [] = []
ids_on_pages statuses (page ∷ pages) = ids_with statuses page ++ ids_on_pages statuses pages

abbrev pub begun : List String
begun = "STARTING" ∷ "RUNNING" ∷ []

abbrev pub waiting : List String
waiting = "SUBMITTED" ∷ "RUNNABLE" ∷ []

-- Calls that end the begun and the waiting jobs of these pages, in their order.
abbrev pub Ends : List Call → List (List JobSummary) → Type 0
Ends calls pages =
    (call_ids calls ≡ ids_on_pages (begun ++ waiting) pages)
    × (terminated_ids calls ≡ ids_on_pages begun pages)
    × (cancelled_ids calls ≡ ids_on_pages waiting pages)

append-ids :
    (xs ys : List Call)
    → (call_ids (xs ++ ys) ≡ call_ids xs ++ call_ids ys)
      × (terminated_ids (xs ++ ys) ≡ terminated_ids xs ++ terminated_ids ys)
      × (cancelled_ids (xs ++ ys) ≡ cancelled_ids xs ++ cancelled_ids ys)
append-ids [] ys = (refl, refl, refl)
append-ids (terminate id ∷ xs) ys = let (a, b, c) = append-ids xs ys in (cc a, cc b, cc c)
append-ids (cancel id ∷ xs) ys = let (a, b, c) = append-ids xs ys in (cc a, cc b, cc c)

abbrev EndsOne : List Call → List JobSummary → Type 0
EndsOne calls page =
    (call_ids calls ≡ ids_with (begun ++ waiting) page)
    × (terminated_ids calls ≡ ids_with begun page)
    × (cancelled_ids calls ≡ ids_with waiting page)

abbrev Apart : String → String → Type 0
Apart s t = s ≢ t

text-Apart : (s t : String) → ite (String_discrete s t) true false ≡ false → Apart s t
text-Apart s t h e = ground (arith, h, e)

begun-Apart :
    Apart "STARTING" "SUBMITTED"
    × Apart "STARTING" "RUNNABLE"
    × Apart "RUNNING" "SUBMITTED"
    × Apart "RUNNING" "RUNNABLE"
unfolding String_discrete
begun-Apart = (
  text-Apart "STARTING" "SUBMITTED" refl,
  text-Apart "STARTING" "RUNNABLE" refl,
  text-Apart "RUNNING" "SUBMITTED" refl,
  text-Apart "RUNNING" "RUNNABLE" refl,
)

calls_for-EndsOne : (summaries : List JobSummary) → EndsOne (calls_for summaries) summaries
unfolding calls_for call_for
calls_for-EndsOne [] = (refl, refl, refl)
calls_for-EndsOne (j ∷ summaries) =
    let (a, b, c, d) = begun-Apart in ground (arith, calls_for-EndsOne summaries, a, b, c, d)

calls_for_pages-Ends : (pages : List (List JobSummary)) → Ends (calls_for_pages pages) pages
unfolding calls_for_pages
calls_for_pages-Ends [] = (refl, refl, refl)
calls_for_pages-Ends (page ∷ pages) =
    let (a, b, c) = append-ids (calls_for page) (calls_for_pages pages) in
    let (d, e, f) = calls_for-EndsOne page in
    let (g, h, i) = calls_for_pages-Ends pages in (cc (a, d, g), cc (b, e, h), cc (c, f, i))

-- Where the client serves the jobs that a query finds in pages, `TerminateJobs` without a list of
-- jobs reads every page, in as many rounds as there are pages, and ends, in their order, the jobs
-- that are STARTING, RUNNING, SUBMITTED or RUNNABLE: those of the first two statuses are terminated
-- and those of the last two cancelled; a job that is PENDING is left as it is.
pub terminate_jobs-ended :
    (fuel : ℕ) (list : ListJobs) (pages : List (List JobSummary))
    → Serves list none pages
    → length pages ≤ fuel
    → (let (calls, end) = terminate_jobs fuel list none in Ends calls pages × (end ≡ done))
unfolding terminate_jobs
terminate_jobs-ended fuel list pages s h =
    rw (list_pages_lem fuel list none pages s h) (calls_for_pages-Ends pages, refl)

-- The client answers to each status with pages.
abbrev pub ServesEach : (String → ListJobs) → List String → List (List (List JobSummary)) → Type 0
ServesEach list [] [] = Unit
ServesEach list (status ∷ statuses) (pages ∷ more) =
    Serves (list status) none pages × ServesEach list statuses more
ServesEach list _ _ = ⊥

abbrev pub joined : List (List (List JobSummary)) → List (List JobSummary)
joined [] = []
joined (pages ∷ more) = pages ++ joined more

queue_pages_lem :
    (fuel : ℕ) (list : String → ListJobs) (statuses : List String)
    (each : List (List (List JobSummary)))
    → ServesEach list statuses each
    → All (λ pages. length pages ≤ fuel) each
    → queue_pages fuel list statuses ≡ (joined each, done)
unfolding queue_pages
queue_pages_lem fuel list [] [] s h = refl
queue_pages_lem fuel list [] (pages ∷ more) s h = elim s [ ]
queue_pages_lem fuel list (status ∷ statuses) [] s h = elim s [ ]
queue_pages_lem fuel list (status ∷ statuses) (pages ∷ more) s h = ground (
  arith,
  list_pages_lem fuel (list status) none pages s.0 h.0,
  queue_pages_lem fuel list statuses more s.1 h.1,
)

-- Where the client serves, for each status of an unfinished job, the jobs of the queue in pages,
-- `TerminateQueue` asks to terminate every one of them, those that are pending too.
pub terminate_queue_lem :
    (fuel : ℕ) (list : String → ListJobs) (each : List (List (List JobSummary)))
    → ServesEach list queue_statuses each
    → All (λ pages. length pages ≤ fuel) each
    → terminate_queue fuel list ≡ (terminate_pages (joined each), done)
unfolding terminate_queue
terminate_queue_lem fuel list each s h = rw (queue_pages_lem fuel list queue_statuses each s h) refl
