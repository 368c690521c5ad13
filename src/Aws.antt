-- ===== src/Aws.antt =====
-- providers/awsbatch/aws-batch.go: submission, status and termination of jobs. The Batch client is
-- a parameter: what it answers to a submission, and the page of jobs behind a token. `none` is an
-- error of it. The paging loops run on fuel.
pub mod Pages
pub mod Linked
pub mod Queries
pub mod Plugins
pub mod Processed
use cloudcompute.Base.Int.{ℤ, pos, negsuc}
use cloudcompute.Base.{
  ℕ, zero, suc, String, List, [], ◌∷◌, ◌++◌, Bool, true, false, ◌||◌, Option, none, some, ite,
  String_discrete, ℕ_discrete,
}
use cloudcompute.Base.Maps.{Map, insert}
use cloudcompute.Base.Text.{join}
use cloudcompute.Manifest.{Uuid, KeyValuePairs, ResourceRequirement}
use cloudcompute.Jobs.{
  Job, ContainerOverrides, SubmitJobResult, SubmissionIdMap, SubmitJobsInput, JobSummary,
  JobNameParts, VendorJob, map_dependencies,
}

-- A variable of a container, or a secret with the place that it is from.
pub record BatchPair : Type 0 where
  pub name : String
  pub value : String

unfoldable pub kvp_to_batch_kvp : KeyValuePairs → List BatchPair
kvp_to_batch_kvp [] = []
kvp_to_batch_kvp (kvp ∷ kvps) =
    record { name = kvp.name; value = kvp.value } ∷ kvp_to_batch_kvp kvps

pub record BatchOverrides : Type 0 where
  pub command : List String
  pub environment : List BatchPair
  pub resource_requirements : List ResourceRequirement

abbrev to_batch_requirements : List ResourceRequirement → List ResourceRequirement
to_batch_requirements [] = []
to_batch_requirements (rr ∷ rrs) =
    record { kind = rr.kind; value = rr.value } ∷ to_batch_requirements rrs

unfoldable pub to_batch_container_overrides : ContainerOverrides → BatchOverrides
unfolding kvp_to_batch_kvp
to_batch_container_overrides co = record {
  command = co.command;
  environment = kvp_to_batch_kvp co.environment;
  resource_requirements = to_batch_requirements co.resource_requirements;
}

-- The dependencies of a job of Batch are the ids of jobs of Batch.
unfoldable pub to_batch_dependency : List String → List String
to_batch_dependency [] = []
to_batch_dependency (d ∷ deps) = d ∷ to_batch_dependency deps

abbrev pub if_positive : ℤ → Option ℕ
if_positive (pos zero) = none
if_positive (pos (suc n)) = some (suc n)
if_positive (negsuc n) = none

-- What is submitted of a job; a number of retries or of seconds that is zero is left out.
pub record BatchJob : Type 0 where
  pub job_definition : String
  pub job_name : String
  pub job_queue : String
  pub depends_on : List String
  pub container_overrides : BatchOverrides
  pub parameters : Map String String
  pub tags : Map String String
  pub retry_attempts : Option ℕ
  pub timeout : Option ℕ

unfoldable pub batch_job_of : Job → BatchJob
unfolding to_batch_dependency to_batch_container_overrides
batch_job_of job = record {
  job_definition = job.job_definition;
  job_name = job.job_name;
  job_queue = job.job_queue;
  depends_on = to_batch_dependency job.depends_on;
  container_overrides = to_batch_container_overrides job.container_overrides;
  parameters = job.parameters;
  tags = job.tags;
  retry_attempts = if_positive job.retry_attempts;
  timeout = if_positive job.job_timeout;
}

-- A job as it was submitted, and the ids that Batch gave it.
pub record Submitted : Type 0 where
  pub workflow_name : String
  pub is_failed : Bool
  pub submission_id_map : SubmissionIdMap
  pub jobs : List Job

abbrev pub accepted : String → String → Job → Job
accepted job_id arn job = record job {
  submitted_job = some (record { job_id = some job_id; resource_name = some arn });
}

abbrev pub with_job : Job → Submitted → Submitted
with_job job s = record {
  workflow_name = s.workflow_name;
  is_failed = s.is_failed;
  submission_id_map = s.submission_id_map;
  jobs = job ∷ s.jobs;
}

module _ (uuid_string : Uuid → String) (submit_job : BatchJob → Option (String × String)) where
  -- The loop over the jobs; `jobs` of the result are those that were submitted.
  unfoldable pub submit_from : String → SubmissionIdMap → List Job → Submitted
  unfolding batch_job_of
  submit_from name ids [] = record {
    workflow_name = name;
    is_failed = false;
    submission_id_map = ids;
    jobs = [];
  }
  submit_from name ids (job ∷ jobs) =
      let name' = uuid_string job.event_id in
      let job' = record job { depends_on = map_dependencies ids job.manifest_dependencies } in
      elim (submit_job (batch_job_of job')) [
        | none ↦ record {
          workflow_name = name';
          is_failed = true;
          submission_id_map = ids;
          jobs = [];
        }
        | some (job_id, arn) ↦
            with_job (accepted job_id arn job')
              (submit_from name' (insert ℕ_discrete job.manifest_id job_id ids) jobs)
      ]

  unfoldable pub submit_jobs : SubmitJobsInput → Submitted
  unfolding submit_from
  submit_jobs input = submit_from "" input.submission_id_map input.jobs

pub data SummaryLevel : Type 0 where
  compute event job : SummaryLevel

-- The filter of a query by job name.
unfoldable pub query_string : String → SummaryLevel → JobNameParts → String
query_string profile compute parts = join profile (join "_c_" (join parts.compute "*"))
query_string profile event parts =
    join profile (join "_c_" (join parts.compute (join "_e_" (join parts.event "*"))))
query_string profile job parts =
    join profile
      (join "_c_" (join parts.compute (join "_e_" (join parts.event (join "_j_" parts.job)))))

-- A page of `ListJobs`, and the token of the next one.
pub record Page : Type 0 where
  pub summaries : List JobSummary
  pub next_token : Option String

abbrev pub ListJobs : Type 0
ListJobs = Option String → Option Page

-- How a loop over pages ended.
pub data Paging : Type 0 where
  done failed unfinished : Paging

abbrev pub before_pages :
    List JobSummary → List (List JobSummary) × Paging → List (List JobSummary) × Paging
before_pages page (pages, end) = (page ∷ pages, end)

-- The `for` of `Status`: the pages that the query's function is called with.
unfoldable pub list_pages : ℕ → ListJobs → Option String → List (List JobSummary) × Paging
list_pages zero list token = ([], unfinished)
list_pages (suc fuel) list token = elim (list token) [
  | none ↦ ([], failed)
  | some page ↦ elim page.next_token [
    | none ↦ (page.summaries ∷ [], done)
    | some next ↦ before_pages page.summaries (list_pages fuel list (some next))
  ]
]

-- What is asked of Batch for a job.
pub data Call : Type 0 where
  terminate cancel : String → Call

abbrev is_text : String → String → Bool
is_text s t = ite (String_discrete s t) true false

-- The `switch` on the status of a job.
unfoldable pub call_for : JobSummary → List Call
call_for j = ite (String_discrete j.status "STARTING") (terminate j.job_id ∷ []) (
    ite (String_discrete j.status "RUNNING") (terminate j.job_id ∷ []) (
      ite (String_discrete j.status "SUBMITTED") (cancel j.job_id ∷ [])
        (ite (String_discrete j.status "RUNNABLE") (cancel j.job_id ∷ []) [])))

unfoldable pub calls_for : List JobSummary → List Call
unfolding call_for
calls_for [] = []
calls_for (j ∷ summaries) = call_for j ++ calls_for summaries

unfoldable pub calls_for_pages : List (List JobSummary) → List Call
unfolding calls_for
calls_for_pages [] = []
calls_for_pages (page ∷ pages) = calls_for page ++ calls_for_pages pages

unfoldable pub terminate_each : List VendorJob → List Call
terminate_each [] = []
terminate_each (v ∷ jobs) = terminate v.id ∷ terminate_each jobs

-- `TerminateJobs`: the jobs of a list, or those that the query finds.
unfoldable pub terminate_jobs : ℕ → ListJobs → Option (List VendorJob) → List Call × Paging
unfolding list_pages calls_for_pages terminate_each
terminate_jobs fuel list (some jobs) = (terminate_each jobs, done)
terminate_jobs fuel list none =
    let (pages, end) = list_pages fuel list none in (calls_for_pages pages, end)

abbrev pub followed_by :
    List (List JobSummary) × Paging
    → List (List JobSummary) × Paging
    → List (List JobSummary) × Paging
followed_by (pages, done) (more, end) = (pages ++ more, end)
followed_by (pages, failed) rest = (pages, failed)
followed_by (pages, unfinished) rest = (pages, unfinished)

abbrev pub queue_statuses : List String
queue_statuses = "SUBMITTED" ∷ "PENDING" ∷ "RUNNABLE" ∷ "STARTING" ∷ "RUNNING" ∷ []

-- The loop of `QueueSummary` over the statuses; the token is nil again behind each.
unfoldable pub queue_pages : ℕ → (String → ListJobs) → List String → List (List JobSummary) × Paging
unfolding list_pages
queue_pages fuel list [] = ([], done)
queue_pages fuel list (status ∷ statuses) =
    followed_by (list_pages fuel (list status) none) (queue_pages fuel list statuses)

unfoldable pub queue_summary : ℕ → (String → ListJobs) → List (List JobSummary) × Paging
unfolding queue_pages
queue_summary fuel list = queue_pages fuel list queue_statuses

abbrev pub terminate_all : List JobSummary → List Call
terminate_all [] = []
terminate_all (j ∷ summaries) = terminate j.job_id ∷ terminate_all summaries

abbrev pub terminate_pages : List (List JobSummary) → List Call
terminate_pages [] = []
terminate_pages (page ∷ pages) = terminate_all page ++ terminate_pages pages

-- `TerminateQueue`
unfoldable pub terminate_queue : ℕ → (String → ListJobs) → List Call × Paging
unfolding queue_summary
terminate_queue fuel list =
    let (pages, end) = queue_summary fuel list in (terminate_pages pages, end)
