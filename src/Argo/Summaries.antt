-- ===== src/Argo/Summaries.antt =====
-- k8sargo.go: Status, TerminateJobs, JobLog and UnregisterPlugin. What the workflow service answers
-- is an argument; the nodes of a workflow are in an order in which `range` visits their map.
pub mod Reported
use cloudcompute.Base.{
  ℕ, String, List, [], ◌∷◌, ◌++◌, Bool, true, false, Option, none, some, ite, String_discrete, ◌||◌,
  cond,
}
use cloudcompute.Base.Maps.{Map, get_or}
use cloudcompute.Base.Text.{join}
use cloudcompute.Jobs.{JobSummary}

abbrev pub argo_to_cc_status : Map String String
argo_to_cc_status =
    ("Pending", "PENDING")
    ∷ ("Running", "RUNNING")
    ∷ ("Succeeded", "SUCCEDED")
    ∷ ("Skipped", "FAILED")
    ∷ ("Failed", "FAILED")
    ∷ ("Error", "FAILED")
    ∷ ("Omitted", "FAILED")
    ∷ []

-- A node of a workflow: its input parameters are names with values. The times are milliseconds.
pub record Node : Type 0 where
  pub kind : String
  pub display_name : String
  pub started_at : ℕ
  pub finished_at : ℕ
  pub parameters : List (String × String)
  pub phase : String
  pub message : String
  pub template_name : String

pub record WorkflowStatus : Type 0 where
  pub name : String
  pub created_at : ℕ
  pub nodes : List Node

-- The loop over the parameters: the last value of `job`, or what it was before.
unfoldable pub job_id_of : String → List (String × String) → String
job_id_of before [] = before
job_id_of before ((name, value) ∷ parameters) =
    job_id_of (ite (String_discrete name "job") value before) parameters

unfoldable pub node_summary : ℕ → Node → JobSummary
unfolding job_id_of
node_summary created node = record {
  job_id = job_id_of "" node.parameters;
  job_name = node.display_name;
  created_at = some created;
  started_at = some node.started_at;
  status = get_or String_discrete "" node.phase argo_to_cc_status;
  status_detail = some node.message;
  stopped_at = some node.finished_at;
  resource_name = node.template_name;
}

abbrev pub runs_container : Node → Bool
runs_container node =
    ite (String_discrete node.kind "Pod") true
      (ite (String_discrete node.kind "Container") true false)

unfoldable pub node_summaries : ℕ → List Node → List JobSummary
unfolding node_summary
node_summaries created [] = []
node_summaries created (node ∷ nodes) =
    let rest = node_summaries created nodes in
    cond (runs_container node) (node_summary created node ∷ rest) rest

unfoldable pub workflow_summaries : List WorkflowStatus → List JobSummary
unfolding node_summaries
workflow_summaries [] = []
workflow_summaries (wf ∷ workflows) =
    node_summaries wf.created_at wf.nodes ++ workflow_summaries workflows

-- The selector of the workflows of a compute.
abbrev pub compute_selector : String → String
compute_selector compute = join "compute=" compute

-- `Status`: what the query's function is called with, or `none` for an error.
unfoldable pub status : (String → Option (List WorkflowStatus)) → String → Option (List JobSummary)
unfolding workflow_summaries
status list_workflows compute = elim (list_workflows (compute_selector compute)) [
  | none ↦ none
  | some workflows ↦ some (workflow_summaries workflows)
]

unfoldable pub stopped : List WorkflowStatus → List String
stopped [] = []
stopped (wf ∷ workflows) = wf.name ∷ stopped workflows

-- `TerminateJobs`: the workflows that it asks to stop, whatever the service answers, or `none` for
-- an error.
unfoldable pub terminate_jobs :
    (String → Option (List WorkflowStatus)) → String → Option (List String)
unfolding stopped
terminate_jobs list_workflows compute = elim (list_workflows (compute_selector compute)) [
  | none ↦ none
  | some workflows ↦ some (stopped workflows)
]

-- A stream of log entries, which ends at `io.EOF` or with another error.
pub data LogStream : Type 0 where
  eof broken : LogStream
  entry : String → LogStream → LogStream

-- The loop of `JobLog`: the entries, and whether the stream was whole.
unfoldable pub receive_all : LogStream → List String × Bool
receive_all eof = ([], true)
receive_all broken = ([], false)
receive_all (entry content stream) =
    let (logs, whole) = receive_all stream in (content ∷ logs, whole)

-- `JobLog`, by the event's id and the selector of the job.
unfoldable pub job_log : (String → String → Option LogStream) → String → String → List String × Bool
unfolding receive_all
job_log workflow_logs event_id vendor_job_id =
    elim (workflow_logs event_id (join "job=" vendor_job_id)) [
      | none ↦ ([], false)
      | some stream ↦ receive_all stream
    ]
