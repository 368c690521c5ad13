-- ===== src/Samples/Queues.antt =====
-- A queue of two jobs, the second waiting for the first, and a manager that starts the first.
use cloudcompute.Base.Int.{pos}
use cloudcompute.Base.{
  ◌+◌, ◌≤◌, ◌≡◌, refl, String, List, [], ◌∷◌, false, none, ℕ_discrete, String_discrete, length,
  arith,
}
use cloudcompute.Manifest.{Uuid}
use cloudcompute.Jobs.{Job, Plugin}
use cloudcompute.Docker.Queue.{
  DockerJob, submitted, pending, runnable, succeeded, contains_status, add, get_job, update_jobs,
  get_next_runnable,
}
use cloudcompute.Docker.Queue.Update.{refreshed, startable, update_jobs_lem}
use cloudcompute.Docker.Queue.Choice.{runnables, unblocked}
use cloudcompute.Docker.Manager.{Manager, new_manager, add_job, receive, launch}
use cloudcompute.Docker.Manager.Steps.{AllAdvance, IsNew, Reach, here, then, submit, hear, start}
use cloudcompute.Docker.Manager.Steps.{under_way}
use cloudcompute.Docker.Manager.Readiness.{AllReady}
use cloudcompute.Docker.Manager.Clearance.{Cleared}
use cloudcompute.Docker.Manager.Precedence.{IsOrdered}
use cloudcompute.Docker.Manager.Safety.{manager-IsSafe}
use cloudcompute.Docker.Manager.Late.{late_job_waits}
use cloudcompute.Docker.Manager.Wakeups.{announced, manager-IsAwake}

abbrev pub job_of : Uuid → List String → Job
job_of id deps = record {
  id = id;
  event_id = 0;
  per_event_loop_num = 0;
  manifest_id = id;
  payload_id = 0;
  job_name = "";
  job_queue = "";
  job_definition = "";
  container_overrides = record { command = []; environment = []; resource_requirements = [] };
  depends_on = deps;
  manifest_dependencies = [];
  parameters = [];
  tags = [];
  retry_attempts = pos 0;
  job_timeout = pos 0;
  submitted_job = none;
}

abbrev pub plugin : Plugin
plugin = record {
  name = "p";
  image_and_tag = "p:1";
  description = "";
  command = [];
  compute_environment = record {
    vcpu = "1";
    memory = "512";
    extra_hosts = [];
    ephemeral_storage = "";
  };
  default_environment = [];
  volumes = [];
  credentials = [];
  parameters = [];
  retry_attempts = pos 0;
  execution_timeout = none;
  privileged = false;
  devices = [];
  mount_points = [];
}

abbrev pub docker_job : Uuid → String → List String → DockerJob
docker_job id submitted_id deps = record {
  job = job_of id deps;
  submitted_job_id = submitted_id;
  plugin = plugin;
  status = submitted;
  log = "";
  runner = none;
}

abbrev pub first : DockerJob
first = docker_job 1 "a" []

abbrev pub second : DockerJob
second = docker_job 2 "b" ("a" ∷ [])

abbrev two : List DockerJob
two = first ∷ second ∷ []

two_updated :
    update_jobs two
    ≡ (record first { status = runnable } ∷ record second { status = pending } ∷ [], [])
unfolding update_jobs String_discrete
two_updated = refl

update_jobs_lem_example : update_jobs two ≡ (refreshed two two, startable two two)
update_jobs_lem_example = update_jobs_lem two

abbrev m0 : Manager
m0 = new_manager 0

abbrev m1 : Manager
m1 = add_job first m0

abbrev m2 : Manager
m2 = receive 0 m1

first-IsNew : IsNew first m0
unfolding new_manager get_job
first-IsNew = record {
  fresh_id = refl;
  fresh_run = refl;
  fresh_submitted_id = refl;
  not_awaited = tt;
}

abbrev started : Manager
started = launch 1 0 m2

started-Reach : Reach m0 started
unfolding add_job receive launch new_manager get_next_runnable update_jobs add get_job
started-Reach =
    then (then (then here (submit first refl first-IsNew)) (hear 0 refl refl))
      (start 1 0 refl (omega arith))

started-AllAdvance : AllAdvance started-Reach
unfolding started-Reach
started-AllAdvance = (((tt, tt), tt), tt)

manager-IsAwake_example :
    (runnables started.queue + unblocked started.queue ≤ started.events + announced started.held)
    × (length started.active ≤ 1)
manager-IsAwake_example = manager-IsAwake 0 started started-Reach

manager-IsSafe_example :
    AllReady started.queue × IsOrdered started.queue × Cleared (under_way started) started.queue
manager-IsSafe_example = manager-IsSafe 0 started started-Reach started-AllAdvance

abbrev idle : Manager
idle = record {
  queue = record first { status = succeeded } ∷ [];
  events = 0;
  held = none;
  active = [];
  concurrency = 1;
}

late_job_waits_example :
    (let n = receive 0 (add_job second idle) in
      (n.queue ≡ record first { status = succeeded } ∷ record second { status = pending } ∷ [])
      × (n.events ≡ 0)
      × (n.held ≡ none)
      × (n.active ≡ []))
unfolding get_job contains_status ℕ_discrete
late_job_waits_example = late_job_waits idle second "a" [] refl refl refl (refl, tt) refl refl refl
