-- ===== src/Samples/Monitors.antt =====
-- A container whose log ends before its status is known, and a job that waits for it.
use cloudcompute.Base.{◌≡◌, refl, [], ◌∷◌, true, none, ℕ_discrete, String_discrete}
use cloudcompute.Docker.Queue.{running, pending, has_unfinished_dependencies}
use cloudcompute.Docker.Manager.{Manager, set_status, receive, finish, report}
use cloudcompute.Docker.Monitor.{
  DockerRunMonitor, started, end_log, wait, ended, copied, Reach, here, then, log_ends, waits,
}
use cloudcompute.Docker.Monitor.Statuses.{
  Explains, log_verdict, container_verdict, monitor-IsExplained,
}
use cloudcompute.Docker.Monitor.Stranded.{finished-strands}
use cloudcompute.Samples.Queues.{first, second}

abbrev early : DockerRunMonitor
early = wait (end_log copied (started running))

early-Reach : Reach (started running) early
unfolding end_log
early-Reach = then (then here (log_ends copied refl)) (waits copied refl refl)

monitor-IsExplained_example :
    Explains early.terminated running
      (log_verdict early.log_monitor)
      (container_verdict early.container_monitor)
      early.status
    × (early.has_returned ≡ true
        → (early.logreader_closed ≡ true) × ((end : _) × (early.log_monitor ≡ ended end)))
monitor-IsExplained_example = monitor-IsExplained running early early-Reach

abbrev busy : Manager
busy = record {
  queue = record first { status = running } ∷ record second { status = pending } ∷ [];
  events = 0;
  held = none;
  active = 1 ∷ [];
  concurrency = 1;
}

finished-strands_example :
    (let after = receive 0 (finish 1 (report 1 early.status busy)) in
      (after.queue ≡ set_status 1 running busy.queue)
      × (after.events ≡ 0)
      × (after.held ≡ none)
      × (after.active ≡ []))
unfolding end_log wait set_status has_unfinished_dependencies String_discrete ℕ_discrete
finished-strands_example =
    finished-strands early busy 1 early-Reach refl refl refl refl refl refl refl (tt, (refl, tt))
