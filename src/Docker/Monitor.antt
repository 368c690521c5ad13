-- ===== src/Docker/Monitor.antt =====
-- docker-monitor.go: the two goroutines that watch a container, the `Wait` of its runner, and the
-- writer of its log. The texts of the log are lists of bytes. What the Docker client reports is the
-- choice of a step.
pub mod Lines
pub mod Statuses
pub mod Stranded
use cloudcompute.Base.{
  ℕ, zero, suc, ◌≡◌, List, [], ◌∷◌, ◌++◌, Bool, true, false, Option, none, some, cond, ◌==◌, length,
}
use cloudcompute.Docker.Queue.{JobStatus, running, succeeded, failed}

-- The error of `StdCopy`: none, `io.EOF`, or another.
pub data CopyEnd : Type 0 where
  copied reached_eof copy_failed : CopyEnd

-- The goroutine of `startLogMonitor`: at its copy, or ended.
pub data LogMonitor : Type 0 where
  copying : LogMonitor
  ended : CopyEnd → LogMonitor

-- The goroutine of `startContainerMonitor`: at its `select`; asleep, with the container's status
-- code; or ended, by an error or a nil one, or with that code.
pub data ContainerMonitor : Type 0 where
  watching wait_failed no_error : ContainerMonitor
  exited closed_behind : ℕ → ContainerMonitor

-- `terminated` is whether `Terminate` has run. `logreader_closed` is whether `logClosedOnce` has
-- run; the log monitor's `wg.Done` is its end.
pub record DockerRunMonitor : Type 0 where
  pub status : JobStatus
  pub log_monitor : LogMonitor
  pub container_monitor : ContainerMonitor
  pub logreader_closed : Bool
  pub terminated : Bool
  pub has_returned : Bool

-- The monitor that both goroutines are started for.
abbrev pub started : JobStatus → DockerRunMonitor
started status = record {
  status = status;
  log_monitor = copying;
  container_monitor = watching;
  logreader_closed = false;
  terminated = false;
  has_returned = false;
}

-- `NewDockerRunMonitor`, by whether the log opens: where it does not, the result is nil, and the
-- job has failed.
unfoldable pub new_docker_run_monitor : Bool → JobStatus → JobStatus × Option DockerRunMonitor
new_docker_run_monitor false status = (failed, none)
new_docker_run_monitor true status = (status, some (started status))

unfoldable pub close_log_reader : DockerRunMonitor → DockerRunMonitor
close_log_reader m = record m { logreader_closed = true }

-- The status that the log monitor writes at its end.
abbrev pub log_status : CopyEnd → JobStatus → JobStatus
log_status copied status = status
log_status reached_eof status = succeeded
log_status copy_failed status = failed

unfoldable pub end_log : CopyEnd → DockerRunMonitor → DockerRunMonitor
end_log end m = record m { log_monitor = ended end; status = log_status end m.status }

abbrev pub status_for : ℕ → JobStatus
status_for zero = succeeded
status_for (suc code) = failed

-- The container has stopped with a status code.
unfoldable pub container_exits : ℕ → DockerRunMonitor → DockerRunMonitor
container_exits code m = record m { container_monitor = exited code; status = status_for code }

-- The sleep behind it is over.
unfoldable pub container_closes : ℕ → DockerRunMonitor → DockerRunMonitor
unfolding close_log_reader
container_closes code m = close_log_reader (record m { container_monitor = closed_behind code })

-- The container cannot be inspected.
unfoldable pub container_fails : DockerRunMonitor → DockerRunMonitor
unfolding close_log_reader
container_fails m = close_log_reader (record m { container_monitor = wait_failed; status = failed })

-- `Wait`, once the log monitor has ended.
unfoldable pub wait : DockerRunMonitor → DockerRunMonitor
unfolding close_log_reader
wait m = record (close_log_reader m) { has_returned = true }

-- `DockerJobRunner.Terminate`, which writes to the same job.
unfoldable pub terminate : DockerRunMonitor → DockerRunMonitor
terminate m = record m { status = failed; terminated = true }

pub data Step (m : DockerRunMonitor) : DockerRunMonitor → Type 0 where
  log_ends : (end : CopyEnd) → m.log_monitor ≡ copying → Step m (end_log end m)
  exits : (code : ℕ) → m.container_monitor ≡ watching → Step m (container_exits code m)
  closes : (code : ℕ) → m.container_monitor ≡ exited code → Step m (container_closes code m)
  fails : m.container_monitor ≡ watching → Step m (container_fails m)
  -- The channel of errors gives nil.
  gives_up : m.container_monitor ≡ watching → Step m (record m { container_monitor = no_error })
  waits : (end : CopyEnd) → m.log_monitor ≡ ended end → m.has_returned ≡ false → Step m (wait m)
  terminates : Step m (terminate m)

pub data Reach (m : DockerRunMonitor) : DockerRunMonitor → Type 0 where
  here : Reach m m
  then : {a b : DockerRunMonitor} → Reach m a → Step a b → Reach m b

-- The texts that `Write` prints behind "JOB: <id>: ", each with a newline, and the number of bytes
-- that it returns; `line` are the bytes before.
unfoldable pub lines_from : List ℕ → List ℕ → List (List ℕ)
lines_from [] [] = []
lines_from (b ∷ line) [] = (b ∷ line) ∷ []
lines_from line (b ∷ p) =
    let next = lines_from [] p in
    let more = lines_from (line ++ b ∷ []) p in cond (b == 10) (line ∷ next) more

unfoldable pub write : List ℕ → List (List ℕ) × ℕ
unfolding lines_from
write p = (lines_from [] p, length p)
