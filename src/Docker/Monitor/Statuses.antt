-- ===== src/Docker/Monitor/Statuses.antt =====
-- The status that a monitor leaves its job with.
use mathlib.Core.Bool.{false≢true}
use cloudcompute.Base.{
  ℕ, cond, ◌==◌, inl, ◌≡◌, refl, Bool, true, false, Option, none, some, ◌⊎◌, arith,
}
use cloudcompute.Docker.Queue.{JobStatus, succeeded, failed}
use cloudcompute.Docker.Monitor.{
  CopyEnd, copied, reached_eof, copy_failed, LogMonitor, copying, ended, ContainerMonitor, watching,
  wait_failed, no_error, exited, closed_behind, DockerRunMonitor, started, close_log_reader,
  end_log, container_exits, container_closes, container_fails, wait, terminate, terminates, Step,
  log_ends, exits, closes, fails, gives_up, waits, Reach, here, then,
}

-- What each goroutine has written.
abbrev pub log_verdict : LogMonitor → Option JobStatus
log_verdict copying = none
log_verdict (ended copied) = none
log_verdict (ended reached_eof) = some succeeded
log_verdict (ended copy_failed) = some failed

abbrev pub verdict_of : ℕ → JobStatus
verdict_of code = cond (code == 0) succeeded failed

abbrev pub container_verdict : ContainerMonitor → Option JobStatus
container_verdict watching = none
container_verdict wait_failed = some failed
container_verdict no_error = none
container_verdict (exited code) = some (verdict_of code)
container_verdict (closed_behind code) = some (verdict_of code)

-- A status that one of the goroutines has written.
abbrev pub Wrote : Option JobStatus → Option JobStatus → JobStatus → Type 0
Wrote none none s = ⊥
Wrote none (some b) s = s ≡ b
Wrote (some a) none s = s ≡ a
Wrote (some a) (some b) s = (s ≡ a) ⊎ (s ≡ b)

-- A status is that of the start, one that a goroutine has written, or that of `Terminate`.
abbrev pub Explains : Bool → JobStatus → Option JobStatus → Option JobStatus → JobStatus → Type 0
Explains true start a b s = (s ≡ failed) ⊎ Wrote a b s
Explains false start none none s = s ≡ start
Explains false start (some a) b s = Wrote (some a) b s
Explains false start none (some b) s = s ≡ b

abbrev has_ended : LogMonitor → Bool
has_ended copying = false
has_ended (ended end) = true

record IsExplained (start : JobStatus) (m : DockerRunMonitor) : Type 0 where
  by_verdicts :
      Explains m.terminated start
        (log_verdict m.log_monitor)
        (container_verdict m.container_monitor)
        m.status
  closed : m.has_returned ≡ true → m.logreader_closed ≡ true
  log_ended : m.has_returned ≡ true → has_ended m.log_monitor ≡ true

Step-IsExplained :
    (start : JobStatus) (a b : DockerRunMonitor)
    → Step a b
    → IsExplained start a
    → IsExplained start b
unfolding close_log_reader end_log container_exits container_closes container_fails wait terminate
Step-IsExplained start a b (log_ends copied l) h = record {
  by_verdicts = ground (arith, h.by_verdicts, l);
  closed = h.closed;
  log_ended = λ r. refl;
}
Step-IsExplained start a b (log_ends reached_eof l) h = record {
  by_verdicts = ground (arith, h.by_verdicts, l);
  closed = h.closed;
  log_ended = λ r. refl;
}
Step-IsExplained start a b (log_ends copy_failed l) h = record {
  by_verdicts = ground (arith, h.by_verdicts, l);
  closed = h.closed;
  log_ended = λ r. refl;
}
Step-IsExplained start a b (exits code c) h = record {
  by_verdicts = ground (arith, h.by_verdicts, c);
  closed = h.closed;
  log_ended = h.log_ended;
}
Step-IsExplained start a b (closes code c) h = record {
  by_verdicts = ground (arith, h.by_verdicts, c);
  closed = λ r. refl;
  log_ended = h.log_ended;
}
Step-IsExplained start a b (fails c) h = record {
  by_verdicts = ground (arith, h.by_verdicts, c);
  closed = λ r. refl;
  log_ended = h.log_ended;
}
Step-IsExplained start a b (gives_up c) h = record {
  by_verdicts = ground (arith, h.by_verdicts, c);
  closed = h.closed;
  log_ended = h.log_ended;
}
Step-IsExplained start a b terminates h = record {
  by_verdicts = inl refl;
  closed = h.closed;
  log_ended = h.log_ended;
}
Step-IsExplained start a b (waits end l r) h = record {
  by_verdicts = h.by_verdicts;
  closed = λ r. refl;
  log_ended = λ r. ground (arith, l);
}

Reach-IsExplained :
    (start : JobStatus) (a b : DockerRunMonitor)
    → Reach a b
    → IsExplained start a
    → IsExplained start b
Reach-IsExplained start a b here h = h
Reach-IsExplained start a b (then {a = c} r step) h =
    Step-IsExplained start c b step (Reach-IsExplained start a c r h)

-- The status of a monitored job is what it was at the start, where nothing has written one, and
-- otherwise one that was written: the log monitor writes SUCCEEDED at the end of the log and FAILED
-- at another error, the container monitor SUCCEEDED where the container has exited with 0 and
-- FAILED where it has exited with another code or cannot be inspected, and `Terminate` FAILED; and
-- where `Wait` has returned, the log is closed and the log monitor has ended.
pub monitor-IsExplained :
    (start : JobStatus) (m : DockerRunMonitor)
    → Reach (started start) m
    → Explains m.terminated start
        (log_verdict m.log_monitor)
        (container_verdict m.container_monitor)
        m.status
      × (m.has_returned ≡ true
          → (m.logreader_closed ≡ true) × ((end : CopyEnd) × (m.log_monitor ≡ ended end)))
monitor-IsExplained start m r =
    let first : IsExplained start (started start) = record {
      by_verdicts = refl;
      closed = λ e. absurd (false≢true e);
      log_ended = λ e. absurd (false≢true e);
    } in
    let h = Reach-IsExplained start (started start) m r first in
    (h.by_verdicts, λ returned. (h.closed returned, ended-by m.log_monitor (h.log_ended returned)))
  where
    ended-by : (l : LogMonitor) → has_ended l ≡ true → (end : CopyEnd) × (l ≡ ended end)
    ended-by copying h = cc
    ended-by (ended end) h = (end, refl)
