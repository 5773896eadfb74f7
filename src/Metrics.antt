-- ===== src/Metrics.antt =====
-- prommetrics/metrics.go: counters, observations, and the table of start times. The time that a callback
-- reads from the clock is an argument. Prometheus itself is left out: a counter is a number for each
-- label that has a series, a histogram the list of what it observed, in nanoseconds.
pub mod Sweep
use dist_tasks_go.Base.{
  ℕ, suc, ◌*◌, String, Bool, true, false, ◌&&◌, Option, none, some, List, [], ◌∷◌, ℤ, pos, ◌-ℤ◌,
  ltb_ℤ, eq_ℤ, int64, str_eq, if◌then◌else◌,
}
use dist_tasks_go.Queue.Job.{Job}
use dist_tasks_go.Queue.Retry.{second}
use dist_tasks_go.Queue.Backend.{
  Event, job_enqueued, job_started, job_completed, job_failed, job_retried, job_dead_lettered,
  job_lease_lost, outcome,
}
use dist_tasks_go.Store.Claim.{Stats}

-- A counter by task, `none` before its series exists.
abbrev pub Counter : Type 0
Counter = String → Option ℕ

pub record Metrics : Type 0 where
  pub enqueued : Counter
  pub started : Counter
  pub completed : Counter
  pub failed : Bool → Counter
  pub retried : Counter
  pub dead_lettered : Counter
  pub lease_lost : Counter
  pub duration : List (String × ℤ)
  pub pickup : List (String × ℤ)
  pub end_to_end : List (String × ℤ)
  pub gauges : Option Stats
  -- By job ID and message ID.
  pub start_times : String → String → Option ℤ
  pub stale_after : ℤ
  pub sweep_every : ℤ
  pub last_sweep : ℤ
  pub initialized : String → Bool

-- The series of a label, made at zero if it is not there; and an increment.
abbrev pub or_zero : Option ℕ → Option ℕ
or_zero none = some 0
or_zero (some n) = some n

abbrev pub plus_one : Option ℕ → Option ℕ
plus_one none = some 1
plus_one (some n) = some (suc n)

abbrev pub at_task : String → (Option ℕ → Option ℕ) → Counter → Counter
at_task task f c t = if str_eq task t then f (c t) else c t

unfoldable pub new_metrics : ℤ → Metrics
new_metrics now = record {
  enqueued = λ t. none;
  started = λ t. none;
  completed = λ t. none;
  failed = λ r t. none;
  retried = λ t. none;
  dead_lettered = λ t. none;
  lease_lost = λ t. none;
  duration = [];
  pickup = [];
  end_to_end = [];
  gauges = none;
  start_times = λ i m. none;
  stale_after = pos (3600 * second);
  sweep_every = pos (60 * second);
  last_sweep = now;
  initialized = λ t. false;
}

unfoldable pub init_task : String → Metrics → Metrics
init_task task m = if m.initialized task then m else record m {
  initialized = λ t. if str_eq task t then true else m.initialized t;
  completed = at_task task or_zero m.completed;
  failed = λ r. at_task task or_zero (m.failed r);
  retried = at_task task or_zero m.retried;
  dead_lettered = at_task task or_zero m.dead_lettered;
  lease_lost = at_task task or_zero m.lease_lost;
}

abbrev pub unless_stale : ℤ → ℤ → Option ℤ → Option ℤ
unless_stale now stale none = none
unless_stale now stale (some t) = if ltb_ℤ stale (now -ℤ t) then none else some t

unfoldable pub sweep_stale : ℤ → Metrics → Metrics
sweep_stale now m = if ltb_ℤ (int64 (now -ℤ m.last_sweep)) m.sweep_every then m else record m {
  last_sweep = now;
  start_times = λ i s. unless_stale now m.stale_after (m.start_times i s);
}

abbrev pub set_start : Job → Option ℤ → (String → String → Option ℤ) → String → String → Option ℤ
set_start job v f i s = if str_eq job.id i && str_eq job.lease.message_id s then v else f i s

-- LoadAndDelete, and the observation of what was there.
abbrev pub since : ℤ → String → Option ℤ → List (String × ℤ) → List (String × ℤ)
since now task none seen = seen
since now task (some t) seen = (task, now -ℤ t) ∷ seen

unfoldable pub end_run : ℤ → Job → Metrics → Metrics
end_run now job m = record m {
  duration = since now job.task (m.start_times job.id job.lease.message_id) m.duration;
  start_times = set_start job none m.start_times;
}

abbrev same : Bool → Bool → Bool
same true b = b
same false true = false
same false false = true

-- The callbacks of queue.Metrics. `later` is the second reading of the clock in a callback.
unfoldable pub on_started : ℤ → ℤ → Job → Metrics → Metrics
unfolding init_task sweep_stale
on_started now later job m =
    let s = sweep_stale now (record (init_task job.task m) {
      start_times = set_start job (some now) (init_task job.task m).start_times;
    }) in
    let first = eq_ℤ job.attempt (pos 0) && eq_ℤ job.lease.token (pos 1) in
    record s {
      pickup = if first then (job.task, later -ℤ job.available_at) ∷ s.pickup else s.pickup;
      started = at_task job.task plus_one s.started;
    }

unfoldable pub on_completed : ℤ → ℤ → Job → Metrics → Metrics
unfolding end_run
on_completed now later job m =
    let s = end_run now job m in
    record s {
      completed = at_task job.task plus_one s.completed;
      end_to_end = (job.task, later -ℤ job.created_at) ∷ s.end_to_end;
    }

unfoldable pub on_lease_lost : Job → Metrics → Metrics
on_lease_lost job m = record m {
  start_times = set_start job none m.start_times;
  lease_lost = at_task job.task plus_one m.lease_lost;
}

unfoldable pub observe : ℤ → ℤ → Event → Metrics → Metrics
unfolding on_started on_completed on_lease_lost end_run
observe now later (job_enqueued job) m = record m {
  enqueued = at_task job.task plus_one m.enqueued;
}
observe now later (job_started job) m = on_started now later job m
observe now later (job_completed job) m = on_completed now later job m
observe now later (job_failed job retryable) m = record m {
  failed = λ r. if same r retryable then at_task job.task plus_one (m.failed r) else m.failed r;
}
observe now later (job_retried job) m =
    let s = end_run now job m in record s { retried = at_task job.task plus_one s.retried }
observe now later (job_dead_lettered job) m =
    let s = end_run now job m in
    record s { dead_lettered = at_task job.task plus_one s.dead_lettered }
observe now later (job_lease_lost job) m = on_lease_lost job m
observe now later (outcome o) m = m

unfoldable pub stats_observed : Stats → Metrics → Metrics
stats_observed st m = record m { gauges = some st }

-- All that was reported, the newest first, at one time.
unfoldable pub observe_all : ℤ → List Event → Metrics → Metrics
unfolding observe
observe_all now [] m = m
observe_all now (e ∷ es) m = observe now now e (observe_all now es m)
