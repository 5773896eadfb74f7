-- ===== src/Queue/Worker.antt =====
-- queue/worker.go: the configuration, and what a worker does with one job. Its ack is a call of the
-- backend here; the loop that gathers acks into batches is in Worker/Batch.
pub mod Fetch
pub mod Batch
pub mod Acks
pub mod Run
pub mod Outcome
pub mod Stats
pub mod Verdict
pub mod Reports
use dist_tasks_go.Base.{
  ℕ, suc, ◌*◌, ◌/◌, String, Bool, true, false, not, ◌||◌, Option, none, some, List, [], ◌∷◌, ℤ, pos,
  ◌+ℤ◌, leb_ℤ, ltb_ℤ, int64, floor_div, str_eq, if◌then◌else◌,
}
use dist_tasks_go.Queue.Job.{
  Job, JobResult, Error, unknown_task, invalid_job, wrapped, Result, ok, err, is_lease_lost,
  is_unknown_task,
}
use dist_tasks_go.Queue.Retry.{Floats, RetryPolicy, next_delay, should_dead_letter, second}
use dist_tasks_go.Queue.Backend.{
  Backend, World, Event, job_started, job_completed, job_failed, job_retried, job_dead_lettered,
  job_lease_lost, outcome,
}

-- Why a job is dead-lettered; the text is made by fmt.Sprintf, or is that of the handler's error.
pub data Reason : Type 0 where
  delivered_times : ℤ → Reason
  no_handler : String → ℤ → Reason
  failed_with : Error → Reason

abbrev pub HandlerFunc : Type 0
HandlerFunc = Job → JobResult

abbrev pub ms : ℕ
ms = 1_000_000

module _ (F : Floats) where
  pub record WorkerConfig : Type 0 where
    pub id : String
    pub concurrency : ℤ
    pub poll_interval : ℤ
    pub poll_only : Bool
    pub visibility_timeout : ℤ
    pub heartbeat_interval : ℤ
    pub shutdown_timeout : ℤ
    pub max_deliveries : ℤ
    pub stats_interval : ℤ
    pub retry_policy : RetryPolicy F

  pub record Worker : Type 0 where
    pub config : WorkerConfig
    pub handlers : String → Option HandlerFunc

  abbrev or_positive : ℤ → ℤ → ℤ
  or_positive z d = if leb_ℤ z (pos 0) then d else z

  -- DefaultRetryPolicy; `half` is 0.5.
  abbrev pub default_retry_policy : F.Float → RetryPolicy F
  default_retry_policy half = record {
    base_delay = pos second;
    max_delay = pos (30 * second);
    jitter = half;
  }

  -- A third and the like of a positive duration.
  unfoldable pub new_worker : F.Float → WorkerConfig → Worker
  new_worker half c =
      let visibility = or_positive c.visibility_timeout (pos (30 * second)) in
      record {
        config = record {
          id = c.id;
          concurrency = or_positive c.concurrency (pos 1);
          poll_interval = or_positive c.poll_interval (pos (250 * ms));
          poll_only = c.poll_only;
          visibility_timeout = visibility;
          heartbeat_interval = or_positive c.heartbeat_interval (floor_div visibility 3);
          shutdown_timeout = or_positive c.shutdown_timeout visibility;
          max_deliveries = or_positive c.max_deliveries (pos 5);
          stats_interval = or_positive c.stats_interval (pos (5 * second));
          retry_policy =
              if leb_ℤ c.retry_policy.base_delay (pos 0)
              then default_retry_policy half
              else c.retry_policy;
        };
        handlers = λ task. none;
      }

  -- A nil handler is `none`.
  unfoldable pub register : String → Option HandlerFunc → Worker → Option Error × Worker
  register task none w = (some invalid_job, w)
  register task (some h) w =
      if str_eq task ""
      then (some invalid_job, w)
      else (none, record w { handlers = λ t. if str_eq task t then some h else w.handlers t })

  module _ {S : Type 0} (B : Backend S) (W : Worker) (text : Reason → String) where
    open W use {config, handlers}

    reported : World S → Event → World S
    reported w e = record w { events = e ∷ w.events }

    -- A call that settles the job, and what is reported of it: `fine` if it went well.
    settled : Option Error × S → List Event → List Event → Option Error × World S
    settled (some e, s) es fine =
        (some e, record { backend = s; events = outcome "settle_failed" ∷ es })
    settled (none, s) es fine = (none, record { backend = s; events = fine })

    unfoldable pub dead_letter : Job → Reason → World S → Option Error × World S
    unfolding settled
    dead_letter job why w =
        settled (B.dead_letter job (text why) w.backend) w.events
          (outcome "dead_lettered" ∷ job_dead_lettered job ∷ w.events)

    complete : Job → World S → Option Error × World S
    unfolding settled
    complete job w =
        settled (B.ack job w.backend) w.events (outcome "completed" ∷ job_completed job ∷ w.events)

    retry_later : ℤ → Job → World S → Option Error × World S
    unfolding settled
    retry_later now job w =
        settled
          (B.retry job (now +ℤ next_delay F config.retry_policy (int64 (job.attempt +ℤ pos 1)))
            w.backend)
          w.events (outcome "retried" ∷ job_retried job ∷ w.events)

    -- A handler's error: try again later, or give up.
    failed : ℤ → Job → Bool → Error → World S → Option Error × World S
    unfolding reported dead_letter retry_later
    failed now job retryable e w =
        let w' = reported w (job_failed job retryable) in
        if not retryable || should_dead_letter job
        then dead_letter job (failed_with e) w'
        else retry_later now job w'

    finish : ℤ → Job → Bool → Option Error → World S → Option Error × World S
    unfolding complete failed
    finish now job retryable none w = complete job w
    finish now job retryable (some e) w = failed now job retryable e w

    -- `cause` is that of the job's context after the handler ran, if it was cancelled.
    ran : ℤ → Option Error → Job → JobResult → World S → Option Error × World S
    unfolding reported finish
    ran now (some cause) job res w = (some cause, reported w (outcome "abandoned"))
    ran now none job res w = finish now job res.retryable res.err w

    handle_with : ℤ → Option Error → Job → Option HandlerFunc → World S → Option Error × World S
    unfolding reported dead_letter ran
    handle_with now cause job none w =
        if leb_ℤ config.max_deliveries job.lease.token
        then dead_letter job (no_handler job.task job.lease.token) w
        else (some (wrapped job.task unknown_task), reported w (outcome "skipped"))
    handle_with now cause job (some h) w = ran now cause job (h job) (reported w (job_started job))

    unfoldable pub handle_one : ℤ → Option Error → Job → World S → Option Error × World S
    unfolding dead_letter handle_with
    handle_one now cause job w =
        if ltb_ℤ config.max_deliveries job.lease.token
        then dead_letter job (delivered_times job.lease.token) w
        else handle_with now cause job (handlers job.task) w

    -- JobLeaseLost is the one error of handle_one that is reported; the others are logged.
    observed : Job → Option Error × World S → World S
    unfolding reported
    observed job (none, w) = w
    observed job (some e, w) = if is_lease_lost e then reported w (job_lease_lost job) else w

    unfoldable pub process : ℤ → Option Error → Job → World S → World S
    unfolding observed handle_one
    process now cause job w = observed job (handle_one now cause job w)
