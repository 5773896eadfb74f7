-- ===== src/Queue/Worker/Outcome.antt =====
-- queue/worker.go: handleOne, branch by branch.
use dist_tasks_go.Base.{
  String, ◌≡◌, refl, true, false, not, ◌||◌, Option, none, some, ℤ, pos, ◌<ℤ◌, ◌≤ℤ◌, ◌+ℤ◌, ltb_ℤ,
  int64, arith,
}
use dist_tasks_go.Queue.Job.{Job, Error, unknown_task, wrapped, exhausted}
use dist_tasks_go.Queue.Retry.{Floats, next_delay, should_dead_letter}
use dist_tasks_go.Queue.Backend.{Backend, World}
use dist_tasks_go.Queue.Worker.{
  Worker, Reason, delivered_times, no_handler, failed_with, HandlerFunc, handle_one, dead_letter,
}

module _ (F : Floats) {S : Type 0} (B : Backend S) (W : Worker F) (text : Reason → String) where
  -- A job whose deliveries are more than the maximum is dead-lettered, and no handler is started
  -- for it.
  handle_one-poison :
      (now : ℤ) (cause : Option Error) (job : Job) (w : World S)
      → W.config.max_deliveries <ℤ job.lease.token
      → handle_one F B W text now cause job w
        ≡ dead_letter F B W text job (delivered_times job.lease.token) w
  unfolding handle_one
  handle_one-poison now cause job w h = ground arith

  abbrev Acks : Job → World S → Option Error × World S → Type 0
  Acks job w r = (r.0 ≡ (B.ack job w.backend).0) × (r.1.backend ≡ (B.ack job w.backend).1)

  abbrev DeadLetters : Job → Reason → World S → Option Error × World S → Type 0
  DeadLetters job why w r =
      (r.0 ≡ (B.dead_letter job (text why) w.backend).0)
      × (r.1.backend ≡ (B.dead_letter job (text why) w.backend).1)

  abbrev Retries : ℤ → Job → World S → Option Error × World S → Type 0
  Retries at job w r =
      (r.0 ≡ (B.retry job at w.backend).0) × (r.1.backend ≡ (B.retry job at w.backend).1)

  -- A run that is not cut off: few enough deliveries, a handler, and a context that is alive.
  module _ (now : ℤ) (job : Job) (h : HandlerFunc) (w : World S)
      (few : job.lease.token ≤ℤ W.config.max_deliveries)
      (known : W.handlers job.task ≡ some h) where
    few_enough : ltb_ℤ W.config.max_deliveries job.lease.token ≡ false
    few_enough = ground arith

    -- A job with a handler and few enough deliveries, whose handler succeeds, is acknowledged
    -- once, and with no other call of the backend.
    handle_one-success : (h job).err ≡ none → Acks job w (handle_one F B W text now none job w)
    unfolding handle_one
    handle_one-success e = rw (few_enough, known) (rw e (ground arith))

    -- A job with a handler and few enough deliveries, whose handler fails for good or on the last
    -- attempt, is dead-lettered once, with the handler's error as the reason, and with no other
    -- call of the backend.
    handle_one-final :
        {e : Error}
        → (h job).err ≡ some e
        → not (h job).retryable || exhausted job ≡ true
        → DeadLetters job (failed_with e) w (handle_one F B W text now none job w)
    unfolding handle_one should_dead_letter
    handle_one-final failed last = rw (few_enough, known) (rw failed (rw last (ground arith)))

    -- A job with a handler and few enough deliveries, whose handler fails in a retryable way
    -- before the last attempt, is retried once, after the delay of the next attempt, and with no
    -- other call of the backend.
    handle_one-retry :
        {e : Error}
        → (h job).err ≡ some e
        → not (h job).retryable || exhausted job ≡ false
        → Retries
            (now +ℤ next_delay F W.config.retry_policy (int64 (job.attempt +ℤ pos 1)))
            job
            w
            (handle_one F B W text now none job w)
    unfolding handle_one should_dead_letter
    handle_one-retry failed again = rw (few_enough, known) (rw failed (rw again (ground arith)))

    -- A job with a handler and few enough deliveries, whose run is cut off: the cause is the
    -- answer, and the backend is as before, whatever the handler returned.
    handle_one-cancelled :
        (cause : Error)
        → let r = handle_one F B W text now (some cause) job w in
          (r.0 ≡ some cause) × (r.1.backend ≡ w.backend)
    unfolding handle_one
    handle_one-cancelled cause = rw (few_enough, known) (refl, refl)

  -- A job without a handler here and with fewer deliveries than the maximum answers with an
  -- unknown task and leaves the backend as it is, so that the job stays leased.
  handle_one-unknown :
      (now : ℤ) (cause : Option Error) (job : Job) (w : World S)
      → W.handlers job.task ≡ none
      → job.lease.token <ℤ W.config.max_deliveries
      → let r = handle_one F B W text now cause job w in
        (r.0 ≡ some (wrapped job.task unknown_task)) × (r.1.backend ≡ w.backend)
  unfolding handle_one
  handle_one-unknown now cause job w none_here few = rw none_here (ground arith)

  -- A job without a handler here is dead-lettered at its last allowed delivery, with no other
  -- call of the backend.
  handle_one-unknown_last :
      (now : ℤ) (cause : Option Error) (job : Job) (w : World S)
      → W.handlers job.task ≡ none
      → job.lease.token ≡ W.config.max_deliveries
      → DeadLetters job
          (no_handler job.task job.lease.token)
          w
          (handle_one F B W text now cause job w)
  unfolding handle_one dead_letter
  handle_one-unknown_last now cause job w none_here last = rw none_here (ground arith)
