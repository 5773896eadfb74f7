-- ===== src/Tasks/Verdicts.antt =====
-- examples/tasks with queue/worker.go: what a worker decides of the demo's jobs.
use dist_tasks_go.Base.{
  ℕ, ◌+◌, ◌<◌, ◌≤◌, ◌^◌, String, ◌≡◌, refl, ◌⊎◌, false, none, some, ℤ, pos, ◌+ℤ◌, ◌≤ℤ◌, ltb_ℤ,
  leb_ℤ, int64, signed64, word64, arith,
}
use dist_tasks_go.Queue.Job.{Job, other, Result, new_retryable_error, exhausted}
use dist_tasks_go.Queue.Retry.{Floats, next_delay}
use dist_tasks_go.Queue.Backend.{Backend}
use dist_tasks_go.Queue.Worker.{Worker, Reason, failed_with, register}
use dist_tasks_go.Queue.Worker.Verdict.{done, again, given_up, verdict}
use dist_tasks_go.Tasks.{EmailPayload, ImagePayload, flaky_email, demo}

module _ (F : Floats) {S : Type 0} (B : Backend S) (text : Reason → String)
    (read_email : String → Result EmailPayload) (read_image : String → Result ImagePayload)
    (W : Worker F) where
  abbrev demo_worker : Worker F
  demo_worker = demo read_email read_image W

  demo-flaky_email :
      (task : String) → task ≡ "flaky_email" → demo_worker.handlers task ≡ some flaky_email
  unfolding demo register
  demo-flaky_email task e = rw e refl

  demo-config : demo_worker.config ≡ W.config
  unfolding demo register
  demo-config = refl

  module _ (now : ℤ) (job : Job) (few : job.lease.token ≤ℤ W.config.max_deliveries) where
    few_enough : ltb_ℤ W.config.max_deliveries job.lease.token ≡ false
    few_enough = ground arith

    exhausted_lem :
        (a m : ℕ)
        → job.attempt ≡ pos a
        → job.max_attempts ≡ pos m
        → a < 2 ^ 31
        → exhausted job ≡ leb_ℤ (pos m) (pos (a + 1))
    unfolding exhausted int64 signed64 word64 ◌+ℤ◌
    exhausted_lem a m p q small = rw (p, q) (ground arith)

    -- The demo's worker, for a flaky job with few enough deliveries and an attempt below 2^31, whose
    -- run is not cut off: the first two attempts are retried, or given up where the maximum is
    -- reached, and a later one is done.
    pub flaky_email-verdict :
        (a m : ℕ)
        → job.task ≡ "flaky_email"
        → job.attempt ≡ pos a
        → job.max_attempts ≡ pos m
        → a < 2 ^ 31
        → let v = verdict F B demo_worker text now none job in
          ((2 ≤ a) × (v ≡ done))
          ⊎ (((a < 2)
                × (m ≤ a + 1)
                × (v ≡ given_up (failed_with (other "transient failure (demo)"))))
              ⊎ ((a < 2)
                  × (a + 1 < m)
                  × (v
                      ≡ again
                          (now +ℤ next_delay F W.config.retry_policy (int64 (pos a +ℤ pos 1))))))
    unfolding verdict flaky_email new_retryable_error
    flaky_email-verdict a m known at most small =
        rw (demo-config, few_enough, demo-flaky_email job.task known)
          (rw at (ground (arith, exhausted_lem a m at most small)))
