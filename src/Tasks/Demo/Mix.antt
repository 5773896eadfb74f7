-- ===== src/Tasks/Demo/Mix.antt =====
-- cmd/enqueue-demo/main.go and cmd/worker-demo/main.go: what the demo's worker decides of the jobs that
-- the demo's producer mixes.
use dist_tasks_go.Base.{
  ℕ, ◌<◌, ◌^◌, String, ◌≡◌, refl, ◌⊎◌, false, ◌&&◌, none, ℤ, pos, ◌+ℤ◌, ◌≤ℤ◌, ltb, ltb_ℤ, int64,
  str_eq, if◌then◌else◌, arith, inl, inr,
}
use dist_tasks_go.Queue.Job.{Job, other, ok, new_permanent_error}
use dist_tasks_go.Queue.Retry.{Floats, next_delay}
use dist_tasks_go.Queue.Backend.{Backend}
use dist_tasks_go.Queue.Worker.{Worker, Reason, failed_with, register}
use dist_tasks_go.Queue.Worker.Verdict.{Verdict, done, again, given_up, verdict}
use dist_tasks_go.Tasks.{demo, send_email, process_image, permanent_fail}
use dist_tasks_go.Tasks.Verdicts.{flaky_email-verdict}
use dist_tasks_go.Tasks.Demo.{
  Json, DemoPayload, of_email, of_image, of_nothing, pick_task, payload_for, to_json,
}

pick_cases :
    (r : ℕ)
    → (pick_task r ≡ "send_email")
      ⊎ ((pick_task r ≡ "process_image")
          ⊎ ((pick_task r ≡ "flaky_email") ⊎ (pick_task r ≡ "permanent_fail")))
unfolding pick_task
pick_cases r = ground arith

module _ (F : Floats) {S : Type 0} (B : Backend S) (text : Reason → String) (J : Json)
    (W : Worker F) where
  abbrev demo_worker : Worker F
  demo_worker = demo J.read_email J.read_image W

  -- JSON reads back the payload that it wrote.
  abbrev pub IsRead : DemoPayload → Type 0
  IsRead (of_email p) = J.read_email (J.email p) ≡ ok p
  IsRead (of_image p) = J.read_image (J.image p) ≡ ok p
  IsRead of_nothing = Unit {0}

  -- What becomes of a job of the mix at an attempt.
  abbrev pub expected : ℤ → String → ℕ → Verdict
  expected now task a =
      if str_eq task "permanent_fail"
      then given_up (failed_with (other "this task always fails"))
      else if str_eq task "flaky_email" && ltb a 2
      then again (now +ℤ next_delay F W.config.retry_policy (int64 (pos a +ℤ pos 1)))
      else done

  module _ (now : ℤ) (job : Job) (few : job.lease.token ≤ℤ W.config.max_deliveries) where
    few_enough : ltb_ℤ W.config.max_deliveries job.lease.token ≡ false
    few_enough = ground arith

    email-done :
        (ms : ℤ)
        → IsRead (payload_for "send_email" ms).0
        → job.task ≡ "send_email"
        → job.payload ≡ to_json J (payload_for "send_email" ms).0
        → verdict F B demo_worker text now none job ≡ done
    unfolding verdict demo register send_email to_json payload_for
    email-done ms reads known stored = rw (few_enough, known, stored, reads) refl

    image-done :
        (ms : ℤ)
        → IsRead (payload_for "process_image" ms).0
        → job.task ≡ "process_image"
        → job.payload ≡ to_json J (payload_for "process_image" ms).0
        → verdict F B demo_worker text now none job ≡ done
    unfolding verdict demo register process_image to_json payload_for
    image-done ms reads known stored = rw (few_enough, known, stored, reads) refl

    permanent-given_up :
        job.task ≡ "permanent_fail"
        → verdict F B demo_worker text now none job
          ≡ given_up (failed_with (other "this task always fails"))
    unfolding verdict demo register permanent_fail new_permanent_error
    permanent-given_up known = rw (few_enough, known) refl

    flaky-tried :
        (a : ℕ) (ms : ℤ)
        → a < 2 ^ 31
        → job.attempt ≡ pos a
        → job.task ≡ "flaky_email"
        → job.max_attempts ≡ (payload_for "flaky_email" ms).1
        → verdict F B demo_worker text now none job ≡ expected now "flaky_email" a
    unfolding payload_for
    flaky-tried a ms small at known most = ground (
      arith,
      flaky_email-verdict F B text J.read_email J.read_image W now job few a 5 known at most small,
    )

    -- For the demo's worker, a draw of the mix and a run of its job that is not cut off, with few
    -- enough deliveries and an attempt below 2^31, where JSON reads back the payload that it
    -- wrote: a job that fails permanently is given up at once, a flaky one is tried again on its
    -- first two attempts, and every other one is done, so that the maximum of attempts is never
    -- met.
    pub mix-expected :
        (r : ℕ) (ms : ℤ) (a : ℕ)
        → IsRead (payload_for (pick_task r) ms).0
        → a < 2 ^ 31
        → job.attempt ≡ pos a
        → job.task ≡ pick_task r
        → job.payload ≡ to_json J (payload_for (pick_task r) ms).0
        → job.max_attempts ≡ (payload_for (pick_task r) ms).1
        → verdict F B demo_worker text now none job ≡ expected now (pick_task r) a
    mix-expected r ms a reads small at known stored most = elim (pick_cases r) [
      | inl mail ↦ rw mail (email-done ms (rw mail at reads) (rw mail at known) (rw mail at stored))
      | inr other_task ↦ elim other_task [
        | inl image ↦
            rw image (image-done ms (rw image at reads) (rw image at known) (rw image at stored))
        | inr failing ↦ elim failing [
          | inl flaky ↦ rw flaky (flaky-tried a ms small at (rw flaky at known) (rw flaky at most))
          | inr fails ↦ rw fails (permanent-given_up (rw fails at known))
        ]
      ]
    ]
