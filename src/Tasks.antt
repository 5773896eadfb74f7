-- ===== src/Tasks.antt =====
-- examples/tasks: the handlers of the demo. Reading a payload's JSON is a parameter; their waiting and
-- their logging are left out.
pub mod Verdicts
pub mod Demo
use dist_tasks_go.Base.{
  String, Bool, true, false, Option, none, some, ℤ, pos, ltb_ℤ, str_eq, if◌then◌else◌,
}
use dist_tasks_go.Queue.Job.{
  Job, JobResult, Error, other, Result, ok, err, new_retryable_error, new_permanent_error,
}
use dist_tasks_go.Queue.Retry.{Floats}
use dist_tasks_go.Queue.Worker.{Worker, register}

pub record EmailPayload : Type 0 where
  pub to : String
  pub subject : String
  pub body : String
  pub latency_ms : ℤ

pub record ImagePayload : Type 0 where
  pub image_id : String
  pub url : String
  pub latency_ms : ℤ

abbrev pub success : JobResult
success = record { retryable = false; err = none }

sent : Result EmailPayload → JobResult
sent (err e) = new_permanent_error e
sent (ok p) =
    if str_eq p.to "" then new_permanent_error (other "email recipient is required") else success

unfoldable pub send_email : (String → Result EmailPayload) → Job → JobResult
unfolding sent
send_email decode job = sent (decode job.payload)

processed : Result ImagePayload → JobResult
processed (err e) = new_permanent_error e
processed (ok p) =
    if str_eq p.image_id "" then new_permanent_error (other "image id is required") else success

unfoldable pub process_image : (String → Result ImagePayload) → Job → JobResult
unfolding processed
process_image decode job = processed (decode job.payload)

unfoldable pub permanent_fail : Job → JobResult
permanent_fail job = new_permanent_error (other "this task always fails")

abbrev pub succeed_on_attempt : ℤ
succeed_on_attempt = pos 2

unfoldable pub flaky_email : Job → JobResult
flaky_email job =
    if ltb_ℤ job.attempt succeed_on_attempt
    then new_retryable_error (other "transient failure (demo)")
    else success

-- cmd/worker-demo/main.go: the tasks that the demo's worker registers; an error is logged only.
module _ {F : Floats} (read_email : String → Result EmailPayload)
    (read_image : String → Result ImagePayload) where
  unfoldable pub demo : Worker F → Worker F
  unfolding register
  demo w0 =
      let (_, w1) = register F "send_email" (some (send_email read_email)) w0 in
      let (_, w2) = register F "process_image" (some (process_image read_image)) w1 in
      let (_, w3) = register F "permanent_fail" (some permanent_fail) w2 in
      let (_, w4) = register F "flaky_email" (some flaky_email) w3 in w4
