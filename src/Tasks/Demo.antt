-- ===== src/Tasks/Demo.antt =====
-- cmd/enqueue-demo/main.go: the jobs that the demo's producer enqueues. The JSON of a payload is a
-- parameter, and so are the draws of rand.IntN.
pub mod Mix
use dist_tasks_go.Base.{
  ℕ, ◌+◌, ◌/◌, String, Option, none, some, ℤ, pos, ◌+ℤ◌, ltb, str_eq, if◌then◌else◌,
}
use dist_tasks_go.Queue.Job.{Result, ok, err}
use dist_tasks_go.Tasks.{EmailPayload, ImagePayload}

-- json.Marshal of the payloads, with the json.Unmarshal of the handlers.
pub record Json : Type 0 where
  pub email : EmailPayload → String
  pub image : ImagePayload → String
  pub read_email : String → Result EmailPayload
  pub read_image : String → Result ImagePayload

pub data DemoPayload : Type 0 where
  of_email : EmailPayload → DemoPayload
  of_image : ImagePayload → DemoPayload
  of_nothing : DemoPayload

-- pickTask, for a draw below 100.
unfoldable pub pick_task : ℕ → String
pick_task r =
    if ltb r 70
    then "send_email"
    else if ltb r 85
    then "process_image"
    else if ltb r 97
    then "flaky_email"
    else "permanent_fail"

-- The payload and the maximum of attempts.
unfoldable pub payload_for : String → ℤ → DemoPayload × ℤ
payload_for task ms =
    if str_eq task "process_image"
    then (
      of_image
          (record { image_id = "img-demo"; url = "https://example.com/demo.jpg"; latency_ms = ms }),
      pos 3,
    )
    else if str_eq task "permanent_fail"
    then (of_nothing, pos 1)
    else if str_eq task "flaky_email"
    then (
      of_email (record {
        to = "dev@example.com";
        subject = "Flaky email demo";
        body = "This job fails twice then succeeds.";
        latency_ms = ms;
      }),
      pos 5,
    )
    else (
      of_email (record {
        to = "dev@example.com";
        subject = "Distributed queue demo";
        body = "This job should eventually be handled by a worker.";
        latency_ms = ms;
      }),
      pos 3,
    )

-- The task and the latency of one job: those of the flags, or of the mix for `r` and a draw below
-- ms + 1.
unfoldable pub choose : String → ℕ → ℕ → ℕ → String × ℤ
unfolding pick_task
choose task ms r draw =
    if str_eq task "mix" then (pick_task r, pos (ms / 2 + draw)) else (task, pos ms)

abbrev pub env_or : String → String → String
env_or value fallback = if str_eq value "" then fallback else value

module _ (J : Json) where
  -- The JSON of map[string]any{} is that of no field.
  unfoldable pub to_json : DemoPayload → String
  to_json (of_email p) = J.email p
  to_json (of_image p) = J.image p
  to_json of_nothing = "{}"
