-- ===== src/Queue/Worker/Acks.antt =====
-- queue/worker.go: ack and ackLoop, as steps. Requests arrive at any time and wait in the channel in their
-- order; a round takes those that are there, at most 256, and `stop` is the closing of the stop channel,
-- which the loop may see while requests wait.
pub mod Answered
use dist_tasks_go.Base.{
  ℕ, Bool, true, false, Option, List, [], ◌∷◌, ◌++◌, if◌then◌else◌, take, drop,
}
use dist_tasks_go.Queue.Job.{Job, Error}
use dist_tasks_go.Queue.Worker.Batch.{max_batch, deliver}

-- `answers` are the requests whose `done` has been sent to, each with what was sent.
pub record AckLoop (S : Type 0) : Type 0 where
  pub waiting : List Job
  pub answers : List (Job × Option Error)
  pub stopped : Bool
  pub backend : S

pub data AckEvent : Type 0 where
  arrives : Job → AckEvent
  round stop : AckEvent

abbrev pub idle_loop : {S : Type 0} → S → AckLoop S
idle_loop s = record { waiting = []; answers = []; stopped = false; backend = s }

module _ {S : Type 0} (call : List Job → S → List (Option Error) × S) where
  -- A batch of at most 256, in the order of the requests; no call is made while none waits.
  unfoldable pub ack_batch_of : List Job → AckLoop S → AckLoop S
  unfolding deliver
  ack_batch_of [] t = t
  ack_batch_of (j ∷ js) t =
      let r = call (take max_batch (j ∷ js)) t.backend in
      record t {
        waiting = drop max_batch (j ∷ js);
        answers = t.answers ++ deliver (take max_batch (j ∷ js)) r.0;
        backend = r.1;
      }

  unfoldable pub step : AckEvent → AckLoop S → AckLoop S
  unfolding ack_batch_of
  step (arrives j) t = record t { waiting = t.waiting ++ j ∷ [] }
  step round t = if t.stopped then t else ack_batch_of t.waiting t
  step stop t = record t { stopped = true }

  unfoldable pub run : List AckEvent → AckLoop S → AckLoop S
  unfolding step
  run [] t = t
  run (e ∷ es) t = run es (step e t)
