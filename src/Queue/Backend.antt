-- ===== src/Queue/Backend.antt =====
-- queue/backend.go and queue/metrics.go: what a queue needs of a store, and what it reports.
use dist_tasks_go.Base.{String, Bool, Option, List, ℤ}
use dist_tasks_go.Queue.Job.{Job, Error, Result}

-- The methods of a backend over its state S. The optional ones are those that a backend may have:
-- EnqueueBatch, AckBatch and ExtendBatch. A method that returns a value beside its error has both.
pub record Backend (S : Type 0) : Type 0 where
  pub enqueue : Job → S → Result String × S
  pub enqueue_batch : Option (List Job → S → List String × Option Error × S)
  pub claim : String → ℤ → ℤ → S → List Job × Option Error × S
  pub recover_expired : ℤ → String → ℤ → S → List Job × Option Error × S
  pub extend : Job → S → Option Error × S
  pub extend_batch : Option (List Job → S → List (Option Error) × S)
  pub ack : Job → S → Option Error × S
  pub ack_batch : Option (List Job → S → List (Option Error) × S)
  pub retry : Job → ℤ → S → Option Error × S
  pub dead_letter : Job → String → S → Option Error × S

-- The calls of Metrics, and the outcomes set on spans.
pub data Event : Type 0 where
  job_enqueued job_started job_completed job_retried job_dead_lettered job_lease_lost : Job → Event
  job_failed : Job → Bool → Event
  outcome : String → Event

-- The backend's state and what has been reported, the newest first.
pub record World (S : Type 0) : Type 0 where
  pub backend : S
  pub events : List Event
