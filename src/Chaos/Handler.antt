-- ===== src/Chaos/Handler.antt =====
-- cmd/chaos/main.go: the handler of a chaos worker, which begins a run downstream, records it in the
-- ledger, and applies its effect. json.Unmarshal and the text of a number are a parameter, and so is
-- the network at each of the three calls. The ledger is a list of Redis.
pub mod Effects
use dist_tasks_go.Base.{
  ℕ, String, ◌≡◌, refl, ◌⊎◌, inl, inr, Bool, true, false, Option, none, some, List, [], ◌∷◌, ◌++◌,
  ℤ, pos, arith, str_eq, eq_refl, if◌then◌else◌, Bool-cases, Option-cases,
}
use dist_tasks_go.Queue.Job.{
  Job, JobResult, Error, other, Result, ok, err, new_retryable_error, new_permanent_error,
}
use dist_tasks_go.Redis.{Redis, is_some}
use dist_tasks_go.Store.Client.{Net, delivered, refused, lost, call}
use dist_tasks_go.Downstream.{Counters, Keys, Outcome, fenced, deduped, applied, begin, apply}

pub record Payload : Type 0 where
  pub n : ℤ
  pub latency_ms : ℤ
  pub permanent : Bool

-- A ledger entry: the payload's number, the times in microseconds, and the worker.
pub record Entry : Type 0 where
  pub n : ℤ
  pub start : ℤ
  pub end : ℤ
  pub worker : String

module _ {R : Redis} (N : Counters R) (keys : Keys) (decode : String → Result Payload)
    (text : ℤ → String) where
  open R use {Db}

  pub record Chaos : Type 0 where
    pub db : Db
    pub ledger : List Entry

  -- RPUSH.
  unfoldable pub push : Net → Entry → Chaos → Option Error × Chaos
  push delivered e s = (none, record s { ledger = s.ledger ++ e ∷ [] })
  push (refused x) e s = (some x, s)
  push (lost x) e s = (some x, record s { ledger = s.ledger ++ e ∷ [] })

  -- What the handler answers to the outcome of apply.
  unfoldable pub finish : Result Outcome → JobResult
  finish (err e) = new_retryable_error e
  finish (ok fenced) = new_retryable_error (other "side effect rejected: superseded run")
  finish (ok deduped) = record { retryable = false; err = none }
  finish (ok applied) = record { retryable = false; err = none }

  apply_effect : Net → Job → Payload → Option Error × Chaos → JobResult × Chaos
  unfolding finish call
  apply_effect net job p (some e, s) = (new_retryable_error e, s)
  apply_effect net job p (none, s) =
      let r = call net (apply N keys job (text p.n)) s.db in (finish r.0, record s { db = r.1 })

  -- From the end of the latency on. `cut` is the error of the job's context if it ended the wait, and
  -- `unlucky` the draw against the failure rate.
  after_wait : Net → Net → Option Error → Bool → Entry → Job → Payload → Chaos → JobResult × Chaos
  unfolding push apply_effect
  after_wait pushing applying (some e) unlucky entry job p s = (new_retryable_error e, s)
  after_wait pushing applying none unlucky entry job p s =
      if p.permanent
      then (new_permanent_error (other "permanent failure (chaos)"), s)
      else if unlucky
      then (new_retryable_error (other "transient failure (chaos)"), s)
      else apply_effect applying job p (push pushing entry s)

  begun : (Chaos → JobResult × Chaos) → Result Bool → Chaos → JobResult × Chaos
  begun rest (err e) s = (new_retryable_error (other "superseded run (ok=false)"), s)
  begun rest (ok false) s = (new_retryable_error (other "superseded run (ok=false)"), s)
  begun rest (ok true) s = rest s

  -- `started` and `ended` are the readings of the clock.
  handle_payload :
      Net
      → Net
      → Net
      → Option Error
      → Bool
      → ℤ
      → ℤ
      → String
      → Job
      → Result Payload
      → Chaos
      → JobResult × Chaos
  unfolding begun after_wait call
  handle_payload beginning pushing applying cut unlucky started ended worker job (err e) s =
      (new_permanent_error e, s)
  handle_payload beginning pushing applying cut unlucky started ended worker job (ok p) s =
      let r = call beginning (begin N keys job) s.db in
      let entry : Entry = record { n = p.n; start = started; end = ended; worker = worker } in
      begun (after_wait pushing applying cut unlucky entry job p) r.0 (record s { db = r.1 })

  unfoldable pub handler :
      Net → Net → Net → Option Error → Bool → ℤ → ℤ → String → Job → Chaos → JobResult × Chaos
  unfolding handle_payload
  handler beginning pushing applying cut unlucky started ended worker job s =
      handle_payload beginning pushing applying cut unlucky started ended worker job
        (decode job.payload) s
