-- ===== src/Store/Enqueue.antt =====
-- redisstream/store.go: Enqueue, EnqueueBatch and the schedule.
pub mod Batch
use Prim.Native.String.{◌++◌ as append}
use dist_tasks_go.Base.{
  ℕ, zero, suc, String, Bool, true, false, not, ◌&&◌, Option, none, some, List, [], ◌∷◌, ℤ, pos,
  ltb_ℤ, eq_ℤ, str_eq, if◌then◌else◌, map,
}
use dist_tasks_go.Queue.Job.{Job, Error, other, Result, ok, err}
use dist_tasks_go.Redis.{Redis, Fields, xadd, hset, zadd}
use dist_tasks_go.Redis.Script.{Script, ◌>>=◌, ◌>>◌, pure, write}
use dist_tasks_go.Store.Scripts.{enqueue_once_script}
use dist_tasks_go.Store.Fields.{Codec, job_fields}
use dist_tasks_go.Store.Client.{Net, Store, call, unix_milli, milliseconds}

-- A job with no ID gets a fresh one.
abbrev pub with_id : String → Job → Job
with_id fresh job = if str_eq job.id "" then record job { id = fresh } else job

-- The run-at of a job for the schedule, or 0 for a job that is due.
abbrev pub run_at : ℤ → Job → ℤ
run_at now job = if ltb_ℤ now job.available_at then unix_milli job.available_at else pos 0

abbrev pub with_ids : List (String × Job) → List Job
with_ids [] = []
with_ids ((fresh, job) ∷ jobs) = with_id fresh job ∷ with_ids jobs

abbrev both : Option String → Option (List String) → Option (List String)
both none ids = none
both (some id) none = none
both (some id) (some ids) = some (id ∷ ids)

module _ {R : Redis} (C : Codec R) (b : Store) where
  open R use {Db, exec}
  open b use {config, retry_data}

  -- The transaction of `schedule`.
  unfoldable pub schedule_tx : Job → ℤ → Script Db String
  schedule_tx job at = do
    write (exec (hset retry_data job.id (C.marshal (job_fields C job))))
    write (exec (zadd config.retry_key (unix_milli at) job.id))
    pure job.id

  unfoldable pub add_now : Job → Script Db String
  add_now job = do write (exec (xadd config.stream (job_fields C job))); pure job.id

  unfoldable pub enqueue_once : ℤ → Job → Script Db String
  enqueue_once now job =
      enqueue_once_script R (append config.dedupe_prefix job.idempotency_key) config.stream
        config.retry_key retry_data job.id (milliseconds config.dedupe_window) (run_at now job)
        (C.marshal (job_fields C job))

  -- Enqueue, up to its call; the ID is the result of the call.
  unfoldable pub enqueue_script : ℤ → Job → Script Db String
  unfolding schedule_tx add_now enqueue_once
  enqueue_script now job =
      if not (str_eq job.idempotency_key "")
      then enqueue_once now job
      else if ltb_ℤ now job.available_at
      then schedule_tx job job.available_at
      else add_now job

  unfoldable pub enqueue : Net → ℤ → String → Job → Db → Result String × Db
  unfolding call enqueue_script
  enqueue net now fresh job = call net (enqueue_script now (with_id fresh job))

  -- One job of the transaction of EnqueueBatch. A script of the transaction that fails does not stop
  -- the rest; an answer of `none` is its error.
  unfoldable pub batch_item : ℤ → Job → Db → Option String × Db
  unfolding add_now enqueue_once
  batch_item now job =
      if str_eq job.idempotency_key "" && eq_ℤ (run_at now job) (pos 0)
      then add_now job
      else if not (str_eq job.idempotency_key "")
      then enqueue_once now job
      else do
        write (exec (hset retry_data job.id (C.marshal (job_fields C job))))
        write (exec (zadd config.retry_key (run_at now job) job.id))
        pure job.id

  unfoldable pub batch_tx : ℤ → List Job → Script Db (List String)
  unfolding batch_item
  batch_tx now [] d = pure [] d
  batch_tx now (job ∷ jobs) d =
      let first = batch_item now job d in
      let rest = batch_tx now jobs first.1 in (both first.0 rest.0, rest.1)

  -- Each job comes with the fresh ID that it gets if it has none.
  unfoldable pub enqueue_batch : Net → ℤ → List (String × Job) → Db → Result (List String) × Db
  unfolding call batch_tx
  enqueue_batch net now jobs = call net (batch_tx now (with_ids jobs))
