-- ===== src/Store/Fields/RoundTrip.antt =====
-- redisstream/store.go: jobFields and then parseJob.
use dist_tasks_go.Base.{String, ◌≡◌, true, int64, str_eq, if◌then◌else◌}
use dist_tasks_go.Queue.Job.{Job, Lease, ok}
use dist_tasks_go.Redis.{Redis, Fields}
use dist_tasks_go.Store.Fields.{Codec, lookup, in_years, job_fields, parse_job}

module _ {R : Redis} (C : Codec R) where
  -- A job whose numbers and times are those of an int and of the years 0 to 9999.
  pub record IsStorable (job : Job) : Type 0 where
    pub attempt_ok : int64 job.attempt ≡ job.attempt
    pub max_attempts_ok : int64 job.max_attempts ≡ job.max_attempts
    pub created_ok : in_years job.created_at ≡ true
    pub available_ok : in_years job.available_at ≡ true

  -- A job whose numbers are those of an int and whose times are in the years 0 to 9999 is read
  -- back from its fields, with the lease of the delivery, without its idempotency key, and with
  -- the ID of the message if it has none.
  pub parse-job_fields :
      (job : Job) (msg_id : String) (lease : Lease) (vals : Fields)
      → IsStorable job
      → ((k : String) → lookup k vals ≡ lookup k (job_fields C job))
      → parse_job C msg_id vals lease
        ≡ ok (record job {
          id = if str_eq job.id "" then msg_id else job.id;
          idempotency_key = "";
          lease = lease;
        })
  unfolding parse_job job_fields lookup
  parse-job_fields job msg_id lease vals ok_job same = rw (
    same "task",
    same "payload",
    same "attempt",
    same "maxAttempts",
    same "createdAt",
    same "availableAt",
    same "id",
    same "traceparent",
    C.atoi-itoa job.attempt ok_job.attempt_ok,
    C.atoi-itoa job.max_attempts ok_job.max_attempts_ok,
    C.parse-format job.created_at ok_job.created_ok,
    C.parse-format job.available_at ok_job.available_ok,
  )
