-- ===== src/Tests/StoreRuns.antt =====
-- The methods of the store at concrete inputs.
use dist_tasks_go.Base.{
  str_eq, if◌then◌else◌, List, ◌++◌, ◌+ℤ◌, length, ◌≡◌, refl, none, [], ◌∷◌, pos, arith, int64,
}
use dist_tasks_go.Queue.Job.{other, Job, ok, no_lease}
use dist_tasks_go.Redis.{Entry, entry}
use dist_tasks_go.Memory.{MemDb, mem_due, pick_due, mem_exec}
use dist_tasks_go.Memory.Server.{mem_redis}
use dist_tasks_go.Store.Scripts.Promotion.{IsJson}
use dist_tasks_go.Store.Claim.{promote_retries}
use dist_tasks_go.Store.Claim.Return.{Any, Returns, retried_job-Returns}
use dist_tasks_go.Memory.Tools.{mem_codec, empty_db}
use dist_tasks_go.Store.Scripts.{owns, retry_script}
use dist_tasks_go.Store.Fields.{job_fields, parse_job}
use dist_tasks_go.Store.Fields.RoundTrip.{IsStorable, parse-job_fields}
use dist_tasks_go.Store.Client.{
  delivered, lost, unix_milli, retried, ack, extend, retry, ack_batch, extend_batch,
}
use dist_tasks_go.Store.Client.Settle.{each_job, batch-each_job}
use dist_tasks_go.Store.Enqueue.{enqueue_script, batch_tx}
use dist_tasks_go.Store.Enqueue.Batch.{one_by_one, batch_tx-one_by_one}
use dist_tasks_go.Store.Scripts.Stays.{Stays}
use dist_tasks_go.Store.Actions.{Action, enqueues, claims, recovers, extends, acks_batch, act_all}
use dist_tasks_go.Store.Actions.Unsettled.{act_all-Stays}
use dist_tasks_go.Tests.Setup.{mail, mail_again, shop, delivered_db}

-- A run whose delivery was taken over since: its token is old.
abbrev mail_lost : Job
mail_lost = record mail {
  lease = record { message_id = "1"; owner = "u"; token = pos 1; partition = pos 0 };
}

batch-each_job_example :
    (ack_batch mem_codec shop delivered (mail ∷ mail_lost ∷ []) delivered_db
      ≡ each_job mem_codec shop (ack mem_codec shop delivered) (mail ∷ mail_lost ∷ []) delivered_db)
    × (extend_batch mem_codec shop delivered (mail ∷ mail_lost ∷ []) delivered_db
        ≡ each_job mem_codec shop
            (extend mem_codec shop delivered)
            (mail ∷ mail_lost ∷ [])
            delivered_db)
batch-each_job_example = batch-each_job mem_codec shop (mail ∷ mail_lost ∷ []) delivered_db

batch_tx-one_by_one_example :
    batch_tx mem_codec shop (pos 2_000_000) (mail ∷ mail_again ∷ []) empty_db
    ≡ one_by_one mem_codec shop
        (enqueue_script mem_codec shop (pos 2_000_000))
        (mail ∷ mail_again ∷ [])
        empty_db
batch_tx-one_by_one_example =
    batch_tx-one_by_one mem_codec shop (pos 2_000_000) (mail ∷ mail_again ∷ []) empty_db
      (omega arith)

mail-IsStorable : IsStorable mem_codec mail
unfolding int64
mail-IsStorable = record {
  attempt_ok = refl;
  max_attempts_ok = refl;
  created_ok = refl;
  available_ok = refl;
}

parse-job_fields_example :
    parse_job mem_codec "5" (job_fields mem_codec mail) no_lease
    ≡ ok (record mail { id = "7"; idempotency_key = ""; lease = no_lease })
parse-job_fields_example =
    parse-job_fields mem_codec mail "5" no_lease (job_fields mem_codec mail) mail-IsStorable
      (λ k. refl)

-- The database after the retry of job 7.
abbrev retried_db : MemDb
retried_db = (retry mem_codec shop delivered mail (pos 9) delivered_db).1

again_due : mem_due retried_db "z" (unix_milli (pos 9_000_000)) (pos 100) ≡ "7" ∷ []
unfolding mem_due pick_due retry retry_script owns mem_exec
again_due = refl

retried-IsJson : IsJson mem_redis "z" "h" "s" (retried_db.hashes "h" "7")
unfolding retry retry_script owns mem_exec
retried-IsJson =
    let (f, decodes, same) =
      mem_codec.decode-marshal (job_fields mem_codec (retried mem_codec shop mail)) in
    (f, decodes)

retried-IsStorable : IsStorable mem_codec (retried mem_codec shop mail)
unfolding int64 retried ◌+ℤ◌
retried-IsStorable = record {
  attempt_ok = refl;
  max_attempts_ok = refl;
  created_ok = refl;
  available_ok = refl;
}

retried_job-Returns_example :
    (e : MemDb) × (promote_retries mem_codec shop delivered (pos 9_000_000) (pos 100) retried_db
      ≡ (ok (length (mem_due retried_db "z" (unix_milli (pos 9_000_000)) (pos 100))), e))
    × (e.scores "z" "7" ≡ none)
    × (added : List Entry) × (e.streams "s" ≡ retried_db.streams "s" ++ added)
    × Any (Returns mem_codec shop mail) added
retried_job-Returns_example =
    retried_job-Returns mem_codec shop mail (pos 9) (pos 9_000_000) delivered_db
      (unfold owns in refl) refl retried-IsStorable (rw again_due refl)
      (rw again_due (retried-IsJson, tt))

-- Job 7 in the stream as it was stored.
abbrev stored_db : MemDb
stored_db = record delivered_db {
  streams = λ k. if str_eq k "s" then ("1", job_fields mem_codec mail) ∷ [] else [];
}

-- Another job, with an entry of its own.
abbrev mail_two : Job
mail_two = record mail { lease = record mail.lease { message_id = "2" } }

abbrev calls : List Action
calls =
    claims delivered (λ id. delivered) (pos 5_000_000) "v" (pos 2)
    ∷ recovers "0-0" (pos 0) (lost (other "EOF")) delivered (λ id. delivered) (pos 8)
        (pos 5_000_000) "v" (pos 4)
    ∷ extends delivered mail
    ∷ acks_batch delivered (mail_two ∷ mail_two ∷ [])
    ∷ enqueues delivered (pos 5) "9" mail_again
    ∷ []

act_all-Stays_example :
    Stays mem_redis "s" "1" (job_fields mem_codec mail) (act_all mem_codec shop calls stored_db)
act_all-Stays_example =
    act_all-Stays mem_codec shop "1" (job_fields mem_codec mail)
      (λ l. (
        record mail { id = "7"; idempotency_key = ""; lease = l },
        parse-job_fields mem_codec mail "1" l (job_fields mem_codec mail) mail-IsStorable
            (λ k. refl),
      ))
      calls stored_db (refl, (refl, (refl, (refl, (refl, tt))))) (unfold entry in refl)
