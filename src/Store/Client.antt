-- ===== src/Store/Client.antt =====
-- redisstream/store.go: the methods of Store, one call of Redis each or a few. A method takes what it
-- meets in the world: the time, a fresh job ID, and how its calls fare.
pub mod Settle
use Prim.Native.String.{◌++◌ as append}
use text.Mathlib.Text.{find?}
use dist_tasks_go.Base.{
  ℕ, zero, suc, ◌*◌, ◌/◌, String, Bool, true, false, ◌&&◌, ◌||◌, Option, none, some, List, [], ◌∷◌,
  ◌++◌, ℤ, pos, negsuc, ◌+ℤ◌, ◌-ℤ◌, leb_ℤ, ltb_ℤ, eq_ℤ, min_ℤ, int64, floor_div, str_eq,
  if◌then◌else◌, not, ◌==◌,
}
use dist_tasks_go.Queue.Job.{Job, Lease, Error, other, wrapped, lease_lost, Result, ok, err}
use dist_tasks_go.Redis.{Redis, Fields, Entry, Command, xadd, hset, zadd}
use dist_tasks_go.Redis.Script.{Script}
use dist_tasks_go.Store.Scripts.{
  ack_script, extend_script, retry_script, dead_letter_script, ack_batch_script,
  extend_batch_script, promote, claim_script, recover_script, deregister_script,
  prune_consumers_script, enqueue_once_script,
}
use dist_tasks_go.Store.Fields.{Codec, job_fields, parse_job}

-- How a call over the network fares: it is made and answered, it is not made, or it is made and the
-- answer is lost.
pub data Net : Type 0 where
  delivered : Net
  refused lost : Error → Net

pub record Config : Type 0 where
  pub stream : String
  pub group : String
  pub retry_key : String
  pub dead_letter : String
  pub dedupe_prefix : String
  pub dedupe_window : ℤ
  pub consumer_idle_timeout : ℤ

pub record Store : Type 0 where
  pub config : Config
  pub open config use *
  pub retry_data : String
  pub recover_cursor : String
  pub last_prune : ℤ

abbrev pub hour : ℕ
hour = 3600 * 1_000_000_000

abbrev or_text : String → String → String
or_text s d = if str_eq s "" then d else s

abbrev or_positive : ℤ → ℤ → ℤ
or_positive z d = if leb_ℤ z (pos 0) then d else z

unfoldable pub with_defaults : Config → Config
with_defaults c = record {
  stream = or_text c.stream "dtq:jobs";
  group = or_text c.group "dtq:workers";
  retry_key = or_text c.retry_key "dtq:retry";
  dead_letter = or_text c.dead_letter "dtq:dead";
  dedupe_prefix = or_text c.dedupe_prefix "dtq:dedupe:";
  dedupe_window = or_positive c.dedupe_window (pos (24 * hour));
  consumer_idle_timeout = or_positive c.consumer_idle_timeout (pos hour);
}

abbrev is_found : Option ℕ → Bool
is_found none = false
is_found (some n) = true

-- strings.Contains of the error's text and BUSYGROUP: the group is there already.
abbrev is_busy_group : Error → Bool
is_busy_group (other msg) = is_found (find? msg "BUSYGROUP")
is_busy_group _ = false

-- A store that has done nothing yet; the zero time.Time is the start of the year 1.
abbrev pub fresh_store : Config → Store
fresh_store c = record {
  config = c;
  retry_data = append c.retry_key ":jobs";
  recover_cursor = "0-0";
  last_prune = negsuc 62_135_596_799_999_999_999;
}

-- NewWithClient; `created` is the error of XGROUP CREATE MKSTREAM.
unfoldable pub new_with_client : Config → Option Error → Result Store
unfolding with_defaults
new_with_client c none = ok (fresh_store (with_defaults c))
new_with_client c (some e) = if is_busy_group e then ok (fresh_store (with_defaults c)) else err e

abbrev pub unix_milli : ℤ → ℤ
unix_milli t = floor_div t 1_000_000

-- The milliseconds of a duration, toward zero.
abbrev pub milliseconds : ℤ → ℤ
milliseconds (pos d) = pos (d / 1_000_000)
milliseconds (negsuc d) = pos 0 -ℤ pos (suc d / 1_000_000)

-- What the caller of a script sees.
abbrev answer {ℓ} : {A : Type ℓ} → Option A → Result A
answer none = err (other "script error")
answer (some a) = ok a

unfoldable pub call : {D A : Type 0} → Net → Script D A → D → Result A × D
call delivered m d = (answer (m d).0, (m d).1)
call (refused e) m d = (err e, d)
call (lost e) m d = (err e, (m d).1)

-- 0 is "not the owner".
unfoldable pub fenced_result : Result ℕ → Option Error
fenced_result (err e) = some e
fenced_result (ok n) = if n == 0 then some lease_lost else none

unfoldable pub fenced : {D : Type 0} → Net → Script D ℕ → D → Option Error × D
unfolding call fenced_result
fenced net script d = (fenced_result (call net script d).0, (call net script d).1)

-- One error for each job: that of the call, or lease_lost where the answer has no 1.
unfoldable pub fenced_batch_errors : List Job → Result (List ℕ) → List (Option Error)
fenced_batch_errors [] res = []
fenced_batch_errors (j ∷ js) (err e) = some e ∷ fenced_batch_errors js (err e)
fenced_batch_errors (j ∷ js) (ok []) = some lease_lost ∷ fenced_batch_errors js (ok [])
fenced_batch_errors (j ∷ js) (ok (n ∷ ns)) =
    (if n == 0 then some lease_lost else none) ∷ fenced_batch_errors js (ok ns)

abbrev pub leases : List Job → List Lease
leases [] = []
leases (j ∷ js) = j.lease ∷ leases js

module _ {R : Redis} (C : Codec R) (b : Store) where
  open R use {Db, exec, stream}
  open b use {config, retry_data}

  unfoldable pub ack : Net → Job → Db → Option Error × Db
  unfolding fenced
  ack net job = fenced net (ack_script R config.stream config.group job.lease)

  unfoldable pub extend : Net → Job → Db → Option Error × Db
  unfolding fenced
  extend net job = fenced net (extend_script R config.stream config.group job.lease)

  unfoldable pub retried : Job → Job
  retried job = record job { attempt = int64 (job.attempt +ℤ pos 1) }

  unfoldable pub retry : Net → Job → ℤ → Db → Option Error × Db
  unfolding fenced retried
  retry net job next_run_at = fenced net (
      retry_script R config.stream config.group config.retry_key retry_data job.lease
        (unix_milli next_run_at) job.id (C.marshal (job_fields C (retried job))))

  -- The fields of a dead letter: the job's, the reason, the deliveries and the time. Their order is
  -- that of a Go map, which is any.
  unfoldable pub dead_letter_fields : Job → String → ℤ → Fields
  dead_letter_fields job reason now =
      ("reason", reason)
      ∷ ("deliveries", C.itoa job.lease.token)
      ∷ ("failedAt", C.format_time now)
      ∷ job_fields C job

  unfoldable pub dead_letter : Net → ℤ → Job → String → Db → Option Error × Db
  unfolding fenced dead_letter_fields
  dead_letter net now job reason = fenced net (
      dead_letter_script R config.stream config.group config.dead_letter job.lease
        (dead_letter_fields job reason now))

  unfoldable pub ack_batch : Net → List Job → Db → List (Option Error) × Db
  unfolding call fenced_batch_errors
  ack_batch net jobs d =
      let r = call net (ack_batch_script R config.stream config.group (leases jobs)) d in
      (fenced_batch_errors jobs r.0, r.1)

  unfoldable pub extend_batch : Net → List Job → Db → List (Option Error) × Db
  unfolding call fenced_batch_errors
  extend_batch net jobs d =
      let r = call net (extend_batch_script R config.stream config.group (leases jobs)) d in
      (fenced_batch_errors jobs r.0, r.1)
