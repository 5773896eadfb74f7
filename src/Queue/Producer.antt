-- ===== src/Queue/Producer.antt =====
-- queue/queue.go: newJob, Enqueue and EnqueueBatch. What a call draws from its surroundings (the JSON
-- of the payload, a random job ID, the clock, the traceparent that the propagator injects) is given.
pub mod Laws
use dist_tasks_go.Base.{
  ℕ, suc, String, Bool, true, false, Option, none, some, List, [], ◌∷◌, ℤ, pos, ◌+ℤ◌, leb_ℤ, str_eq,
  if◌then◌else◌,
}
use dist_tasks_go.Queue.Job.{Job, EnqueueOptions, Error, Result, ok, err, validate, no_lease}
use dist_tasks_go.Queue.Backend.{Backend, World, Event, job_enqueued, outcome}

pub record Draw : Type 0 where
  pub json : Result String
  pub id : String
  pub now : ℤ

pub record Request : Type 0 where
  pub task : String
  pub options : EnqueueOptions
  pub draw : Draw

checked : Job → Option Error → Result Job
checked job none = ok job
checked job (some e) = err e

abbrev built : Request → String → Job
built r raw = record {
  id = r.draw.id;
  task = r.task;
  payload = raw;
  attempt = pos 0;
  max_attempts = if leb_ℤ r.options.max_attempts (pos 0) then pos 3 else r.options.max_attempts;
  trace_parent = "";
  created_at = r.draw.now;
  available_at = r.draw.now +ℤ r.options.delay;
  idempotency_key = r.options.idempotency_key;
  lease = no_lease;
}

from_json : Request → Result String → Result Job
unfolding checked
from_json r (err e) = err e
from_json r (ok raw) = checked (built r raw) (validate (built r raw))

unfoldable pub new_job : Request → Result Job
unfolding from_json
new_job r = from_json r r.draw.json

-- startEnqueueSpan, as far as the job sees it.
abbrev pub traced : Option String → Job → Job
traced none job = job
traced (some tp) job = record job { trace_parent = tp }

cons_job : Result Job → Result (List Job) → Result (List Job)
cons_job (err e) rest = err e
cons_job (ok job) (err e) = err e
cons_job (ok job) (ok jobs) = ok (job ∷ jobs)

-- The first request that makes no job fails them all.
unfoldable pub new_jobs : List Request → Result (List Job)
unfolding cons_job
new_jobs [] = ok []
new_jobs (r ∷ rs) = cons_job (new_job r) (new_jobs rs)

-- The jobs of a batch share the traceparent of the first.
abbrev pub share_trace : String → List Job → List Job
share_trace tp [] = []
share_trace tp (j ∷ js) = record j { trace_parent = tp } ∷ share_trace tp js

abbrev pub trace_batch : Option String → List Job → List Job
trace_batch tp [] = []
trace_batch tp (j ∷ js) = let first = traced tp j in first ∷ share_trace first.trace_parent js

abbrev pub blanks : List Job → List String
blanks [] = []
blanks (j ∷ js) = "" ∷ blanks js

-- copy (ids, got), for as many IDs as there are jobs.
abbrev pub copy_ids : List Job → List String → List String
copy_ids [] got = []
copy_ids (j ∷ js) [] = "" ∷ copy_ids js []
copy_ids (j ∷ js) (id ∷ got) = id ∷ copy_ids js got

-- JobEnqueued for each job that was stored under its own ID.
unfoldable pub report_stored : List Job → List String → List Event → List Event
report_stored [] ids es = es
report_stored (j ∷ js) [] es = es
report_stored (j ∷ js) (id ∷ ids) es =
    report_stored js ids (if str_eq id j.id then job_enqueued j ∷ es else es)

module _ {S : Type 0} (B : Backend S) where
  report_enqueue : Job → Result String × S → List Event → Result String × World S
  report_enqueue job (err e, s) es = (err e, record { backend = s; events = outcome "failed" ∷ es })
  report_enqueue job (ok id, s) es = (
    ok id,
    record {
      backend = s;
      events =
          if str_eq id job.id
          then outcome "enqueued" ∷ job_enqueued job ∷ es
          else outcome "duplicate" ∷ es;
    },
  )

  enqueue_job : Option String → Result Job → World S → Result String × World S
  unfolding report_enqueue
  enqueue_job tp (err e) w = (err e, w)
  enqueue_job tp (ok job) w =
      report_enqueue (traced tp job) (B.enqueue (traced tp job) w.backend) w.events

  unfoldable pub enqueue : Option String → Request → World S → Result String × World S
  unfolding enqueue_job
  enqueue tp r w = enqueue_job tp (new_job r) w

  continue_each :
      Result String × S
      → List Job
      → (S → List String × Option Error × S)
      → List String × Option Error × S
  continue_each (err e, s) js rest = ("" ∷ blanks js, some e, s)
  continue_each (ok id, s) js rest = let r = rest s in (id ∷ r.0, r.1, r.2)

  -- The loop for a backend without batches: it stops at the first error.
  unfoldable pub enqueue_each : List Job → S → List String × Option Error × S
  unfolding continue_each
  enqueue_each [] s = ([], none, s)
  enqueue_each (j ∷ js) s = continue_each (B.enqueue j s) js (enqueue_each js)

  store_jobs :
      Option (List Job → S → List String × Option Error × S)
      → List Job
      → S
      → List String × Option Error × S
  unfolding enqueue_each
  store_jobs none jobs s = enqueue_each jobs s
  store_jobs (some batch) jobs s = let r = batch jobs s in (copy_ids jobs r.0, r.1, r.2)

  abbrev batch_outcome : Option Error → String
  batch_outcome none = "enqueued"
  batch_outcome (some e) = "failed"

  report_batch :
      List Job → List String × Option Error × S → List Event → List String × Option Error × World S
  unfolding report_stored
  report_batch jobs (ids, e, s) es = (
    ids,
    e,
    record { backend = s; events = outcome (batch_outcome e) ∷ report_stored jobs ids es },
  )

  store_batch : Option String → Result (List Job) → World S → List String × Option Error × World S
  unfolding store_jobs report_batch
  store_batch tp (err e) w = ([], some e, w)
  store_batch tp (ok []) w = ([], none, w)
  store_batch tp (ok (j ∷ js)) w =
      let jobs = trace_batch tp (j ∷ js) in
      report_batch jobs (store_jobs B.enqueue_batch jobs w.backend) w.events

  unfoldable pub enqueue_batch :
      Option String → List Request → World S → List String × Option Error × World S
  unfolding store_batch
  enqueue_batch tp rs w = store_batch tp (new_jobs rs) w
