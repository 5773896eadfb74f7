-- ===== src/Chaos/Enqueues.antt =====
-- cmd/chaos/main.go: the jobs that the controller enqueues, some of them twice, and how many of these
-- the report counts. The draws of a request (its JSON, a fresh ID, the clock) and of the latency are
-- given, and so is the text of a number.
pub mod Retried
use Prim.Native.String.{◌++◌ as append}
use dist_tasks_go.Base.{
  ℕ, zero, suc, ◌+◌, ◌*◌, ◌/◌, ◌%◌, String, Bool, true, false, Option, none, some, List, [], ◌∷◌, ℤ,
  pos, ◌+ℤ◌, int64, eq_ℤ, ◌&&◌, str_eq, ◌==◌, if◌then◌else◌,
}
use dist_tasks_go.Queue.Job.{Error, Result, ok, err}
use dist_tasks_go.Queue.Backend.{Backend, World}
use dist_tasks_go.Queue.Producer.{Draw, Request, enqueue}
use dist_tasks_go.Store.Client.{milliseconds}
use dist_tasks_go.Store.Claim.{Stats}
use dist_tasks_go.Chaos.{permanent_every}
use dist_tasks_go.Chaos.Handler.{Payload}

abbrev pub max_attempts : ℕ
max_attempts = 8

-- `draw` is rand.IntN (90). Some jobs outlive the visibility timeout.
unfoldable pub payload_of : ℤ → ℕ → ℕ → Payload
payload_of visibility draw i = record {
  n = pos i;
  latency_ms =
      if i % 100 == 1
      then int64 (milliseconds visibility +ℤ milliseconds visibility)
      else pos (10 + draw);
  permanent = i % permanent_every == 0;
}

-- Every 10th enqueue is made again.
abbrev pub is_retried : ℕ → Bool
is_retried i = i % 10 == 3

-- What the controller draws for job i: for its enqueue, and for the one that is made again.
pub record Draws : Type 0 where
  pub first : ℕ → Draw
  pub again : ℕ → Draw

module _ (number : ℕ → String) where
  unfoldable pub request : ℕ → Draw → Request
  request i draw = record {
    task = "chaos";
    options = record {
      max_attempts = pos max_attempts;
      delay = pos 0;
      idempotency_key = append "job-" (number i);
    };
    draw = draw;
  }

  module _ {S : Type 0} (B : Backend S) (D : Draws) where
    -- The end of a repeated enqueue: it is fatal if it fails, or if its ID is another one.
    same_id : String → Result String × World S → Bool × World S
    same_id id (err e, w) = (false, w)
    same_id id (ok again, w) = (str_eq again id, w)

    enqueued : ℕ → Result String × World S → Bool × World S
    unfolding same_id request
    enqueued i (err e, w) = (false, w)
    enqueued i (ok id, w) =
        let again = same_id id (enqueue B none (request i (D.again i)) w) in
        if is_retried i then again else (true, w)

    -- The enqueue of job i; `false` is the end of the run by log.Fatalf.
    unfoldable pub enqueue_job : ℕ → World S → Bool × World S
    unfolding enqueued request
    enqueue_job i w = enqueued i (enqueue B none (request i (D.first i)) w)

    go_on : Bool × World S → (World S → Bool × World S) → Bool × World S
    go_on (false, w) rest = (false, w)
    go_on (true, w) rest = rest w

    -- The jobs from i on, `left` of them.
    unfoldable pub enqueue_jobs : ℕ → ℕ → World S → Bool × World S
    unfolding enqueue_job go_on
    enqueue_jobs zero i w = (true, w)
    enqueue_jobs (suc left) i w = go_on (enqueue_job i w) (enqueue_jobs left (suc i))

-- The number of enqueues that the report calls retried.
unfoldable pub retried_enqueues : ℕ → ℕ
retried_enqueues jobs = (jobs + 6) / 10

-- drained: the queue's gauges, of which an error says nothing.
unfoldable pub drained : Result Stats → Bool
drained (err e) = false
drained (ok st) =
    eq_ℤ st.stream_length (pos 0) && eq_ℤ st.in_flight (pos 0) && eq_ℤ st.retry_scheduled (pos 0)
