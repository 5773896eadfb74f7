-- ===== src/Tests/WorkerRuns.antt =====
-- The producer and the worker at concrete inputs, with a backend that keeps its jobs in a list.
use dist_tasks_go.Base.{
  ℕ, ◌≤◌, ◌+◌, ◌*◌, ◌^◌, min, String, ◌≡◌, refl, Bool, true, false, Option, none, some, List, [],
  ◌∷◌, ◌++◌, pos, ◌<ℤ◌, ◌+ℤ◌, ◌-ℤ◌, ◌≤ℤ◌, ℤ, negsuc, ◌-◌, str_eq, if◌then◌else◌, arith, take, drop,
  pos_part,
}
use dist_tasks_go.Queue.Job.{Job, JobResult, Error, other, lease_lost, ok, err, validate}
use dist_tasks_go.Queue.Retry.{capped_delay, next_delay, second}
use dist_tasks_go.Queue.Retry.Delay.{
  FloatLaws, capped_delay-min, next_delay_bounds, capped_delay_wraps,
}
use dist_tasks_go.Queue.Backend.{Backend, World}
use dist_tasks_go.Queue.Producer.{Request, new_job}
use dist_tasks_go.Queue.Worker.{
  Worker, WorkerConfig, Reason, failed_with, HandlerFunc, default_retry_policy,
}
use dist_tasks_go.Queue.Worker.Batch.{call_each, extend}
use dist_tasks_go.Queue.Worker.Acks
use dist_tasks_go.Queue.Worker.Acks.{AckEvent, arrives, round, idle_loop}
use dist_tasks_go.Queue.Worker.Acks.Answered.{acks_alone, rounds, run-rounds}
use dist_tasks_go.Queue.Worker.Run.{RunState, claiming, run}
use dist_tasks_go.Memory.Tools.{whole}
use dist_tasks_go.Tests.Setup.{mail, mail_again}

abbrev pub shelf : Backend (List Job)
shelf = record {
  enqueue = λ j s. (ok j.id, s ++ j ∷ []);
  enqueue_batch = none;
  claim = λ id n wait s. (take (pos_part n) s, none, drop (pos_part n) s);
  recover_expired = λ v id n s. (take (pos_part n) s, none, drop (pos_part n) s);
  extend = λ j s. (some lease_lost, s);
  extend_batch = none;
  ack = λ j s. (none, []);
  ack_batch = none;
  retry = λ j at s. (none, record j { available_at = at } ∷ s);
  dead_letter = λ j why s. (none, record j { task = why } ∷ s);
}

abbrev setup : WorkerConfig whole
setup = record {
  id = "w";
  concurrency = pos 2;
  poll_interval = pos 10;
  poll_only = true;
  visibility_timeout = pos 30;
  heartbeat_interval = pos 10;
  shutdown_timeout = pos 30;
  max_deliveries = pos 5;
  stats_interval = pos 10;
  retry_policy = default_retry_policy whole (pos 1);
}

abbrev answer : String → JobResult
answer task =
    if str_eq task "send"
    then record { retryable = true; err = none }
    else record { retryable = str_eq task "flaky"; err = some (other "no") }

abbrev handlers : String → Option HandlerFunc
handlers t = if str_eq t "none" then none else some (λ j. answer j.task)

abbrev pub worker : Worker whole
worker = record { config = setup; handlers = handlers }

abbrev pub text : Reason → String
text (failed_with e) = "failed"
text _ = "given up"

abbrev pub world : World (List Job)
world = record { backend = mail ∷ mail_again ∷ []; events = [] }

abbrev pub with_task : String → Job
with_task t = record mail { task = t }

abbrev with_token : String → ℕ → Job
with_token t n = record mail { task = t; lease = record mail.lease { token = pos n } }

abbrev busy : RunState (List Job)
busy = record {
  phase = claiming;
  cancelled = false;
  cut_off = false;
  running = mail ∷ mail_again ∷ [];
  heartbeat = true;
  deregistered = false;
  last_recover = pos 0;
  backoff = pos 0;
  backend = [];
}

-- The second job ends, then the first.
abbrev endings : List (ℕ × List Job)
endings = (1, []) ∷ (0, []) ∷ []

abbrev is_empty : List Job → Bool
is_empty [] = true
is_empty (j ∷ js) = false

-- The lease of the first of two acks is lost.
abbrev ack_one : Job → List Job → Option Error × List Job
ack_one j s = (if is_empty s then some lease_lost else none, j ∷ s)

abbrev two_acks : List AckEvent
two_acks = arrives mail ∷ round ∷ arrives mail_again ∷ []

run-rounds_example :
    let u = Acks.run (call_each ack_one) two_acks (idle_loop []) in
    let t = Acks.run (call_each ack_one) (rounds 1) u in
    (t.waiting ≡ []) × ((t.answers, t.backend) ≡ acks_alone ack_one (mail ∷ mail_again ∷ []) [])
unfolding Acks.run Acks.step Acks.ack_batch_of
run-rounds_example =
    run-rounds (call_each ack_one) ack_one (λ js s. refl) two_acks 1 [] refl (omega arith)

capped_delay-min_example :
    capped_delay (pos second) (pos (30 * second)) (pos 4) ≡ pos (min (second * 2 ^ 3) (30 * second))
capped_delay-min_example =
    capped_delay-min second (30 * second) 3 (omega arith) (omega arith) (omega arith)

whole_part :
    (d : ℕ) (s r : ℤ)
    → pos 0 ≤ℤ s
    → s ≤ℤ pos d
    → pos 0 ≤ℤ r
    → r ≤ℤ s
    → (k : ℕ) × (pos d -ℤ s +ℤ r ≡ pos k) × (k ≤ d)
unfolding ◌+ℤ◌ ◌-ℤ◌
whole_part d (pos s) (pos r) a b c e = (d - s + r, ground arith, omega arith)
whole_part d (pos s) (negsuc r) a b c e = absurd (omega arith)
whole_part d (negsuc s) r a b c e = absurd (omega arith)

-- The floats of `whole` are integers.
whole-Laws : FloatLaws whole
whole-Laws = record {
  le = λ x y. x ≤ℤ y;
  ltb-le = λ x y h. ground arith;
  min-le = λ x y h. ground arith;
  of_int-le = λ d. omega arith;
  draw_positive = omega arith;
  draw_small = omega arith;
  mul_positive = λ x y a b. ground arith;
  mul_left = λ x u a b c. ground arith;
  mul_right = λ u x a b c. ground arith;
  trunc_part = λ d s r small a b c e. whole_part d s r a b c e;
}

next_delay_bounds_example :
    (r : ℕ) × (next_delay whole setup.retry_policy (pos 4) ≡ pos r)
    × (r ≤ min (second * 2 ^ 3) (30 * second))
next_delay_bounds_example =
    next_delay_bounds whole whole-Laws setup.retry_policy second (30 * second) 3 refl refl
      (omega arith) (omega arith) (omega arith)

capped_delay_wraps_example : capped_delay (pos (2 ^ 62)) (pos (2 ^ 62 + 1)) (pos 2) <ℤ pos 0
capped_delay_wraps_example =
    capped_delay_wraps (2 ^ 62) (2 ^ 62 + 1) 0 (omega arith) (omega arith) (omega arith)
      (omega arith)

abbrev ask : String → Request
ask task = record {
  task = task;
  options = record { max_attempts = pos 0; delay = pos 0; idempotency_key = "" };
  draw = record { json = ok "{}"; id = "7"; now = pos 5 };
}

asked : Job
unfolding new_job validate
asked = elim (new_job (ask "a")) [ ok j ↦ j | err e ↦ mail ]
