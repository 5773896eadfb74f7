-- ===== src/Queue/Worker/Run.antt =====
-- queue/worker.go: Run, as steps of the worker's goroutines. The loop claims jobs and starts them, jobs
-- finish in any order, and after the cancellation the loop drains. A step that is not enabled does nothing.
-- `concurrency` is that of the configuration. `deregister` is the time of the call of a backend's optional
-- method; what that does to the backend is left out.
pub mod Drain
use dist_tasks_go.Base.{
  ℕ, zero, suc, ◌*◌, ◌-◌, Bool, true, false, not, ◌&&◌, Option, none, some, List, [], ◌∷◌, ◌++◌, ℤ,
  pos, ◌+ℤ◌, min_ℤ, ltb_ℤ, ltb, if◌then◌else◌, length,
}
use dist_tasks_go.Queue.Job.{Job, Error}
use dist_tasks_go.Queue.Retry.{Floats, second}
use dist_tasks_go.Queue.Backend.{Backend}
use dist_tasks_go.Queue.Worker.{WorkerConfig}
use dist_tasks_go.Queue.Worker.Fetch.{Fetched, fetch}

pub data Phase : Type 0 where
  claiming draining stopped : Phase

pub record RunState (S : Type 0) : Type 0 where
  pub phase : Phase
  -- The context of Run is cancelled; the contexts of the jobs are.
  pub cancelled : Bool
  pub cut_off : Bool
  pub running : List Job
  pub heartbeat : Bool
  pub deregistered : Bool
  pub last_recover : ℤ
  pub backoff : ℤ
  pub backend : S

-- `poll` is a round of the loop at a time; `finish` is the end of the k-th running job, with the
-- state of the backend that its handling leaves.
pub data RunEvent (S : Type 0) : Type 0 where
  cancel leave_loop drained timeout deregister : RunEvent S
  poll : ℤ → RunEvent S
  finish : ℕ → S → RunEvent S

pub start : {S : Type 0} → S → RunState S
start s = record {
  phase = claiming;
  cancelled = false;
  cut_off = false;
  running = [];
  heartbeat = true;
  deregistered = false;
  last_recover = pos 0;
  backoff = pos 0;
  backend = s;
}

abbrev pub max_ℤ : ℤ → ℤ → ℤ
max_ℤ a b = if ltb_ℤ a b then b else a

abbrev is_claiming : Phase → Bool
is_claiming claiming = true
is_claiming _ = false

abbrev is_draining : Phase → Bool
is_draining draining = true
is_draining _ = false

abbrev is_stopped : Phase → Bool
is_stopped stopped = true
is_stopped _ = false

abbrev is_empty : List Job → Bool
is_empty [] = true
is_empty (j ∷ js) = false

-- The list without its k-th element.
unfoldable pub without : ℕ → List Job → List Job
without k [] = []
without zero (j ∷ js) = js
without (suc k) (j ∷ js) = j ∷ without k js

module _ (F : Floats) {S : Type 0} (B : Backend S) (c : WorkerConfig F) (concurrency : ℕ) where
  -- The pause after a failed fetch, which doubles up to 10 s.
  next_backoff : ℤ → Option Error → ℤ
  next_backoff b none = pos 0
  next_backoff b (some e) = min_ℤ (max_ℤ (b +ℤ b) c.poll_interval) (pos (10 * second))

  -- What was leased is started, even if part of the fetch failed.
  started : RunState S → Fetched S → RunState S
  unfolding next_backoff
  started s f = record s {
    running = s.running ++ f.jobs;
    last_recover = f.last_recover;
    backoff = next_backoff s.backoff f.error;
    backend = f.state;
  }

  unfoldable pub step : RunEvent S → RunState S → RunState S
  unfolding started without
  step cancel s = record s { cancelled = true }
  step (poll now) s =
      if is_claiming s.phase && not s.cancelled && ltb (length s.running) concurrency
      then started s (fetch F B c now s.last_recover (concurrency - length s.running) s.backend)
      else s
  step (finish k after) s =
      if ltb k (length s.running)
      then record s { running = without k s.running; backend = after }
      else s
  step leave_loop s =
      if is_claiming s.phase && s.cancelled then record s { phase = draining } else s
  step drained s =
      if is_draining s.phase && is_empty s.running
      then record s { phase = stopped; heartbeat = false }
      else s
  step timeout s = if is_draining s.phase then record s { cut_off = true } else s
  step deregister s = if is_stopped s.phase then record s { deregistered = true } else s

  unfoldable pub run : List (RunEvent S) → RunState S → RunState S
  unfolding step
  run [] s = s
  run (e ∷ es) s = run es (step e s)
