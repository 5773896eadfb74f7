-- ===== src/Queue/Worker/Batch.antt =====
-- queue/worker.go: heartbeat and extend, which work on batches of at most 256. ackLoop is in Worker/Acks.
pub mod Each
use mathlib.Core.List.{map-append}
use dist_tasks_go.Base.{
  ℕ, zero, suc, ◌-◌, ◌≤◌, ◌≡◌, refl, ap, ◌∙◌, Option, none, some, List, [], ◌∷◌, ◌++◌, arith,
  if◌then◌else◌, length, take, drop, take-append-drop, map,
}
use dist_tasks_go.Queue.Job.{Job, Error, is_lease_lost}
use dist_tasks_go.Queue.Backend.{Backend}

abbrev pub max_batch : ℕ
max_batch = 256

-- One call for each job, for a backend without batches.
unfoldable pub call_each :
    {S : Type 0} → (Job → S → Option Error × S) → List Job → S → List (Option Error) × S
call_each f [] s = ([], s)
call_each f (j ∷ js) s =
    let first = f j s in let rest = call_each f js first.1 in (first.0 ∷ rest.0, rest.1)

-- Each answer goes to the request at its index; a batch call gives one error for each job.
unfoldable pub deliver : List Job → List (Option Error) → List (Job × Option Error)
deliver [] es = []
deliver (j ∷ js) [] = []
deliver (j ∷ js) (e ∷ es) = (j, e) ∷ deliver js es

-- slices.Chunk: the parts of a list, each of max_batch but the last.
unfoldable pub chunks : ℕ → List Job → List (List Job)
chunks zero js = []
chunks (suc n) [] = []
chunks (suc n) (j ∷ js) = take max_batch (j ∷ js) ∷ chunks n (drop max_batch (j ∷ js))

-- The jobs of a batch whose lease turned out to be lost: their contexts are cancelled.
unfoldable pub lost_of : List (Job × Option Error) → List Job
lost_of [] = []
lost_of ((j, none) ∷ rs) = lost_of rs
lost_of ((j, some e) ∷ rs) = if is_lease_lost e then j ∷ lost_of rs else lost_of rs

-- extend: in one call, if the backend has it.
extend_jobs :
    {S : Type 0}
    → Option (List Job → S → List (Option Error) × S)
    → (Job → S → Option Error × S)
    → List Job
    → S
    → List (Option Error) × S
unfolding call_each
extend_jobs (some batch) one jobs s = batch jobs s
extend_jobs none one jobs s = call_each one jobs s

module _ {S : Type 0} (B : Backend S) where
  unfoldable pub extend : List Job → S → List (Option Error) × S
  unfolding extend_jobs
  extend jobs s = extend_jobs B.extend_batch B.extend jobs s

  unfoldable pub beat_chunks : List (List Job) → S → List Job × S
  unfolding extend deliver lost_of
  beat_chunks [] s = ([], s)
  beat_chunks (batch ∷ rest) s =
      let r = extend batch s in
      let r' = beat_chunks rest r.1 in (lost_of (deliver batch r.0) ++ r'.0, r'.1)

  -- One tick of the heartbeat: the held jobs that lost their lease, which are cancelled. There are at
  -- most as many chunks as jobs.
  unfoldable pub heartbeat_tick : List Job → S → List Job × S
  unfolding beat_chunks chunks
  heartbeat_tick held s = beat_chunks (chunks (length held) held) s
