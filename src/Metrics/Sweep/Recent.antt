-- ===== src/Metrics/Sweep/Recent.antt =====
-- prommetrics/metrics.go: the start times after any callbacks.
use dist_tasks_go.Base.{
  ℕ, ◌≤◌, ◌<◌, ◌^◌, String, ◌≡◌, refl, ◌&&◌, Option, none, some, List, [], ◌∷◌, ℤ, pos, ◌-ℤ◌,
  str_eq, arith, Bool-cases, inl, inr, ◌⊎◌,
}
use dist_tasks_go.Queue.Job.{Job}
use dist_tasks_go.Queue.Backend.{
  Event, job_enqueued, job_started, job_completed, job_failed, job_retried, job_dead_lettered,
  job_lease_lost, outcome,
}
use dist_tasks_go.Metrics.{
  Metrics, set_start, init_task, on_started, on_completed, on_lease_lost, end_run, observe,
  new_metrics,
}
use dist_tasks_go.Metrics.Sweep.{
  NotBefore, hour_and_minute, AllFrom, IsSwept, sweep-IsSwept, store-IsSwept, same-IsSwept,
  init-IsSwept,
}

forgets :
    (job : Job) (f : String → String → Option ℤ) (i s : String)
    → (set_start job none f i s ≡ f i s) ⊎ (set_start job none f i s ≡ none)
forgets job f i s = elim (Bool-cases (str_eq job.id i && str_eq job.lease.message_id s)) [
  | inl here ↦ rw here (inr refl)
  | inr there ↦ rw there (inl refl)
]

started-IsSwept :
    (t now : ℕ) (later : ℤ) (job : Job) (m : Metrics)
    → t ≤ now
    → now < 2 ^ 63
    → IsSwept t m
    → IsSwept now (on_started (pos now) later job m)
      × AllFrom (pos now -ℤ pos hour_and_minute) (on_started (pos now) later job m).start_times
unfolding on_started
started-IsSwept t now later job m le small h =
    let i = init_task job.task m in
    let stored = store-IsSwept t now job i le (init-IsSwept t job.task m h) in
    let (swept, recent) =
      sweep-IsSwept now now
        (record i { start_times = set_start job (some (pos now)) i.start_times }) (omega arith)
        small stored in
    (same-IsSwept now now _ _ (omega arith) refl refl refl (λ x s. inl refl) swept, recent)

observe-IsSwept :
    (t now : ℕ) (later : ℤ) (e : Event) (m : Metrics)
    → t ≤ now
    → now < 2 ^ 63
    → IsSwept t m
    → IsSwept now (observe (pos now) later e m)
unfolding observe on_completed on_lease_lost end_run
observe-IsSwept t now later (job_enqueued job) m le small h =
    same-IsSwept t now m _ le refl refl refl (λ i s. inl refl) h
observe-IsSwept t now later (job_started job) m le small h =
    (started-IsSwept t now later job m le small h).0
observe-IsSwept t now later (job_completed job) m le small h =
    same-IsSwept t now m _ le refl refl refl (forgets job m.start_times) h
observe-IsSwept t now later (job_failed job r) m le small h =
    same-IsSwept t now m _ le refl refl refl (λ i s. inl refl) h
observe-IsSwept t now later (job_retried job) m le small h =
    same-IsSwept t now m _ le refl refl refl (forgets job m.start_times) h
observe-IsSwept t now later (job_dead_lettered job) m le small h =
    same-IsSwept t now m _ le refl refl refl (forgets job m.start_times) h
observe-IsSwept t now later (job_lease_lost job) m le small h =
    same-IsSwept t now m _ le refl refl refl (forgets job m.start_times) h
observe-IsSwept t now later (outcome o) m le small h =
    same-IsSwept t now m _ le refl refl refl (λ i s. inl refl) h

-- Callbacks in order, each with its two readings of the clock.
pub replay : List (ℕ × ℤ × Event) → Metrics → Metrics
replay [] m = m
replay ((t, later, e) ∷ cs) m = replay cs (observe (pos t) later e m)

-- The times do not go back, from one to another.
abbrev pub Chronological : ℕ → List (ℕ × ℤ × Event) → ℕ → Type 0
Chronological t [] now = t ≤ now
Chronological t ((u, later, e) ∷ cs) now = (t ≤ u) × Chronological u cs now

Chronological-le : (t : ℕ) (cs : List (ℕ × ℤ × Event)) (now : ℕ) → Chronological t cs now → t ≤ now
Chronological-le t [] now h = h
Chronological-le t ((u, later, e) ∷ cs) now (le, h) = omega (arith, Chronological-le u cs now h)

replay-IsSwept :
    (t : ℕ) (cs : List (ℕ × ℤ × Event)) (now : ℕ) (m : Metrics)
    → Chronological t cs now
    → now < 2 ^ 63
    → IsSwept t m
    → IsSwept now (replay cs m)
unfolding replay
replay-IsSwept t [] now m le small h = same-IsSwept t now m m le refl refl refl (λ i s. inl refl) h
replay-IsSwept t ((u, later, e) ∷ cs) now m (le, c) small h =
    replay-IsSwept u cs now (observe (pos u) later e m) c small
      (observe-IsSwept t u later e m le (omega (arith, Chronological-le u cs now c)) h)

-- After callbacks at times that do not go back, all before 2^63 ns: when JobStarted returns,
-- every start time in the table is at most an hour and a minute old.
pub start_times_recent :
    (begin now : ℕ) (cs : List (ℕ × ℤ × Event)) (later : ℤ) (job : Job) (i s : String)
    → Chronological begin cs now
    → now < 2 ^ 63
    → NotBefore
        (pos now -ℤ pos hour_and_minute)
        ((on_started (pos now) later job (replay cs (new_metrics (pos begin)))).start_times i s)
start_times_recent begin now cs later job i s c small =
    (started-IsSwept now now later job _ (omega arith) small (
        replay-IsSwept begin cs now (new_metrics (pos begin)) c small (
          unfold new_metrics in
          record {
            last = begin;
            last_eq = refl;
            not_later = omega arith;
            stale_eq = refl;
            every_eq = refl;
            recent = λ x y. tt;
          }))).1
      i s
