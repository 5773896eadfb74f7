-- ===== src/Metrics/Sweep.antt =====
-- prommetrics/metrics.go: how old a start time can get when it is swept; the callbacks are in
-- Sweep/Recent.
pub mod Recent
use dist_tasks_go.Base.{
  ℕ, ◌≤◌, ◌<◌, ◌*◌, ◌^◌, String, ◌≡◌, refl, true, ◌&&◌, Option, none, some, List, [], ◌∷◌, ℤ, pos,
  negsuc, ◌-ℤ◌, ◌≤ℤ◌, ltb_ℤ, int64, str_eq, arith, Bool-cases, inl, inr, ◌⊎◌, ◌∙◌,
}
use dist_tasks_go.Queue.Job.{Job}
use dist_tasks_go.Queue.Retry.{second}
use dist_tasks_go.Queue.Backend.{
  Event, job_enqueued, job_started, job_completed, job_failed, job_retried, job_dead_lettered,
  job_lease_lost, outcome,
}
use dist_tasks_go.Metrics.{
  Metrics, unless_stale, sweep_stale, set_start, init_task, on_started, on_completed, on_lease_lost,
  end_run, observe, new_metrics,
}

-- A start time is not before a bound by more than the age.
abbrev pub NotBefore : ℤ → Option ℤ → Type 0
NotBefore bound none = Unit {0}
NotBefore bound (some t) = bound ≤ℤ t

-- A difference of two times of an int64 from 1970 on.
int64-difference : (a b : ℕ) → a < 2 ^ 63 → b < 2 ^ 63 → int64 (pos a -ℤ pos b) ≡ pos a -ℤ pos b
unfolding int64 ◌-ℤ◌
int64-difference a b p q = ground arith

unless_stale-NotBefore :
    (now stale : ℕ) (o : Option ℤ)
    → NotBefore (pos now -ℤ pos stale) (unless_stale (pos now) (pos stale) o)
unfolding ◌-ℤ◌
unless_stale-NotBefore now stale none = tt
unless_stale-NotBefore now stale (some (pos t)) =
    elim (Bool-cases (ltb_ℤ (pos stale) (pos now -ℤ pos t))) [
      | inl old ↦ rw old tt
      | inr young ↦ rw young (ground arith)
    ]
unless_stale-NotBefore now stale (some (negsuc t)) =
    elim (Bool-cases (ltb_ℤ (pos stale) (pos now -ℤ negsuc t))) [
      | inl old ↦ rw old tt
      | inr young ↦ rw young (ground arith)
    ]

NotBefore-le : (a b : ℤ) (o : Option ℤ) → a ≤ℤ b → NotBefore b o → NotBefore a o
NotBefore-le a b none le h = tt
NotBefore-le a b (some t) le h = ground arith

-- The ages in nanoseconds: an hour, and an hour and a minute.
abbrev pub hour : ℕ
hour = 3600 * second

abbrev pub hour_and_minute : ℕ
hour_and_minute = 3660 * second

abbrev pub AllFrom : ℤ → (String → String → Option ℤ) → Type 0
AllFrom bound f = (i s : String) → NotBefore bound (f i s)

-- The metrics at a time: no start time is older than the last sweep by more than an hour.
pub record IsSwept (now : ℕ) (m : Metrics) : Type 0 where
  pub last : ℕ
  pub last_eq : m.last_sweep ≡ pos last
  pub not_later : last ≤ now
  pub stale_eq : m.stale_after ≡ pos hour
  pub every_eq : m.sweep_every ≡ pos (60 * second)
  pub recent : AllFrom (pos last -ℤ pos hour) m.start_times

AllFrom-set :
    (bound : ℤ) (job : Job) (o : Option ℤ) (f : String → String → Option ℤ)
    → NotBefore bound o
    → AllFrom bound f
    → AllFrom bound (set_start job o f)
AllFrom-set bound job o f h hs i s =
    elim (Bool-cases (str_eq job.id i && str_eq job.lease.message_id s)) [
      | inl here ↦ rw here h
      | inr there ↦ rw there (hs i s)
    ]

from_now : (now : ℕ) → NotBefore (pos now -ℤ pos hour) (some (pos now))
unfolding ◌-ℤ◌
from_now now = ground arith

sub_mono : (a b k : ℕ) → a ≤ b → (pos a -ℤ pos k) ≤ℤ (pos b -ℤ pos k)
unfolding ◌-ℤ◌
sub_mono a b k h = ground arith

-- A last sweep less than a minute ago.
not_long_ago :
    (last now : ℕ)
    → last < 2 ^ 63
    → now < 2 ^ 63
    → ltb_ℤ (int64 (pos now -ℤ pos last)) (pos (60 * second)) ≡ true
    → (pos now -ℤ pos hour_and_minute) ≤ℤ (pos last -ℤ pos hour)
not_long_ago last now p q early =
    unfold ◌-ℤ◌ in ground (arith, rw (int64-difference now last q p) at early)

-- A sweep, or none because the last is recent.
pub sweep-IsSwept :
    (t now : ℕ) (m : Metrics)
    → t ≤ now
    → now < 2 ^ 63
    → IsSwept t m
    → IsSwept now (sweep_stale (pos now) m)
      × AllFrom (pos now -ℤ pos hour_and_minute) (sweep_stale (pos now) m).start_times
unfolding sweep_stale
sweep-IsSwept t now m le small h =
    elim (Bool-cases (ltb_ℤ (int64 (pos now -ℤ m.last_sweep)) m.sweep_every)) [
      | inl early ↦ rw early (
        record {
          last = h.last;
          last_eq = h.last_eq;
          not_later = omega (arith, h.not_later);
          stale_eq = h.stale_eq;
          every_eq = h.every_eq;
          recent = h.recent;
        },
        λ i s.
            NotBefore-le (pos now -ℤ pos hour_and_minute) (pos h.last -ℤ pos hour)
              (m.start_times i s)
              (not_long_ago h.last now (omega (arith, h.not_later)) small
                (rw (h.last_eq, h.every_eq) at early))
              (h.recent i s),
      )
      | inr due ↦ rw due (
        record {
          last = now;
          last_eq = refl;
          not_later = omega arith;
          stale_eq = h.stale_eq;
          every_eq = h.every_eq;
          recent = λ i s. rw h.stale_eq (unless_stale-NotBefore now hour (m.start_times i s));
        },
        λ i s. rw h.stale_eq (
            NotBefore-le (pos now -ℤ pos hour_and_minute) (pos now -ℤ pos hour)
              (unless_stale (pos now) (pos hour) (m.start_times i s)) (unfold ◌-ℤ◌ in ground arith)
              (unless_stale-NotBefore now hour (m.start_times i s))),
      )
    ]

-- A start time of now is recent.
pub store-IsSwept :
    (t now : ℕ) (job : Job) (m : Metrics)
    → t ≤ now
    → IsSwept t m
    → IsSwept now (record m { start_times = set_start job (some (pos now)) m.start_times })
store-IsSwept t now job m le h = record {
  last = h.last;
  last_eq = h.last_eq;
  not_later = omega (arith, h.not_later);
  stale_eq = h.stale_eq;
  every_eq = h.every_eq;
  recent =
      AllFrom-set (pos h.last -ℤ pos hour) job (some (pos now)) m.start_times
        (NotBefore-le (pos h.last -ℤ pos hour) (pos now -ℤ pos hour) (some (pos now))
          (sub_mono h.last now hour (omega (arith, h.not_later))) (from_now now))
        h.recent;
}

-- Metrics that agree on the table and its clock.
pub same-IsSwept :
    (t now : ℕ) (m n : Metrics)
    → t ≤ now
    → n.last_sweep ≡ m.last_sweep
    → n.stale_after ≡ m.stale_after
    → n.sweep_every ≡ m.sweep_every
    → ((i s : String) → (n.start_times i s ≡ m.start_times i s) ⊎ (n.start_times i s ≡ none))
    → IsSwept t m
    → IsSwept now n
same-IsSwept t now m n le a b c d h = record {
  last = h.last;
  last_eq = a ∙ h.last_eq;
  not_later = omega (arith, h.not_later);
  stale_eq = b ∙ h.stale_eq;
  every_eq = c ∙ h.every_eq;
  recent = λ i s. elim (d i s) [ inl e ↦ rw e (h.recent i s) | inr e ↦ rw e tt ];
}

pub init-IsSwept :
    (t : ℕ) (task : String) (m : Metrics) → IsSwept t m → IsSwept t (init_task task m)
unfolding init_task
init-IsSwept t task m h = elim (Bool-cases (m.initialized task)) [
  | inl old ↦ rw old h
  | inr new ↦ rw new (same-IsSwept t t m _ (omega arith) refl refl refl (λ i s. inl refl) h)
]
