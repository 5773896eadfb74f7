-- ===== src/Queue/Worker/Reports.antt =====
-- queue/worker.go with prommetrics/metrics.go: what the metrics hold after a run of a job.
use dist_tasks_go.Base.{
  ℕ, suc, ◌+◌, String, ◌≡◌, refl, ◌∙◌, ap, Bool, true, false, not, ◌||◌, Option, none, some, List,
  ◌∷◌, ℤ, ltb_ℤ, leb_ℤ, eq_refl, if◌then◌else◌, arith, Bool-cases, inl, inr,
}
use dist_tasks_go.Queue.Job.{Job, JobResult, Error, is_lease_lost, wrapped, unknown_task}
use dist_tasks_go.Queue.Retry.{Floats, should_dead_letter}
use dist_tasks_go.Queue.Backend.{
  Backend, World, Event, job_started, job_completed, job_failed, job_retried, job_dead_lettered,
  job_lease_lost, outcome,
}
use dist_tasks_go.Queue.Worker.{
  Worker, Reason, delivered_times, no_handler, failed_with, HandlerFunc, dead_letter, settled,
  reported, complete, retry_later, failed, finish, ran, handle_with, handle_one, observed, process,
}
use dist_tasks_go.Metrics.{
  Metrics, Counter, observe, observe_all, on_started, on_completed, on_lease_lost, end_run,
  init_task, sweep_stale, set_start, at_task, or_zero, plus_one,
}

abbrev value : Option ℕ → ℕ
value none = 0
value (some n) = n

-- The runs of a task that ended: completed, retried, dead-lettered or fenced off.
pub ended : String → Metrics → ℕ
ended task m =
    value (m.completed task)
    + value (m.retried task)
    + value (m.dead_lettered task)
    + value (m.lease_lost task)

-- A run that was settled, or that learned that its lease is lost.
abbrev pub ends_well : Option Error → Bool
ends_well none = true
ends_well (some e) = is_lease_lost e

abbrev one_if : Bool → ℕ
one_if b = if b then 1 else 0

value-or_zero : (o : Option ℕ) → value (or_zero o) ≡ value o
value-or_zero none = refl
value-or_zero (some n) = refl

value-plus_one : (o : Option ℕ) → value (plus_one o) ≡ suc (value o)
value-plus_one none = refl
value-plus_one (some n) = refl

value-at_zero : (task t : String) (c : Counter) → value (at_task task or_zero c t) ≡ value (c t)
value-at_zero task t c = ground (arith, value-or_zero (c t))

value-at_one :
    (task : String) (c : Counter) → value (at_task task plus_one c task) ≡ suc (value (c task))
value-at_one task c = ground (arith, eq_refl task, value-plus_one (c task))

ended-init : (task t : String) (m : Metrics) → ended t (init_task task m) ≡ ended t m
unfolding ended init_task
ended-init task t m = ground (
  arith,
  value-at_zero task t m.completed,
  value-at_zero task t m.retried,
  value-at_zero task t m.dead_lettered,
  value-at_zero task t m.lease_lost,
)

ended-sweep : (now : ℤ) (t : String) (m : Metrics) → ended t (sweep_stale now m) ≡ ended t m
unfolding ended sweep_stale
ended-sweep now t m = ground arith

module _ (now : ℤ) (job : Job) (m : Metrics) where
  -- The ended runs after the events of a list.
  abbrev runs : List Event → ℕ
  runs es = ended job.task (observe_all now es m)

  runs-started : (es : List Event) → runs (job_started job ∷ es) ≡ runs es
  unfolding observe_all observe on_started ended
  runs-started es = ended-sweep now job.task _ ∙ ended-init job.task job.task (observe_all now es m)

  runs-failed : (r : Bool) (es : List Event) → runs (job_failed job r ∷ es) ≡ runs es
  unfolding observe_all observe ended
  runs-failed r es = refl

  runs-outcome : (o : String) (es : List Event) → runs (outcome o ∷ es) ≡ runs es
  unfolding observe_all observe
  runs-outcome o es = refl

  runs-completed : (es : List Event) → runs (job_completed job ∷ es) ≡ suc (runs es)
  unfolding observe_all observe on_completed end_run ended
  runs-completed es = omega (arith, value-at_one job.task (observe_all now es m).completed)

  runs-retried : (es : List Event) → runs (job_retried job ∷ es) ≡ suc (runs es)
  unfolding observe_all observe end_run ended
  runs-retried es = omega (arith, value-at_one job.task (observe_all now es m).retried)

  runs-dead_lettered : (es : List Event) → runs (job_dead_lettered job ∷ es) ≡ suc (runs es)
  unfolding observe_all observe end_run ended
  runs-dead_lettered es = omega (arith, value-at_one job.task (observe_all now es m).dead_lettered)

  runs-lease_lost : (es : List Event) → runs (job_lease_lost job ∷ es) ≡ suc (runs es)
  unfolding observe_all observe on_lease_lost ended
  runs-lease_lost es = omega (arith, value-at_one job.task (observe_all now es m).lease_lost)

  abbrev start_of : List Event → Option ℤ
  start_of es = (observe_all now es m).start_times job.id job.lease.message_id

  abbrev pub GoneIf : Bool → Option ℤ → Type 0
  GoneIf true o = o ≡ none
  GoneIf false o = Unit {0}

  gone :
      (v : Option ℤ) (f : String → String → Option ℤ)
      → set_start job none f job.id job.lease.message_id ≡ none
  gone v f = rw (eq_refl job.id, eq_refl job.lease.message_id) refl

  module _ (F : Floats) {S : Type 0} (B : Backend S) (W : Worker F) (text : Reason → String) where
    -- The reports of a run from an earlier list on: one run more has ended if the answer says so, and its
    -- start time is gone.
    abbrev Accounted : ℕ → Option Error × World S → Type 0
    Accounted k r =
        (runs (observed F B W text job r).events ≡ k + one_if (ends_well r.0))
        × GoneIf (ends_well r.0) (start_of (observed F B W text job r).events)

    -- An answer with an error, where nothing that counts was reported.
    failed-Accounted :
        (k : ℕ) (e : Error) (w : World S) → runs w.events ≡ k → Accounted k (some e, w)
    unfolding observed reported
    failed-Accounted k e w h = elim (Bool-cases (is_lease_lost e)) [
      | inl lost ↦ rw lost (
        runs-lease_lost w.events ∙ omega (arith, h),
        unfold observe_all observe on_lease_lost in
            gone none (observe_all now w.events m).start_times,
      )
      | inr other ↦ rw other (omega (arith, h), tt)
    ]

    settled-Accounted :
        (k : ℕ) (r : Option Error × S) (es fine : List Event)
        → runs es ≡ k
        → runs fine ≡ suc k
        → start_of fine ≡ none
        → Accounted k (settled F B W text r es fine)
    unfolding settled
    settled-Accounted k (some e, s) es fine h f g =
        failed-Accounted k e (record { backend = s; events = outcome "settle_failed" ∷ es })
          (runs-outcome "settle_failed" es ∙ h)
    settled-Accounted k (none, s) es fine h f g = unfold observed in (omega (arith, f), g)

    dead_letter-Accounted :
        (k : ℕ) (why : Reason) (w : World S)
        → runs w.events ≡ k
        → Accounted k (dead_letter F B W text job why w)
    unfolding dead_letter observed observe_all
    dead_letter-Accounted k why w h =
        settled-Accounted k (B.dead_letter job (text why) w.backend) w.events _ h
          (runs-dead_lettered w.events ∙ ap suc h)
          (unfold observe_all observe end_run in gone none (observe_all now w.events m).start_times)

    finish-Accounted :
        (k : ℕ) (at : ℤ) (retryable : Bool) (o : Option Error) (w : World S)
        → runs w.events ≡ k
        → Accounted k (finish F B W text at job retryable o w)
    unfolding finish complete failed retry_later reported observed observe_all
    finish-Accounted k at retryable none w h =
        settled-Accounted k (B.ack job w.backend) w.events _ h (runs-completed w.events ∙ ap suc h)
          (unfold observe_all observe on_completed end_run in
            gone none (observe_all now w.events m).start_times)
    finish-Accounted k at retryable (some e) w h =
        let w' = record w { events = job_failed job retryable ∷ w.events } in
        let h' = runs-failed retryable w.events ∙ h in
        elim (Bool-cases (not retryable || should_dead_letter job)) [
          | inl last ↦ rw last (dead_letter-Accounted k (failed_with e) w' h')
          | inr again ↦ rw again (
              settled-Accounted k (B.retry job _ w'.backend) w'.events _ h'
                (runs-retried w'.events ∙ ap suc h')
                (unfold observe_all observe end_run in
                  gone none (observe_all now w'.events m).start_times))
        ]

    ran-Accounted :
        (k : ℕ) (at : ℤ) (cause : Option Error) (res : JobResult) (w : World S)
        → runs w.events ≡ k
        → Accounted k (ran F B W text at cause job res w)
    unfolding ran reported
    ran-Accounted k at (some cause) res w h =
        failed-Accounted k cause (record w { events = outcome "abandoned" ∷ w.events })
          (runs-outcome "abandoned" w.events ∙ h)
    ran-Accounted k at none res w h = finish-Accounted k at res.retryable res.err w h

    handle_with-Accounted :
        (k : ℕ) (at : ℤ) (cause : Option Error) (o : Option HandlerFunc) (w : World S)
        → runs w.events ≡ k
        → Accounted k (handle_with F B W text at cause job o w)
    unfolding handle_with reported
    handle_with-Accounted k at cause (some h) w e =
        ran-Accounted k at cause (h job) (record w { events = job_started job ∷ w.events })
          (runs-started w.events ∙ e)
    handle_with-Accounted k at cause none w e =
        elim (Bool-cases (leb_ℤ W.config.max_deliveries job.lease.token)) [
          | inl last ↦ rw last (dead_letter-Accounted k (no_handler job.task job.lease.token) w e)
          | inr early ↦ rw early (
              failed-Accounted k (wrapped job.task unknown_task)
                (record w { events = outcome "skipped" ∷ w.events })
                (runs-outcome "skipped" w.events ∙ e))
        ]

    -- Whatever was reported before: processing a job adds exactly one to the completed, retried,
    -- dead-lettered and lease-lost runs of its task together where it ends without an error or
    -- with a lost lease, and then the run has no start time left; otherwise it adds none.
    pub process_accounted :
        (at : ℤ) (cause : Option Error) (w : World S)
        → let answer = (handle_one F B W text at cause job w).0 in
          let before = observe_all now w.events m in
          let after = observe_all now (process F B W text at cause job w).events m in
          (ended job.task after ≡ ended job.task before + one_if (ends_well answer))
          × GoneIf (ends_well answer) (after.start_times job.id job.lease.message_id)
    unfolding process handle_one
    process_accounted at cause w =
        elim (Bool-cases (ltb_ℤ W.config.max_deliveries job.lease.token)) [
          | inl poison ↦
              rw poison (dead_letter-Accounted _ (delivered_times job.lease.token) w refl)
          | inr fine ↦ rw fine (handle_with-Accounted _ at cause (W.handlers job.task) w refl)
        ]
