-- ===== src/Chaos/Enqueues/Retried.antt =====
-- cmd/chaos/main.go over queue/queue.go and redisstream/store.go: a chaos run enqueues its jobs.
use Prim.Native.String.{◌++◌ as append}
use mathlib.Core.Bool.{false≢true}
use text.Mathlib.TextLemmas.{append-eq-nil_iff}
use dist_tasks_go.Base.{
  ℕ, zero, suc, ◌+◌, String, ◌≡◌, refl, sym, ap, subst, ltb_ℤ, ◌∙◌, Bool, true, false, none, pos,
  ◌+ℤ◌, str_eq, eq_refl, eq_iff, if◌then◌else◌, arith, Bool-cases, inl, inr,
}
use dist_tasks_go.Queue.Job.{Job, Result, ok, validate, no_lease}
use dist_tasks_go.Queue.Backend.{Backend, World}
use dist_tasks_go.Queue.Producer.{Draw, enqueue, new_job}
use dist_tasks_go.Redis.{Redis}
use dist_tasks_go.Store.Fields.{Codec}
use dist_tasks_go.Store.Client.{delivered, Store}
use dist_tasks_go.Store.Backend.{Surroundings, Session, store_backend}
use dist_tasks_go.Store.Backend.Again.{key_of, window_ms, enqueue_again}
use dist_tasks_go.Chaos.Enqueues.{
  max_attempts, is_retried, Draws, request, same_id, enqueued, enqueue_job, go_on, enqueue_jobs,
  retried_enqueues,
}

-- How many of the jobs below a number are enqueued again.
abbrev pub count_retried : ℕ → ℕ
count_retried zero = 0
count_retried (suc i) = (if is_retried i then 1 else 0) + count_retried i

-- The report's number of retried enqueues is that of the jobs which were enqueued again.
pub count_retried-eq : (jobs : ℕ) → count_retried jobs ≡ retried_enqueues jobs
unfolding retried_enqueues
count_retried-eq zero = refl
count_retried-eq (suc i) = ground (arith, count_retried-eq i)

module _ (number : ℕ → String) where
  job_key : (x : String) → str_eq (append "job-" x) "" ≡ false
  job_key x = elim (Bool-cases (str_eq (append "job-" x) "")) [
    | inr named ↦ named
    | inl empty ↦ absurd (
        false≢true (
          (eq_iff "job-" "").1
            ((append-eq-nil_iff {p = "job-"} {q = x}).0 ((eq_iff (append "job-" x) "").0 empty)).0))
  ]

  -- A payload with some JSON makes a job, with the key of its number.
  request-made :
      (i : ℕ) (draw : Draw) (raw : String)
      → draw.json ≡ ok raw
      → str_eq raw "" ≡ false
      → (j : Job) × (new_job (request number i draw) ≡ ok j)
        × (j.idempotency_key ≡ append "job-" (number i))
  unfolding new_job request validate
  request-made i draw raw made some_text = (
    record {
      id = draw.id;
      task = "chaos";
      payload = raw;
      attempt = pos 0;
      max_attempts = pos max_attempts;
      trace_parent = "";
      created_at = draw.now;
      available_at = draw.now +ℤ pos 0;
      idempotency_key = append "job-" (number i);
      lease = no_lease;
    },
    rw (made, some_text) refl,
    refl,
  )

  module _ {R : Redis} (C : Codec R) (w : Surroundings R.Db) (D : Draws) where
    abbrev store : Backend (Session R.Db)
    store = store_backend C w

    answered_same :
        (id : String) (b : Store) (y : Result String × World (Session R.Db))
        → y.0 ≡ ok id
        → y.1.backend.store ≡ b
        → ((same_id number store D id y).0 ≡ true)
          × ((same_id number store D id y).1.backend.store ≡ b)
    unfolding same_id
    answered_same id b (r, v) e h = rw e (rw (eq_refl id) refl, h)

    enqueued_fine :
        (i : ℕ) (x : Result String × World (Session R.Db)) (id : String) (b : Store)
        → x.0 ≡ ok id
        → x.1.backend.store ≡ b
        → (enqueue store none (request number i (D.again i)) x.1).0 ≡ ok id
        → (enqueue store none (request number i (D.again i)) x.1).1.backend.store ≡ b
        → ((enqueued number store D i x).0 ≡ true)
          × ((enqueued number store D i x).1.backend.store ≡ b)
    unfolding enqueued
    enqueued_fine i (r, v) id b first same again same' = elim (Bool-cases (is_retried i)) [
      | inl twice ↦
          rw (first, twice)
            (answered_same id b (enqueue store none (request number i (D.again i)) v) again same')
      | inr once ↦ rw (first, once) (refl, same)
    ]

    go_on_fine :
        (x : Bool × World (Session R.Db)) (b : Store)
        (rest : World (Session R.Db) → Bool × World (Session R.Db))
        → x.0 ≡ true
        → x.1.backend.store ≡ b
        → ((v : World (Session R.Db)) → v.backend.store ≡ b → (rest v).0 ≡ true)
        → (go_on number store D x rest).0 ≡ true
    unfolding go_on
    go_on_fine (t, v) b rest h e k = rw h (k v e)

    -- Where every call is answered, nobody else is there and no dedupe key expires between two
    -- calls, the dedupe window is at least a millisecond, and every payload has a JSON that is
    -- not empty: the controller enqueues any number of jobs without an end by log.Fatalf, so that
    -- every enqueue succeeds and each that is made again gets the ID of the first.
    pub chaos_enqueues_done :
        (jobs i : ℕ) (world : World (Session R.Db)) (raw : ℕ → String) (raw' : ℕ → String)
        → ((n : ℕ) → w.net n ≡ delivered)
        → ((n : ℕ) (d : R.Db) → w.others n d ≡ d)
        → ltb_ℤ (pos 0) (window_ms C world.backend.store) ≡ true
        → ((n : ℕ) → ((D.first n).json ≡ ok (raw n)) × (str_eq (raw n) "" ≡ false))
        → ((n : ℕ) → ((D.again n).json ≡ ok (raw' n)) × (str_eq (raw' n) "" ≡ false))
        → (enqueue_jobs number store D jobs i world).0 ≡ true
    unfolding enqueue_jobs go_on enqueue_job
    chaos_enqueues_done zero i world raw raw' up alone expires made made' = refl
    chaos_enqueues_done (suc jobs) i world raw raw' up alone expires made made' =
        let (j, new, key) = request-made i (D.first i) (raw i) (made i).0 (made i).1 in
        let (j', new', key') = request-made i (D.again i) (raw' i) (made' i).0 (made' i).1 in
        let n = world.backend.calls in
        let (id, first, again, _, _, kept', kept) =
          enqueue_again C w none none (request number i (D.first i)) (request number i (D.again i))
            j j' world new new' (rw key (job_key (number i))) (key' ∙ sym key) expires (up n)
            (up (suc n))
            (ap (λ d. R.text d (key_of C world.backend.store j.idempotency_key))
              (alone (suc n) _)) in
        let (good, same) =
          enqueued_fine i (enqueue store none (request number i (D.first i)) world) id
            world.backend.store first kept again kept' in
        go_on_fine (enqueue_job number store D i world) world.backend.store
          (enqueue_jobs number store D jobs (suc i)) good same
          λ v e.
            chaos_enqueues_done jobs (suc i) v raw raw' up alone
              (subst (λ b. ltb_ℤ (pos 0) (window_ms C b) ≡ true) (sym e) expires) made made'
