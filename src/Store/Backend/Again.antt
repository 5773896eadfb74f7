-- ===== src/Store/Backend/Again.antt =====
-- queue/queue.go over redisstream/store.go: an enqueue with an idempotency key, made again.
use Prim.Native.String.{◌++◌ as append}
use dist_tasks_go.Base.{
  suc, String, ◌≡◌, refl, sym, ap, ◌∙◌, true, false, ◌⊎◌, Option, none, some, pos, ltb_ℤ, ℤ, str_eq,
  Bool-cases, inl, inr,
}
use dist_tasks_go.Queue.Job.{Job, Result, ok}
use dist_tasks_go.Queue.Backend.{World}
use dist_tasks_go.Queue.Producer.{Request, new_job, traced, enqueue}
use dist_tasks_go.Queue.Producer.Laws.{enqueue_made}
use dist_tasks_go.Redis.{Redis}
use dist_tasks_go.Store.Scripts.{enqueue_once_script}
use dist_tasks_go.Store.Scripts.Dedupe.{enqueue_once_twice}
use dist_tasks_go.Store.Fields.{Codec, job_fields}
use dist_tasks_go.Store.Client.{delivered, Store, call, milliseconds}
use dist_tasks_go.Store.Enqueue
use dist_tasks_go.Store.Enqueue.{with_id, run_at, enqueue_once, enqueue_script}
use dist_tasks_go.Store.Backend.{Surroundings, Session, store_backend, reached, after_call}

with_id-idempotency_key :
    (fresh : String) (j : Job) → (with_id fresh j).idempotency_key ≡ j.idempotency_key
with_id-idempotency_key fresh j = elim (Bool-cases (str_eq j.id "")) [
  | inl none_yet ↦ rw none_yet refl
  | inr given ↦ rw given refl
]

traced-idempotency_key :
    (tp : Option String) (j : Job) → (traced tp j).idempotency_key ≡ j.idempotency_key
traced-idempotency_key none j = refl
traced-idempotency_key (some t) j = refl

module _ {R : Redis} (C : Codec R) (b : Store) where
  open R use {Db, text, ttl}

  -- A job with a key goes through the script of the dedupe key.
  enqueue_script-keyed :
      (now : ℤ) (j : Job)
      → str_eq j.idempotency_key "" ≡ false
      → enqueue_script C b now j ≡ enqueue_once C b now j
  unfolding enqueue_script
  enqueue_script-keyed now j keyed = rw keyed refl

  -- The dedupe key of a job.
  abbrev pub key_of : String → String
  key_of key = append b.config.dedupe_prefix key

  abbrev pub window_ms : ℤ
  window_ms = milliseconds b.config.dedupe_window

  -- Two enqueues of one key through the store; between them, the database may change, but for the value
  -- of the key.
  store_again :
      (now now' : ℤ) (j j' : Job) (d : Db)
      → str_eq j.idempotency_key "" ≡ false
      → j'.idempotency_key ≡ j.idempotency_key
      → ltb_ℤ (pos 0) window_ms ≡ true
      → (id : String) × (d' : Db) × (call delivered (enqueue_script C b now j) d ≡ (ok id, d'))
        × ((text d (key_of j.idempotency_key) ≡ some id)
            ⊎ (ttl d' (key_of j.idempotency_key) ≡ some window_ms))
        × ((e : Db)
            → text e (key_of j.idempotency_key) ≡ text d' (key_of j.idempotency_key)
            → call delivered (enqueue_script C b now' j') e ≡ (ok id, e))
  unfolding enqueue_once call enqueue_once_script job_fields
  store_again now now' j j' d keyed same expires =
      let (f, decodes, _) = C.decode-marshal (job_fields C j) in
      let (id, d', first, lasts, again) =
        enqueue_once_twice R (append b.config.dedupe_prefix j.idempotency_key) b.config.stream
          b.config.retry_key b.retry_data j.id (C.marshal (job_fields C j))
          (milliseconds b.config.dedupe_window) (run_at now j) f d decodes expires in
      (
        id,
        d',
        rw (enqueue_script-keyed now j keyed, first) refl,
        lasts,
        λ e still.
            rw (enqueue_script-keyed now' j' (rw same keyed), same)
              (rw
                (again e j'.id (C.marshal (job_fields C j')) (milliseconds b.config.dedupe_window)
                  (run_at now' j') still)
                refl),
      )

module _ {R : Redis} (C : Codec R) (w : Surroundings R.Db) where
  open R use {Db}

  backend_enqueue :
      (s : Session Db) (j : Job) (id : String) (d : Db)
      → w.net s.calls ≡ delivered
      → call delivered
          (enqueue_script C s.store (w.now s.calls) (with_id (w.fresh s.calls 0) j))
          (reached C w s)
        ≡ (ok id, d)
      → (store_backend C w).enqueue j s ≡ (ok id, after_call C w s d)
  unfolding store_backend Enqueue.enqueue
  backend_enqueue s j id d up e =
      rw up (ap (λ (x : Result String × Db). (x.0, after_call C w s x.1)) e)

  -- Where both calls are answered, the dedupe window is at least a millisecond, and the dedupe
  -- key has not expired when the second call comes, whatever else others do in between: a
  -- producer that enqueues two jobs with one idempotency key, which is not empty, gets one ID for
  -- both, whatever else the jobs have; the second enqueue leaves the database as it finds it; and
  -- the key had that ID before, or expires after just the dedupe window.
  pub enqueue_again :
      (tp tp' : Option String) (r r' : Request) (j j' : Job) (world : World (Session Db))
      → new_job r ≡ ok j
      → new_job r' ≡ ok j'
      → str_eq j.idempotency_key "" ≡ false
      → j'.idempotency_key ≡ j.idempotency_key
      → ltb_ℤ (pos 0) (window_ms C world.backend.store) ≡ true
      → let n = world.backend.calls in
        let first = enqueue (store_backend C w) tp r world in
        let again = enqueue (store_backend C w) tp' r' first.1 in
        let key = key_of C world.backend.store j.idempotency_key in
        w.net n ≡ delivered
        → w.net (suc n) ≡ delivered
        → R.text (w.others (suc n) first.1.backend.db) key ≡ R.text first.1.backend.db key
        → (id : String) × (first.0 ≡ ok id)
          × (again.0 ≡ ok id)
          × (again.1.backend.db ≡ w.others (suc n) first.1.backend.db)
          × ((R.text (w.others n world.backend.db) key ≡ some id)
              ⊎ (R.ttl first.1.backend.db key ≡ some (window_ms C world.backend.store)))
          × (again.1.backend.store ≡ world.backend.store)
          × (first.1.backend.store ≡ world.backend.store)
  enqueue_again tp tp' r r' j j' world made made' keyed same expires up up' still =
      let s = world.backend in
      let n = s.calls in
      let one = with_id (w.fresh n 0) (traced tp j) in
      let two = with_id (w.fresh (suc n) 0) (traced tp' j') in
      let key : one.idempotency_key ≡ j.idempotency_key =
        with_id-idempotency_key (w.fresh n 0) (traced tp j) ∙ traced-idempotency_key tp j in
      let key' : two.idempotency_key ≡ j'.idempotency_key =
        with_id-idempotency_key (w.fresh (suc n) 0) (traced tp' j')
        ∙ traced-idempotency_key tp' j' in
      let (id, d', first, lasts, again) =
        store_again C s.store (w.now n) (w.now (suc n)) one two (reached C w s) (rw key keyed)
          (key' ∙ same ∙ sym key) expires in
      let t = after_call C w s d' in
      let (answer, left) = enqueue_made (store_backend C w) tp r j world made in
      let (answer', left') =
        enqueue_made (store_backend C w) tp' r' j' (enqueue (store_backend C w) tp r world).1
          made' in
      let e = backend_enqueue s (traced tp j) id d' up first in
      let here = left ∙ ap (λ x. x.1) e in
      let kept : R.text (w.others (suc n) d') (key_of C s.store one.idempotency_key)
          ≡ R.text d' (key_of C s.store one.idempotency_key) =
        rw key (rw here at still) in
      let e' =
        backend_enqueue t (traced tp' j') id (w.others (suc n) d') up'
          (again (w.others (suc n) d') kept) in
      (
        id,
        answer ∙ ap (λ x. x.0) e,
        answer' ∙ rw here (ap (λ x. x.0) e'),
        rw (left', here) (ap (λ x. x.1.db) e'),
        rw here (rw key at lasts),
        rw (left', here) (ap (λ x. x.1.store) e'),
        rw here refl,
      )
