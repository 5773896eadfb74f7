-- ===== src/Store/Backend.antt =====
-- redisstream/store.go: Store as the queue.Backend of a producer or a worker. What the methods meet
-- in the world is given call by call: the time, fresh job IDs, how the calls fare, and what other
-- clients do to the database before a call and in the middle of a Claim.
pub mod Limits
pub mod Handled
pub mod Zombie
pub mod Again
use dist_tasks_go.Base.{ℕ, suc, String, Option, none, some, List, [], ◌∷◌, ℤ}
use dist_tasks_go.Queue.Job.{Job, Error, Result, ok, err}
use dist_tasks_go.Queue.Backend.{Backend}
use dist_tasks_go.Redis.{Redis}
use dist_tasks_go.Store.Fields.{Codec}
use dist_tasks_go.Store.Client.{
  Net, Store, ack, extend, retry, dead_letter, ack_batch, extend_batch,
}
use dist_tasks_go.Store.Enqueue.{enqueue, enqueue_batch}
use dist_tasks_go.Store.Claim.{Block, claim, recover_expired}
use dist_tasks_go.Store.Claim.Limits.{listed}

-- `now`, `net` and the rest at the n-th call.
pub record Surroundings (Db : Type 0) : Type 0 where
  pub now : ℕ → ℤ
  pub net : ℕ → Net
  pub pruned : ℕ → Net
  pub each : ℕ → String → Net
  pub block : ℕ → Block
  pub fresh : ℕ → ℕ → String
  pub others : ℕ → Db → Db
  pub meanwhile : ℕ → Db → Db

pub record Session (Db : Type 0) : Type 0 where
  pub store : Store
  pub db : Db
  pub calls : ℕ

-- The jobs of a batch, each with the ID that it gets if it has none.
abbrev pub numbered : (ℕ → String) → ℕ → List Job → List (String × Job)
numbered ids n [] = []
numbered ids n (j ∷ js) = (ids n, j) ∷ numbered ids (suc n) js

abbrev pub failure {ℓ} : {A : Type ℓ} → Result A → Option Error
failure (ok x) = none
failure (err e) = some e

module _ {R : Redis} (C : Codec R) (w : Surroundings R.Db) where
  -- What a call finds.
  abbrev pub reached : Session R.Db → R.Db
  reached s = w.others s.calls s.db

  abbrev pub after_call : Session R.Db → R.Db → Session R.Db
  after_call s d = record s { db = d; calls = suc s.calls }

  unfoldable pub store_backend : Backend (Session R.Db)
  store_backend = record {
    enqueue = λ job s.
        let r =
          enqueue C s.store (w.net s.calls) (w.now s.calls) (w.fresh s.calls 0) job (reached s) in
        (r.0, after_call s r.1);
    enqueue_batch = some λ jobs s.
        let r =
          enqueue_batch C s.store (w.net s.calls) (w.now s.calls)
            (numbered (w.fresh s.calls) 0 jobs) (reached s) in
        (listed r.0, failure r.0, after_call s r.1);
    claim = λ id limit wait s.
        let r =
          claim C s.store (w.net s.calls) (w.block s.calls) (w.each s.calls) (w.meanwhile s.calls)
            (w.now s.calls) id limit wait (reached s) in
        (listed r.0, failure r.0, after_call s r.1);
    recover_expired = λ visibility id limit s.
        let r =
          recover_expired C s.store (w.pruned s.calls) (w.net s.calls) (w.each s.calls)
            (w.now s.calls) visibility id limit (reached s) in
        (listed r.0, failure r.0, record { store = r.1; db = r.2; calls = suc s.calls });
    extend = λ job s.
        let r = extend C s.store (w.net s.calls) job (reached s) in (r.0, after_call s r.1);
    extend_batch = some λ jobs s.
        let r = extend_batch C s.store (w.net s.calls) jobs (reached s) in (r.0, after_call s r.1);
    ack = λ job s. let r = ack C s.store (w.net s.calls) job (reached s) in (r.0, after_call s r.1);
    ack_batch = some λ jobs s.
        let r = ack_batch C s.store (w.net s.calls) jobs (reached s) in (r.0, after_call s r.1);
    retry = λ job at s.
        let r = retry C s.store (w.net s.calls) job at (reached s) in (r.0, after_call s r.1);
    dead_letter = λ job reason s.
        let r = dead_letter C s.store (w.net s.calls) (w.now s.calls) job reason (reached s) in
        (r.0, after_call s r.1);
  }
