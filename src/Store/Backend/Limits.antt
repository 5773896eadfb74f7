-- ===== src/Store/Backend/Limits.antt =====
-- queue/worker.go over redisstream/store.go: a worker whose backend is the store.
use dist_tasks_go.Base.{ℕ, List}
use dist_tasks_go.Queue.Retry.{Floats}
use dist_tasks_go.Queue.Worker.{WorkerConfig}
use dist_tasks_go.Queue.Worker.Fetch.{IsBounded}
use dist_tasks_go.Queue.Worker.Run.{RunEvent, run, start}
use dist_tasks_go.Queue.Worker.Run.Drain.{Inv, run-start-Inv}
use dist_tasks_go.Redis.{Redis}
use dist_tasks_go.Store.Fields.{Codec}
use dist_tasks_go.Store.Claim.Limits.{length-claim, length-recover_expired}
use dist_tasks_go.Store.Backend.{Surroundings, Session, store_backend, reached}

module _ (F : Floats) {R : Redis} (C : Codec R) (w : Surroundings R.Db) (c : WorkerConfig F) where
  pub store_backend-IsBounded : IsBounded F (store_backend C w) c
  unfolding store_backend
  store_backend-IsBounded = record {
    claims = λ id n wait s.
        length-claim C s.store (w.each s.calls) id (w.net s.calls) (w.block s.calls)
          (w.meanwhile s.calls) (w.now s.calls) n wait (reached C w s);
    recovers = λ v id n s.
        length-recover_expired C s.store (w.each s.calls) id (w.pruned s.calls) (w.net s.calls)
          (w.now s.calls) v n (reached C w s);
  }

  -- A worker over the store, whatever happens to its calls and in the database between them:
  -- after any steps from the start, it runs at most as many jobs as its concurrency, renews
  -- leases until it has stopped, has no job when it has stopped, deregisters only then, and backs
  -- off for at most 10 s.
  pub store_run-Inv :
      (concurrency : ℕ) (es : List (RunEvent (Session R.Db))) (s : Session R.Db)
      → Inv F
          (store_backend C w)
          c
          concurrency
          store_backend-IsBounded
          (run F (store_backend C w) c concurrency es (start s))
  store_run-Inv concurrency =
      run-start-Inv F (store_backend C w) c concurrency store_backend-IsBounded
