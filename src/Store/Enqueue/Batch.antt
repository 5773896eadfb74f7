-- ===== src/Store/Enqueue/Batch.antt =====
-- redisstream/store.go: EnqueueBatch against Enqueue.
use dist_tasks_go.Base.{
  String, ◌≡◌, refl, true, false, List, [], ◌∷◌, ℤ, pos, negsuc, ◌≤ℤ◌, arith, ltb_ℤ, eq_ℤ, str_eq,
  Bool-cases, inl, inr,
}
use dist_tasks_go.Queue.Job.{Job}
use dist_tasks_go.Redis.{Redis}
use dist_tasks_go.Redis.Script.{Script, pure}
use dist_tasks_go.Store.Fields.{Codec}
use dist_tasks_go.Store.Client.{Store, unix_milli}
use dist_tasks_go.Store.Enqueue.{enqueue_script, schedule_tx, batch_item, batch_tx, both}

-- After the first millisecond of 1970 no job in the future has run-at 0.
run_at-pos :
    (now : ℤ) (job : Job)
    → pos 1_000_000 ≤ℤ now
    → ltb_ℤ now job.available_at ≡ true
    → eq_ℤ (unix_milli job.available_at) (pos 0) ≡ false
run_at-pos now job h later = go now job.available_at h later
  where
    go : (n t : ℤ) → pos 1_000_000 ≤ℤ n → ltb_ℤ n t ≡ true → eq_ℤ (unix_milli t) (pos 0) ≡ false
    go (pos n) (pos t) h later = ground arith
    go (pos n) (negsuc t) h later = refl
    go (negsuc n) t h later = absurd (omega arith)

module _ {R : Redis} (C : Codec R) (b : Store) where
  open R use {Db}

  batch_item-enqueue :
      (now : ℤ) (job : Job) (d : Db)
      → pos 1_000_000 ≤ℤ now
      → batch_item C b now job d ≡ enqueue_script C b now job d
  unfolding batch_item enqueue_script schedule_tx
  batch_item-enqueue now job d h = elim (Bool-cases (str_eq job.idempotency_key "")) [
    | inr keyed ↦ rw keyed
    | inl plain ↦ elim (Bool-cases (ltb_ℤ now job.available_at)) [
      | inl later ↦ rw plain (rw later (rw (run_at-pos now job h later)))
      | inr due ↦ rw plain (rw due)
    ]
  ]

  -- One job at a time, each answer kept.
  abbrev pub one_by_one : (Job → Script Db String) → List Job → Script Db (List String)
  one_by_one f [] d = pure [] d
  one_by_one f (job ∷ jobs) d =
      let first = f job d in let rest = one_by_one f jobs first.1 in (both first.0 rest.0, rest.1)

  -- From the first millisecond of 1970 on, a batch of enqueues has the answers and the final
  -- database of the enqueues one by one.
  pub batch_tx-one_by_one :
      (now : ℤ) (jobs : List Job) (d : Db)
      → pos 1_000_000 ≤ℤ now
      → batch_tx C b now jobs d ≡ one_by_one (enqueue_script C b now) jobs d
  unfolding batch_tx
  batch_tx-one_by_one now [] d h = refl
  batch_tx-one_by_one now (job ∷ jobs) d h = rw (
    batch_item-enqueue now job d h,
    batch_tx-one_by_one now jobs (enqueue_script C b now job d).1 h,
  )
