-- ===== src/Store/Actions/Unsettled.antt =====
-- redisstream/store.go: the entry of a job stays in the stream until its own delivery is settled.
use dist_tasks_go.Base.{
  String, ◌≡◌, refl, false, not, ◌&&◌, List, [], ◌∷◌, ℤ, pos, str_eq, eq_ℤ, ltb_ℤ, All, Bool-cases,
  inl, inr, arith,
}
use dist_tasks_go.Queue.Job.{Job, Lease, ok}
use dist_tasks_go.Redis.{Redis, Fields, hset, zadd, xadd, xclaim_justid}
use dist_tasks_go.Store.Scripts.{
  renew, if_owned, ack_script, extend_script, retry_script, dead_letter_script, ack_batch_script,
  extend_batch_script,
}
use dist_tasks_go.Store.Scripts.Stays.{
  Stays, exec-Stays, settle-Stays, if_owned-Stays, each_owned-Stays, promote-Stays,
  deregister-Stays, enqueue_once-Stays,
}
use dist_tasks_go.Store.Fields.{Codec, parse_job}
use dist_tasks_go.Store.Client.{
  Net, Store, fenced, leases, ack, extend, retry, dead_letter, ack_batch, extend_batch,
}
use dist_tasks_go.Store.Enqueue
use dist_tasks_go.Store.Enqueue.{
  with_id, with_ids, enqueue_script, schedule_tx, add_now, enqueue_once, batch_item, batch_tx,
  enqueue_batch,
}
use dist_tasks_go.Store.Claim.{deregister, promote_retries}
use dist_tasks_go.Store.Claim.Kept.{call-Kept}
use dist_tasks_go.Store.Claim.Kept.Calls.{
  claim_ready-Kept, claim_blocking-Kept, recover_expired-Kept,
}
use dist_tasks_go.Store.Actions.{
  Action, enqueues, enqueues_batch, claims, blocks, recovers, promotes, deregisters, extends,
  extends_batch, acks, acks_batch, retries, dead_letters, any_of, settles, act, act_all,
}

module _ {R : Redis} (C : Codec R) (b : Store) (i : String) (f : Fields) where
  open R use {Db, exec}
  open b use {config, retry_data}

  abbrev Kept : Db → Type 0
  Kept d = Stays R config.stream i f d

  scheduled-Kept :
      (k z id json : String) (at : ℤ) (d : Db)
      → Kept d
      → Kept (exec (zadd z at id) (exec (hset k id json) d))
  scheduled-Kept k z id json at d e =
      exec-Stays R config.stream i f (zadd z at id) (exec (hset k id json) d) refl
        (exec-Stays R config.stream i f (hset k id json) d refl e)

  once-Kept : (now : ℤ) (job : Job) (d : Db) → Kept d → Kept (enqueue_once C b now job d).1
  unfolding enqueue_once
  once-Kept now job d e = enqueue_once-Stays R config.stream i f _ _ _ _ _ _ _ _ d e

  enqueue_script-Kept :
      (now : ℤ) (job : Job) (d : Db) → Kept d → Kept (enqueue_script C b now job d).1
  unfolding enqueue_script schedule_tx add_now
  enqueue_script-Kept now job d e = elim (Bool-cases (not (str_eq job.idempotency_key ""))) [
    | inl keyed ↦ rw keyed (once-Kept now job d e)
    | inr plain ↦ elim (Bool-cases (ltb_ℤ now job.available_at)) [
      | inl later ↦ rw (plain, later) (scheduled-Kept _ _ _ _ _ d e)
      | inr soon ↦ rw (plain, soon) (exec-Stays R config.stream i f (xadd _ _) d refl e)
    ]
  ]

  batch_item-Kept : (now : ℤ) (job : Job) (d : Db) → Kept d → Kept (batch_item C b now job d).1
  unfolding batch_item add_now
  batch_item-Kept now job d e =
      elim (Bool-cases (str_eq job.idempotency_key "" && eq_ℤ (Enqueue.run_at now job) (pos 0))) [
        | inl due ↦ rw due (exec-Stays R config.stream i f (xadd _ _) d refl e)
        | inr not_due ↦ elim (Bool-cases (not (str_eq job.idempotency_key ""))) [
          | inl keyed ↦ rw (not_due, keyed) (once-Kept now job d e)
          | inr plain ↦ rw (not_due, plain) (scheduled-Kept _ _ _ _ _ d e)
        ]
      ]

  batch_tx-Kept : (now : ℤ) (jobs : List Job) (d : Db) → Kept d → Kept (batch_tx C b now jobs d).1
  unfolding batch_tx
  batch_tx-Kept now [] d e = e
  batch_tx-Kept now (job ∷ jobs) d e =
      batch_tx-Kept now jobs (batch_item C b now job d).1 (batch_item-Kept now job d e)

  -- A fenced call whose action keeps the entry.
  owned-Kept :
      (net : Net) (l : Lease) (action : Db → Db) (d : Db)
      → Kept d
      → Kept (action d)
      → Kept (fenced net (if_owned R config.stream config.group l action) d).1
  unfolding fenced
  owned-Kept net l action d e h =
      call-Kept C b i f net _ d e
        (if_owned-Stays R config.stream i f config.stream config.group l action d h e)

  spared :
      (action : Lease → Db → Db) (jobs : List Job)
      → ((l : Lease) → str_eq l.message_id i ≡ false → (d : Db) → Kept d → Kept (action l d))
      → any_of i jobs ≡ false
      → All (λ l. (d : Db) → Kept d → Kept (action l d)) (leases jobs)
  spared action [] h none_of = tt
  spared action (j ∷ js) h none_of = (h j.lease (ground arith), spared action js h (ground arith))

  renewed_each :
      (action : Lease → Db → Db) (jobs : List Job)
      → ((l : Lease) (d : Db) → Kept d → Kept (action l d))
      → All (λ l. (d : Db) → Kept d → Kept (action l d)) (leases jobs)
  renewed_each action [] h = tt
  renewed_each action (j ∷ js) h = (h j.lease, renewed_each action js h)

  renew-Kept :
      (l : Lease) (d : Db)
      → Kept d
      → Kept (renew R config.stream config.group l.message_id l.owner d)
  unfolding renew
  renew-Kept l d e = exec-Stays R config.stream i f (xclaim_justid _ _ _ _) d refl e

  module _ (readable : (l : Lease) → (j : Job) × (parse_job C i f l ≡ ok j)) where
    act-Kept : (a : Action) (d : Db) → settles i a ≡ false → Kept d → Kept (act C b a d)
    unfolding act Enqueue.enqueue enqueue_batch promote_retries deregister extend extend_batch ack
        ack_batch retry dead_letter ack_script extend_script retry_script dead_letter_script
        ack_batch_script extend_batch_script
    act-Kept (enqueues net now fresh job) d h e =
        call-Kept C b i f net _ d e (enqueue_script-Kept now (with_id fresh job) d e)
    act-Kept (enqueues_batch net now jobs) d h e =
        call-Kept C b i f net _ d e (batch_tx-Kept now (with_ids jobs) d e)
    act-Kept (claims net each now worker limit) d h e =
        claim_ready-Kept C b i f readable net each now worker limit d e
    act-Kept (blocks block each worker limit) d h e =
        claim_blocking-Kept C b i f readable block each worker limit d e
    act-Kept (recovers cursor pruned_at pruned net each now visibility worker limit) d h e =
        recover_expired-Kept C (record b { recover_cursor = cursor; last_prune = pruned_at }) i f
          readable pruned net each now visibility worker limit d e
    act-Kept (promotes net now limit) d h e =
        call-Kept C b i f net _ d e
          (promote-Stays R config.stream i f config.retry_key retry_data config.stream _ limit d e)
    act-Kept (deregisters net worker) d h e =
        call-Kept C b i f net _ d e
          (deregister-Stays R config.stream i f config.stream config.group worker d e)
    act-Kept (extends net job) d h e = owned-Kept net job.lease _ d e (renew-Kept job.lease d e)
    act-Kept (extends_batch net jobs) d h e = call-Kept C b i f net _ d e (
        each_owned-Stays R config.stream i f config.stream config.group _ (leases jobs) d
          (renewed_each _ jobs renew-Kept) e)
    act-Kept (acks net job) d h e =
        owned-Kept net job.lease _ d e (settle-Stays R config.stream i f _ _ _ d h e)
    act-Kept (acks_batch net jobs) d h e = call-Kept C b i f net _ d e (
        each_owned-Stays R config.stream i f config.stream config.group _ (leases jobs) d
          (spared _ jobs (λ l other d' e'. settle-Stays R config.stream i f _ _ _ d' other e') h) e)
    act-Kept (retries net job at) d h e =
        owned-Kept net job.lease _ d e
          (settle-Stays R config.stream i f _ _ _ _ h (scheduled-Kept _ _ _ _ _ d e))
    act-Kept (dead_letters net now job reason) d h e = owned-Kept net job.lease _ d e (
        settle-Stays R config.stream i f _ _ _ _ h
          (exec-Stays R config.stream i f (xadd _ _) d refl e))

    -- For an entry that reads back as a job whatever its lease, and any calls of any clients in
    -- any order, however the network treats them: as long as none of them is an ack, a retry or a
    -- dead letter with a lease of this very entry, alone or in a batch, the entry stays in the
    -- stream with its fields.
    pub act_all-Stays :
        (calls : List Action) (d : Db)
        → All (λ a. settles i a ≡ false) calls
        → Stays R config.stream i f d
        → Stays R config.stream i f (act_all C b calls d)
    unfolding act_all
    act_all-Stays [] d h e = e
    act_all-Stays (a ∷ calls) d (h, hs) e = act_all-Stays calls (act C b a d) hs (act-Kept a d h e)
