-- ===== src/Store/Actions.antt =====
-- redisstream/store.go: what the clients of one queue do, call by call, each with what it meets in the
-- world. A Claim that waits is two calls, between which others come.
pub mod Unsettled
use dist_tasks_go.Base.{ℕ, String, Bool, true, false, ◌||◌, Option, List, [], ◌∷◌, ℤ, str_eq}
use dist_tasks_go.Queue.Job.{Job}
use dist_tasks_go.Redis.{Redis}
use dist_tasks_go.Store.Fields.{Codec}
use dist_tasks_go.Store.Client.{
  Net, Config, Store, ack, extend, retry, dead_letter, ack_batch, extend_batch,
}
use dist_tasks_go.Store.Enqueue.{enqueue, enqueue_batch}
use dist_tasks_go.Store.Claim.{
  Block, claim_ready, claim_blocking, recover_expired, deregister, promote_retries,
}

-- A recovery comes with the cursor and the time of pruning of its client's store, and with how the
-- pruning fares.
pub data Action : Type 0 where
  enqueues : Net → ℤ → String → Job → Action
  enqueues_batch : Net → ℤ → List (String × Job) → Action
  claims : Net → (String → Net) → ℤ → String → ℤ → Action
  blocks : Block → (String → Net) → String → ℤ → Action
  recovers : String → ℤ → Net → Net → (String → Net) → ℤ → ℤ → String → ℤ → Action
  promotes : Net → ℤ → ℤ → Action
  deregisters : Net → String → Action
  extends : Net → Job → Action
  extends_batch : Net → List Job → Action
  acks : Net → Job → Action
  acks_batch : Net → List Job → Action
  retries : Net → Job → ℤ → Action
  dead_letters : Net → ℤ → Job → String → Action

-- The call settles a delivery of the entry i, if its lease is good.
abbrev pub any_of : String → List Job → Bool
any_of i [] = false
any_of i (j ∷ js) = str_eq j.lease.message_id i || any_of i js

abbrev pub settles : String → Action → Bool
settles i (acks net job) = str_eq job.lease.message_id i
settles i (acks_batch net jobs) = any_of i jobs
settles i (retries net job at) = str_eq job.lease.message_id i
settles i (dead_letters net now job reason) = str_eq job.lease.message_id i
settles i _ = false

module _ {R : Redis} (C : Codec R) (b : Store) where
  open R use {Db}

  unfoldable pub act : Action → Db → Db
  act (enqueues net now fresh job) d = (enqueue C b net now fresh job d).1
  act (enqueues_batch net now jobs) d = (enqueue_batch C b net now jobs d).1
  act (claims net each now worker limit) d = (claim_ready C b net each now worker limit d).1
  act (blocks block each worker limit) d = (claim_blocking C b block each worker limit d).1
  act (recovers cursor pruned_at pruned net each now visibility worker limit) d =
      (recover_expired C (record b { recover_cursor = cursor; last_prune = pruned_at }) pruned net
        each now visibility worker limit d).2
  act (promotes net now limit) d = (promote_retries C b net now limit d).1
  act (deregisters net worker) d = (deregister C b net worker d).1
  act (extends net job) d = (extend C b net job d).1
  act (extends_batch net jobs) d = (extend_batch C b net jobs d).1
  act (acks net job) d = (ack C b net job d).1
  act (acks_batch net jobs) d = (ack_batch C b net jobs d).1
  act (retries net job at) d = (retry C b net job at d).1
  act (dead_letters net now job reason) d = (dead_letter C b net now job reason d).1

  unfoldable pub act_all : List Action → Db → Db
  unfolding act
  act_all [] d = d
  act_all (a ∷ more) d = act_all more (act a d)
