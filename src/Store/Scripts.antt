-- ===== src/Store/Scripts.antt =====
-- redisstream/scripts.go: the Lua scripts, over a Redis server. KEYS and ARGV are arguments; the
-- arguments that name a delivery (message ID, owner, token) are a lease.
pub mod Fencing
pub mod Delivery
pub mod FirstDelivery
pub mod Promotion
pub mod Dedupe
pub mod Stays
pub mod Found
use dist_tasks_go.Base.{
  ℕ, zero, suc, String, Bool, true, false, ◌&&◌, ◌||◌, Option, none, some, List, [], ◌∷◌, ◌++◌, ℤ,
  pos, ◌-ℤ◌, eq_ℤ, ltb_ℤ, leb_ℤ, leb, ◌==◌, str_eq, if◌then◌else◌, length,
}
use dist_tasks_go.Queue.Job.{Lease}
use dist_tasks_go.Redis.{
  Redis, Command, xadd, xack, xdel, xclaim_justid, delconsumer, hset, hdel, zadd, zrem, set_px,
  Pending, Fields, Entry, is_some,
}
use dist_tasks_go.Redis.Script.{Script, ◌>>=◌, ◌>>◌, pure, raise, read, write, run}

-- p[1][2] == owner and p[1][4] == tonumber (token)
unfoldable pub holds : String → ℤ → Option Pending → Bool
holds owner token none = false
holds owner token (some p) = str_eq p.owner owner && eq_ℤ (pos p.deliveries) token

module _ (R : Redis) where
  open R use {
    Db, exec, stream, pending, hash, text, cjson_decode, due, held_by, consumers, xreadgroup,
    xautoclaim,
  }

  do_ : Command → Script Db (Unit {0})
  do_ c = write (exec c)

  unfoldable pub owns : String → String → Lease → Db → Bool
  unfolding holds
  owns s g l d = holds l.owner l.token (pending d s g l.message_id)

  unfoldable pub settle : String → String → String → Db → Db
  settle s g id d = exec (xdel s id) (exec (xack s g id) d)

  unfoldable pub renew : String → String → String → String → Db → Db
  renew s g id owner d = exec (xclaim_justid s g owner id) d

  -- `if not owns_argv (…) then return 0 end … return 1`
  unfoldable pub if_owned : String → String → Lease → (Db → Db) → Script Db ℕ
  if_owned s g l action = do
    mine ← read (owns s g l)
    if mine then (do write action; pure 1) else pure 0

  unfoldable pub ack_script : String → String → Lease → Script Db ℕ
  unfolding if_owned settle
  ack_script s g l = if_owned s g l (settle s g l.message_id)

  unfoldable pub extend_script : String → String → Lease → Script Db ℕ
  unfolding if_owned renew
  extend_script s g l = if_owned s g l (renew s g l.message_id l.owner)

  -- The schedule is a sorted set z with a hash h of the jobs' fields.
  unfoldable pub retry_script :
      String → String → String → String → Lease → ℤ → String → String → Script Db ℕ
  unfolding if_owned settle
  retry_script s g z h l run_at job_id json =
      if_owned s g l
        λ d. settle s g l.message_id (exec (zadd z run_at job_id) (exec (hset h job_id json) d))

  unfoldable pub dead_letter_script : String → String → String → Lease → Fields → Script Db ℕ
  unfolding if_owned settle
  dead_letter_script s g dead l fields =
      if_owned s g l λ d. settle s g l.message_id (exec (xadd dead fields) d)

  -- each_owned: one 1 or 0 for each delivery, in order.
  unfoldable pub each_owned : String → String → (Lease → Db → Db) → List Lease → Script Db (List ℕ)
  each_owned s g action [] = pure []
  each_owned s g action (l ∷ ls) = do
    mine ← read (owns s g l)
    if mine then write (action l) else pure tt
    rest ← each_owned s g action ls
    pure ((if mine then 1 else 0) ∷ rest)

  unfoldable pub ack_batch_script : String → String → List Lease → Script Db (List ℕ)
  unfolding each_owned settle
  ack_batch_script s g = each_owned s g λ l. settle s g l.message_id

  unfoldable pub extend_batch_script : String → String → List Lease → Script Db (List ℕ)
  unfolding each_owned renew
  extend_batch_script s g = each_owned s g λ l. renew s g l.message_id l.owner

  -- cjson.decode raises an error on what is no JSON.
  xadd_decoded : String → Option Fields → Script Db (Unit {0})
  xadd_decoded s none = raise
  xadd_decoded s (some fields) = write (exec (xadd s fields))

  unfoldable pub xadd_json : String → String → Script Db (Unit {0})
  unfolding xadd_decoded
  xadd_json s json = xadd_decoded s (cjson_decode json)

  xadd_known : String → Option String → Script Db (Unit {0})
  unfolding xadd_json
  xadd_known s none = pure tt
  xadd_known s (some json) = xadd_json s json

  unfoldable pub promote_one : String → String → String → String → Script Db (Unit {0})
  unfolding xadd_known
  promote_one z h s id = do
    json ← read (λ d. hash d h id)
    xadd_known s json
    write (exec (hdel h id))
    write (exec (zrem z id))

  unfoldable pub promote_ids : String → String → String → List String → Script Db (Unit {0})
  promote_ids z h s [] = pure tt
  promote_ids z h s (id ∷ ids) = do promote_one z h s id; promote_ids z h s ids

  unfoldable pub promote : String → String → String → ℤ → ℤ → Script Db ℕ
  unfolding promote_ids
  promote z h s now limit = do
    ids ← read (λ d. due d z now limit)
    promote_ids z h s ids
    pure (length ids)

  unfoldable pub claim_script :
      String → String → String → String → String → ℤ → ℤ → Script Db (List Entry)
  unfolding promote
  claim_script s z h g consumer count now = do
    promote z h s now (pos 100)
    run (xreadgroup s g consumer count)

  deliveries_of : Option Pending → Script Db ℕ
  deliveries_of none = raise
  deliveries_of (some p) = pure p.deliveries

  -- The delivery count of each entry taken over; p[1] of an empty reply is an error.
  unfoldable pub with_counts : String → String → List Entry → Script Db (List (String × Fields × ℕ))
  unfolding deliveries_of
  with_counts s g [] = pure []
  with_counts s g ((id, fields) ∷ es) = do
    p ← read (λ d. pending d s g id)
    n ← deliveries_of p
    rest ← with_counts s g es
    pure ((id, fields, n) ∷ rest)

  -- The scan: at most n more rounds from the cursor, until `want` are found or the list is through.
  unfoldable pub recover_rounds :
      ℕ
      → String
      → String
      → String
      → ℤ
      → ℤ
      → String
      → List (String × Fields × ℕ)
      → Script Db (String × List (String × Fields × ℕ))
  unfolding with_counts
  recover_rounds zero s g consumer ms want cursor out = pure (cursor, out)
  recover_rounds (suc n) s g consumer ms want cursor out = do
    (next, es) ← run (xautoclaim s g consumer ms cursor (want -ℤ pos (length out)))
    found ← with_counts s g es
    let rest = recover_rounds n s g consumer ms want next (out ++ found)
    if leb_ℤ want (pos (length (out ++ found))) || str_eq next "0-0"
        then pure (next, out ++ found)
        else rest

  unfoldable pub recover_script :
      String → String → String → ℤ → ℤ → String → Script Db (String × List (String × Fields × ℕ))
  unfolding recover_rounds
  recover_script s g consumer ms want cursor = recover_rounds 10 s g consumer ms want cursor []

  unfoldable pub deregister_script : String → String → String → Script Db ℕ
  unfolding do_
  deregister_script s g consumer = do
    busy ← read (λ d. held_by d s g consumer)
    if busy then pure 0 else (do do_ (delconsumer s g consumer); pure 1)

  -- `removed` counts; the list of consumers is read once, before the first removal.
  unfoldable pub prune_each : String → String → ℤ → List (String × ℕ × ℤ) → ℕ → Script Db ℕ
  unfolding do_
  prune_each s g ms [] removed = pure removed
  prune_each s g ms ((name, held, idle) ∷ cs) removed = do
    let stale = held == 0 && leb_ℤ ms idle
    if stale then do_ (delconsumer s g name) else pure tt
    prune_each s g ms cs (if stale then suc removed else removed)

  unfoldable pub prune_consumers_script : String → String → ℤ → Script Db ℕ
  unfolding prune_each
  prune_consumers_script s g ms = do cs ← read (λ d. consumers d s g); prune_each s g ms cs 0

  -- tonumber (ARGV[3]) > 0: the job waits in the schedule.
  store_new : String → String → String → String → ℤ → String → Script Db (Unit {0})
  unfolding do_ xadd_json
  store_new s z h id run_at json =
      if ltb_ℤ (pos 0) run_at
      then (do do_ (hset h id json); do_ (zadd z run_at id))
      else xadd_json s json

  -- SET key id PX window, which Redis refuses where the window is not positive.
  set_expiring : String → String → ℤ → Script Db (Unit {0})
  unfolding do_
  set_expiring key id window = if ltb_ℤ (pos 0) window then do_ (set_px key id window) else raise

  enqueue_new : String → String → String → String → String → ℤ → ℤ → String → Script Db String
  unfolding set_expiring store_new
  enqueue_new key s z h id window run_at json = do
    set_expiring key id window
    store_new s z h id run_at json
    pure id

  enqueue_known :
      Option String → String → String → String → String → String → ℤ → ℤ → String → Script Db String
  unfolding enqueue_new
  enqueue_known (some existing) key s z h id window run_at json = pure existing
  enqueue_known none key s z h id window run_at json = enqueue_new key s z h id window run_at json

  -- The dedupe key, the stream, the schedule and its hash; job ID, window, run-at and fields.
  unfoldable pub enqueue_once_script :
      String → String → String → String → String → ℤ → ℤ → String → Script Db String
  unfolding enqueue_known
  enqueue_once_script key s z h id window run_at json = do
    existing ← read (λ d. text d key)
    enqueue_known existing key s z h id window run_at json
