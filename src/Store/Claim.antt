-- ===== src/Store/Claim.antt =====
-- redisstream/store.go: Claim, RecoverExpired, and the upkeep of the group.
pub mod Answers
pub mod Bounded
pub mod Held
pub mod Limits
pub mod Kept
pub mod Return
use Prim.Native.String.{◌++◌ as append}
use dist_tasks_go.Base.{
  ℕ, ◌*◌, String, Bool, true, false, Option, none, some, List, [], ◌∷◌, ℤ, pos, ◌-ℤ◌, leb_ℤ, min_ℤ,
  floor_div, str_eq, if◌then◌else◌, length,
}
use dist_tasks_go.Queue.Job.{Job, Lease, Error, wrapped, Result, ok, err}
use dist_tasks_go.Redis.{Redis, Fields, Entry}
use dist_tasks_go.Store.Scripts.{
  dead_letter_script, promote, claim_script, recover_script, deregister_script,
  prune_consumers_script,
}
use dist_tasks_go.Store.Fields.{Codec, parse_job}
use dist_tasks_go.Store.Client.{Net, Store, call, fenced, unix_milli, milliseconds}

-- How a blocking read ends: with entries, with nothing, past its deadline (having delivered or not),
-- or with another error.
pub data Block : Type 0 where
  served nothing : Block
  abandoned : Bool → Block
  failed : Error → Block

pub record Stats : Type 0 where
  pub stream_length : ℤ
  pub in_flight : ℤ
  pub dead_letter_depth : ℤ
  pub retry_scheduled : ℤ

-- The values of the fields but `reason`, which is the store's own.
abbrev others : Fields → Fields
others [] = []
others ((k, v) ∷ fs) = if str_eq k "reason" then others fs else (k, v) ∷ others fs

abbrev cons_some {ℓ} : {A : Type ℓ} → Option A → List A → List A
cons_some none xs = xs
cons_some (some x) xs = x ∷ xs

module _ {R : Redis} (C : Codec R) (b : Store) where
  open R use {Db, xreadgroup}
  open b use {config, retry_data}

  -- An entry that cannot be parsed goes to the dead letters, with the error and its fields. An error of that is
  -- logged only.
  quarantine : Net → Lease → Fields → Result Job → Db → Option Job × Db
  unfolding fenced
  quarantine net lease vals (ok job) d = (some job, d)
  quarantine net lease vals (err e) d = (
    none,
    (fenced net
        (dead_letter_script R config.stream config.group config.dead_letter lease
          (("reason", append "malformed entry: " (C.error_text e)) ∷ others vals))
        d).1,
  )

  unfoldable pub parse_or_quarantine : Net → String → Fields → Lease → Db → Option Job × Db
  unfolding quarantine
  parse_or_quarantine net msg_id vals lease d =
      quarantine net lease vals (parse_job C msg_id vals lease) d

  -- The entries of a reply, with their tokens, become jobs. `net` says how each quarantine fares.
  unfoldable pub parse_entries :
      (String → Net) → String → List (String × Fields × ℕ) → Db → List Job × Db
  unfolding parse_or_quarantine
  parse_entries net worker [] d = ([], d)
  parse_entries net worker ((id, vals, token) ∷ es) d =
      let lease : Lease = record {
        message_id = id;
        owner = worker;
        token = pos token;
        partition = pos 0;
      } in
      let first = parse_or_quarantine (net id) id vals lease d in
      let rest = parse_entries net worker es first.1 in (cons_some first.0 rest.0, rest.1)

  abbrev pub with_token : ℕ → List Entry → List (String × Fields × ℕ)
  with_token n [] = []
  with_token n ((id, vals) ∷ es) = (id, vals, n) ∷ with_token n es

  parse_claimed : (String → Net) → String → Result (List Entry) × Db → Result (List Job) × Db
  unfolding parse_entries
  parse_claimed net worker (err e, d) = (err (wrapped "claim" e), d)
  parse_claimed net worker (ok es, d) =
      let r = parse_entries net worker (with_token 1 es) d in (ok r.0, r.1)

  unfoldable pub claim_ready : Net → (String → Net) → ℤ → String → ℤ → Db → Result (List Job) × Db
  unfolding call parse_claimed
  claim_ready net each now worker limit d = parse_claimed each worker (
      call net
        (claim_script R config.stream config.retry_key retry_data config.group worker limit
          (unix_milli now))
        d)

  unfoldable pub claim_blocking : Block → (String → Net) → String → ℤ → Db → Result (List Job) × Db
  unfolding parse_claimed
  claim_blocking served each worker limit d =
      let r = xreadgroup config.stream config.group worker limit d in
      parse_claimed each worker (ok r.0, r.1)
  claim_blocking nothing each worker limit d = (ok [], d)
  claim_blocking (abandoned true) each worker limit d =
      (ok [], (xreadgroup config.stream config.group worker limit d).1)
  claim_blocking (abandoned false) each worker limit d = (ok [], d)
  claim_blocking (failed e) each worker limit d = (err (wrapped "xreadgroup" e), d)

  -- Between the two reads of a Claim the database goes on as `meanwhile`.
  then_block : ℤ → Result (List Job) × Db → (Db → Result (List Job) × Db) → Result (List Job) × Db
  then_block wait (err e, d) block = (err e, d)
  then_block wait (ok (j ∷ js), d) block = (ok (j ∷ js), d)
  then_block wait (ok [], d) block = if leb_ℤ wait (pos 0) then (ok [], d) else block d

  unfoldable pub claim :
      Net → Block → (String → Net) → (Db → Db) → ℤ → String → ℤ → ℤ → Db → Result (List Job) × Db
  unfolding then_block claim_ready claim_blocking
  claim net block each meanwhile now worker limit wait d =
      then_block wait (claim_ready net each now worker limit d)
        λ e. claim_blocking block each worker limit (meanwhile e)

  recovered :
      (String → Net)
      → String
      → Store
      → Result (String × List (String × Fields × ℕ)) × Db
      → Result (List Job) × Store × Db
  unfolding parse_entries
  recovered each worker s (err e, d) = (err e, s, d)
  recovered each worker s (ok (cursor, es), d) =
      let r = parse_entries each worker es d in (ok r.0, record s { recover_cursor = cursor }, r.1)

  abbrev minute : ℕ
  minute = 60 * 1_000_000_000

  -- RecoverExpired: pruning first, if it is time, and then the scan from the cursor. `pruned` is how
  -- the call for pruning fares, whose error is logged only.
  unfoldable pub recover_expired :
      Net → Net → (String → Net) → ℤ → ℤ → String → ℤ → Db → Result (List Job) × Store × Db
  unfolding call recovered
  recover_expired pruned net each now visibility worker limit d =
      if leb_ℤ limit (pos 0)
      then (ok [], b, d)
      else (let prune =
            leb_ℤ (min_ℤ (pos minute) (halved config.consumer_idle_timeout))
              (now -ℤ b.last_prune) in
          let s = if prune then record b { last_prune = now } else b in
          let e =
            if prune
            then (call pruned
                (prune_consumers_script R config.stream config.group
                  (milliseconds config.consumer_idle_timeout))
                d).1
            else d in
          recovered each worker s (
            call net
              (recover_script R config.stream config.group worker (milliseconds visibility) limit
                b.recover_cursor)
              e))
    where
      halved : ℤ → ℤ
      halved z = floor_div z 2

  unfoldable pub deregister : Net → String → Db → Result ℕ × Db
  unfolding call
  deregister net worker = call net (deregister_script R config.stream config.group worker)

  unfoldable pub promote_retries : Net → ℤ → ℤ → Db → Result ℕ × Db
  unfolding call
  promote_retries net now limit =
      call net (promote R config.retry_key retry_data config.stream (unix_milli now) limit)

  -- One pipelined read of the four gauges.
  unfoldable pub stats : Option Error → Db → Result Stats
  stats (some e) d = err e
  stats none d = ok (record {
    stream_length = pos (length (R.stream d config.stream));
    in_flight = R.pending_count d config.stream config.group;
    dead_letter_depth = pos (length (R.stream d config.dead_letter));
    retry_scheduled = R.zcard d config.retry_key;
  })
