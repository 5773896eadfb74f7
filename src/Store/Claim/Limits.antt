-- ===== src/Store/Claim/Limits.antt =====
-- redisstream/store.go: no Claim and no RecoverExpired hands out more than it is asked for.
use dist_tasks_go.Base.{
  if◌then◌else◌, ℕ, zero, suc, ◌≤◌, String, Option, none, some, Bool, List, false, [], ◌∷◌, ℤ, pos,
  leb_ℤ, arith, length, Bool-cases, inl, inr, true, ◌≡◌, refl, ap,
}
use dist_tasks_go.Queue.Job.{Job, Lease, Result, ok, err}
use dist_tasks_go.Redis.{Redis, Fields, Entry}
use dist_tasks_go.Redis.Script.{after, run}
use dist_tasks_go.Store.Scripts.{claim_script, recover_script, promote}
use dist_tasks_go.Store.Fields.{Codec}
use dist_tasks_go.Store.Client.{
  Net, delivered, refused, lost, Store, call, unix_milli, milliseconds,
}
use dist_tasks_go.Store.Claim.{
  cons_some, parse_or_quarantine, parse_entries, with_token, parse_claimed, claim_ready, Block,
  served, nothing, abandoned, failed, claim_blocking, then_block, claim, recovered, recover_expired,
}
use dist_tasks_go.Store.Claim.Bounded.{recover_script_few}

-- A Go function that returns a slice and an error.
abbrev pub listed {ℓ} : {A : Type ℓ} → Result (List A) → List A
listed (ok xs) = xs
listed (err e) = []

length-cons_some :
    {A : Type 0} (x : Option A) (xs : List A) → length (cons_some x xs) ≤ suc (length xs)
length-cons_some none xs = omega arith
length-cons_some (some x) xs = omega arith

module _ {R : Redis} (C : Codec R) (b : Store) (each : String → Net) (worker : String) where
  open R use {Db, xreadgroup, read_count}
  open b use {config, retry_data}

  length-parse_entries :
      (es : List (String × Fields × ℕ)) (d : Db)
      → length (parse_entries C b each worker es d).0 ≤ length es
  unfolding parse_entries
  length-parse_entries [] d = omega arith
  length-parse_entries ((id, vals, token) ∷ es) d =
      let lease : Lease = record {
        message_id = id;
        owner = worker;
        token = pos token;
        partition = pos 0;
      } in
      let first = parse_or_quarantine C b (each id) id vals lease d in
      let rest = length-parse_entries es first.1 in
      omega (arith, length-cons_some first.0 (parse_entries C b each worker es first.1).0, rest)

  length-with_token : (n : ℕ) (es : List Entry) → length (with_token C b n es) ≡ length es
  length-with_token n [] = refl
  length-with_token n (x ∷ es) = ap suc (length-with_token n es)

  abbrev Few : {A : Type 0} → ℕ → Result (List A) → Type 0
  Few n r = length (listed r) ≤ n

  claimed-Few :
      (n : ℕ) (r : Result (List Entry) × Db) → Few n r.0 → Few n (parse_claimed C b each worker r).0
  unfolding parse_claimed
  claimed-Few n (err e, d) h = h
  claimed-Few n (ok es, d) h =
      omega (arith, h, length-with_token 1 es, length-parse_entries (with_token C b 1 es) d)

  read-Few :
      (n : ℕ) (m : Option ℕ × Db) (d : Db)
      → Few
          (suc n)
          (call delivered
            (λ _. after m (λ _. run (xreadgroup config.stream config.group worker (pos (suc n)))))
            d).0
  unfolding call
  read-Few n (none, e) d = omega arith
  read-Few n (some k, e) d = read_count config.stream config.group worker n e

  claim_script-Few :
      (net : Net) (n : ℕ) (now : ℤ) (d : Db)
      → Few
          (suc n)
          (call net
            (claim_script R config.stream config.retry_key retry_data config.group worker
              (pos (suc n))
              now)
            d).0
  unfolding call claim_script
  claim_script-Few (refused e) n now d = omega arith
  claim_script-Few (lost e) n now d = omega arith
  claim_script-Few delivered n now d =
      unfold call in
      read-Few n (promote R config.retry_key retry_data config.stream now (pos 100) d) d

  claim_ready-Few :
      (net : Net) (n : ℕ) (now : ℤ) (d : Db)
      → Few (suc n) (claim_ready C b net each now worker (pos (suc n)) d).0
  unfolding claim_ready
  claim_ready-Few net n now d = claimed-Few (suc n) _ (claim_script-Few net n (unix_milli now) d)

  claim_blocking-Few :
      (block : Block) (n : ℕ) (d : Db)
      → Few (suc n) (claim_blocking C b block each worker (pos (suc n)) d).0
  unfolding claim_blocking
  claim_blocking-Few served n d =
      let r = xreadgroup config.stream config.group worker (pos (suc n)) d in
      claimed-Few (suc n) (ok r.0, r.1) (read_count config.stream config.group worker n d)
  claim_blocking-Few nothing n d = omega arith
  claim_blocking-Few (abandoned true) n d = omega arith
  claim_blocking-Few (abandoned false) n d = omega arith
  claim_blocking-Few (failed e) n d = omega arith

  then_block-Few :
      (n : ℕ) (wait : ℤ) (r : Result (List Job) × Db) (next : Db → Result (List Job) × Db)
      → Few n r.0
      → ((d : Db) → Few n (next d).0)
      → Few n (then_block C b wait r next).0
  unfolding then_block
  then_block-Few n wait (err e, d) next h k = h
  then_block-Few n wait (ok (j ∷ js), d) next h k = h
  then_block-Few n wait (ok [], d) next h k = elim (Bool-cases (leb_ℤ wait (pos 0))) [
    | inl e ↦ rw e h
    | inr e ↦ rw e (k d)
  ]

  if_Few :
      (n : ℕ) (t : Bool) (x y : Result (List Job) × Store × Db)
      → Few n x.0
      → Few n y.0
      → Few n (if t then x else y).0
  if_Few n true x y h k = h
  if_Few n false x y h k = k

  recovered-Few :
      (net : Net) (n : ℕ) (ms : ℤ) (cursor : String) (s : Store) (d : Db)
      → Few
          (suc n)
          (recovered C b each worker s (
            call net
              (recover_script R config.stream config.group worker ms (pos (suc n)) cursor)
              d)).0
  unfolding call recovered
  recovered-Few (refused e) n ms cursor s d = omega arith
  recovered-Few (lost e) n ms cursor s d = omega arith
  recovered-Few delivered n ms cursor s d =
      let (r, end, eq, few) =
        recover_script_few R config.stream config.group worker ms n cursor d in
      rw eq (omega (arith, few, length-parse_entries r.1 end))

  -- However the calls fare, and whatever happens to the database before the blocking read: a claim hands
  -- out at most as many jobs as it is asked for.
  pub length-claim :
      (net : Net) (block : Block) (meanwhile : Db → Db) (now : ℤ) (n : ℕ) (wait : ℤ) (d : Db)
      → Few (suc n) (claim C b net block each meanwhile now worker (pos (suc n)) wait d).0
  unfolding claim
  length-claim net block meanwhile now n wait d =
      then_block-Few (suc n) wait (claim_ready C b net each now worker (pos (suc n)) d) _
        (claim_ready-Few net n now d) λ e. claim_blocking-Few block n (meanwhile e)

  -- So does a recovery.
  pub length-recover_expired :
      (pruned net : Net) (now visibility : ℤ) (n : ℕ) (d : Db)
      → Few n (recover_expired C b pruned net each now visibility worker (pos n) d).0
  unfolding recover_expired
  length-recover_expired pruned net now visibility zero d = omega arith
  length-recover_expired pruned net now visibility (suc n) d =
      if_Few (suc n) (leb_ℤ (pos (suc n)) (pos 0)) _ _ (omega arith)
        (recovered-Few net n (milliseconds visibility) b.recover_cursor _ _)
