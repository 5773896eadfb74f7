-- ===== src/Store/Claim/Kept/Calls.antt =====
-- redisstream/store.go: an entry that can be read stays in the stream through claims and recoveries.
use dist_tasks_go.Base.{
  ℕ, String, ◌≡◌, Bool, true, false, Option, none, some, List, [], ◌∷◌, ℤ, pos, if◌then◌else◌, All,
  leb_ℤ,
}
use dist_tasks_go.Queue.Job.{Job, Lease, Result, ok, err}
use dist_tasks_go.Redis.{Redis, Fields, Entry}
use dist_tasks_go.Redis.Script.{after, run}
use dist_tasks_go.Store.Scripts.{claim_script, recover_script, promote}
use dist_tasks_go.Store.Scripts.Stays.{Stays, promote-Stays, prune-Stays}
use dist_tasks_go.Store.Fields.{Codec, parse_job}
use dist_tasks_go.Store.Client.{
  Net, delivered, refused, lost, Store, call, unix_milli, milliseconds,
}
use dist_tasks_go.Store.Claim.{
  with_token, parse_claimed, claim_ready, Block, served, nothing, abandoned, failed, claim_blocking,
  recovered, recover_expired,
}
use dist_tasks_go.Store.Scripts.Found.{Agrees, AllAgree, recover-Agree, read-Agree}
use dist_tasks_go.Store.Claim.Kept.{call-Kept, entries-Kept}

module _ {R : Redis} (C : Codec R) (b : Store) (i : String) (f : Fields)
    (readable : (l : Lease) → (j : Job) × (parse_job C i f l ≡ ok j)) where
  open R use {Db}
  open b use {config, retry_data}

  abbrev Kept : Db → Type 0
  Kept d = Stays R config.stream i f d

  with_token-Agree :
      (n : ℕ) (es : List Entry)
      → All (λ x. Agrees R config.stream i f x.0 x.1) es
      → AllAgree R config.stream i f (with_token C b n es)
  with_token-Agree n [] h = tt
  with_token-Agree n (x ∷ es) (h, hs) = (h, with_token-Agree n es hs)

  -- What a call found agrees with the entry, and the entry is there.
  abbrev Sound : Result (List Entry) × Db → Type 0
  Sound (err e, d) = Kept d
  Sound (ok es, d) = Kept d × All (λ x. Agrees R config.stream i f x.0 x.1) es

  claimed-Kept :
      (each : String → Net) (worker : String) (r : Result (List Entry) × Db)
      → Sound r
      → Kept (parse_claimed C b each worker r).1
  unfolding parse_claimed
  claimed-Kept each worker (err e, d) h = h
  claimed-Kept each worker (ok es, d) (e, h) =
      entries-Kept C b i f readable each worker (with_token C b 1 es) d (with_token-Agree 1 es h) e

  Sound-Kept : (r : Result (List Entry) × Db) → Sound r → Kept r.1
  Sound-Kept (err e, d) h = h
  Sound-Kept (ok es, d) h = h.0

  read_after :
      (worker : String) (limit : ℤ) (r : Option ℕ × Db) (d : Db)
      → Kept r.1
      → Sound (
          call delivered
            (λ _. after r (λ _. run (R.xreadgroup config.stream config.group worker limit)))
            d)
  unfolding call
  read_after worker limit (none, d') d e = e
  read_after worker limit (some n, d') d e =
      read-Agree R config.stream i f config.group worker limit d' e

  script-Sound :
      (net : Net) (worker : String) (limit now : ℤ) (d : Db)
      → Kept d
      → Sound (
          call net
            (claim_script R config.stream config.retry_key retry_data config.group worker limit now)
            d)
  unfolding call claim_script
  script-Sound net worker limit now d e = by_net net
    where
      promoted : Option ℕ × Db
      promoted = promote R config.retry_key retry_data config.stream now (pos 100) d

      read : Sound (
          call delivered
            (λ _. after promoted (λ _. run (R.xreadgroup config.stream config.group worker limit)))
            d)
      read = read_after worker limit promoted d (
          promote-Stays R config.stream i f config.retry_key retry_data config.stream now (pos 100)
            d e)

      by_net :
          (net : Net)
          → Sound (
              call net
                (claim_script R config.stream config.retry_key retry_data config.group worker limit
                  now)
                d)
      by_net delivered = read
      by_net (refused x) = e
      by_net (lost x) = Sound-Kept _ read

  pub claim_ready-Kept :
      (net : Net) (each : String → Net) (now : ℤ) (worker : String) (limit : ℤ) (d : Db)
      → Kept d
      → Kept (claim_ready C b net each now worker limit d).1
  unfolding claim_ready
  claim_ready-Kept net each now worker limit d e =
      claimed-Kept each worker _ (script-Sound net worker limit (unix_milli now) d e)

  pub claim_blocking-Kept :
      (block : Block) (each : String → Net) (worker : String) (limit : ℤ) (d : Db)
      → Kept d
      → Kept (claim_blocking C b block each worker limit d).1
  unfolding claim_blocking
  claim_blocking-Kept served each worker limit d e =
      let r = R.xreadgroup config.stream config.group worker limit d in
      claimed-Kept each worker (ok r.0, r.1)
        (read-Agree R config.stream i f config.group worker limit d e)
  claim_blocking-Kept nothing each worker limit d e = e
  claim_blocking-Kept (abandoned true) each worker limit d e =
      (read-Agree R config.stream i f config.group worker limit d e).0
  claim_blocking-Kept (abandoned false) each worker limit d e = e
  claim_blocking-Kept (failed x) each worker limit d e = e

  recovered-Kept :
      (net : Net) (each : String → Net) (worker : String) (ms limit : ℤ) (cur : String) (s : Store)
      (d : Db)
      → Kept d
      → Kept
          (recovered C b each worker s
            (call net (recover_script R config.stream config.group worker ms limit cur) d)).2
  unfolding recovered call
  recovered-Kept net each worker ms limit cur s d e =
      let (r, end, eq, stay, agree) =
        recover-Agree R config.stream i f config.group worker ms limit cur d e in
      by_net net r end eq stay agree
    where
      by_net :
          (net : Net) (r : String × List (String × Fields × ℕ)) (end : Db)
          → recover_script R config.stream config.group worker ms limit cur d ≡ (some r, end)
          → Kept end
          → AllAgree R config.stream i f r.1
          → Kept
              (recovered C b each worker s
                (call net (recover_script R config.stream config.group worker ms limit cur) d)).2
      by_net delivered r end eq stay agree =
          rw eq (entries-Kept C b i f readable each worker r.1 end agree stay)
      by_net (refused x) r end eq stay agree = e
      by_net (lost x) r end eq stay agree = rw eq stay

  if_Kept :
      (t : Bool) (x y : Result (List Job) × Store × Db)
      → Kept x.2
      → Kept y.2
      → Kept (if t then x else y).2
  if_Kept true x y h k = h
  if_Kept false x y h k = k

  if_pruned : (t : Bool) (x y : Db) → Kept x → Kept y → Kept (if t then x else y)
  if_pruned true x y h k = h
  if_pruned false x y h k = k

  pub recover_expired-Kept :
      (pruned net : Net) (each : String → Net) (now visibility : ℤ) (worker : String) (limit : ℤ)
      (d : Db)
      → Kept d
      → Kept (recover_expired C b pruned net each now visibility worker limit d).2
  unfolding recover_expired
  recover_expired-Kept pruned net each now visibility worker limit d e =
      if_Kept (leb_ℤ limit (pos 0)) _ _ e (
        recovered-Kept net each worker (milliseconds visibility) limit b.recover_cursor _ _ (
          if_pruned _ _ _
            (call-Kept C b i f pruned _ d e
              (prune-Stays R config.stream i f config.stream config.group _ d e))
            e))
