-- ===== src/Store/Claim/Answers.antt =====
-- redisstream/store.go: the jobs of a Claim and of a RecoverExpired.
use dist_tasks_go.Base.{
  ℕ, suc, ◌≤◌, String, ◌≡◌, refl, ◌∙◌, ap, inr, Bool, true, false, Option, none, some, List, [],
  ◌∷◌, ℤ, pos, ◌<ℤ◌, leb_ℤ, str_eq, if◌then◌else◌, arith, length, All,
}
use dist_tasks_go.Queue.Job.{Job, Lease, ok}
use dist_tasks_go.Redis.{Redis, Pending, Fields, Entry, entry}
use dist_tasks_go.Store.Scripts.{recover_script, owns}
use dist_tasks_go.Store.Fields.{Codec}
use dist_tasks_go.Store.Client.{Net, delivered, Store, call, unix_milli, milliseconds}
use dist_tasks_go.Store.Scripts.FirstDelivery.{FirstDelivered, claim-FirstDelivered}
use dist_tasks_go.Store.Scripts.Delivery.{Won, recover-AllWon}
use dist_tasks_go.Store.Scripts.Promotion.{IsJson}
use dist_tasks_go.Store.Claim.{
  parse_entries, with_token, claim_ready, parse_claimed, recover_expired, recovered,
}
use dist_tasks_go.Store.Claim.Held.{HeldOrMalformed, parse_entries-Held}

module _ {R : Redis} (C : Codec R) (b : Store) where
  open R use {Db, pending}
  open b use {config}

  abbrev Held : Lease → Db → Type 0
  Held lease d = owns R config.stream config.group lease d ≡ true

  module _ (apart : str_eq config.dead_letter config.stream ≡ false) where
    -- A claim's entries have no delivery but this one, so their fields and counts are what the
    -- stream has.
    first_of : Option Fields → Option (Fields × ℕ)
    first_of none = none
    first_of (some f) = some (f, 1)

    claimed-Known :
        (worker : String) (d e : Db) (es : List Entry)
        → All (FirstDelivered R config.stream config.group worker d e) es
        → All
            (λ x. first_of (entry x.0 (R.stream e config.stream)) ≡ some (x.1, x.2))
            (with_token C b 1 es)
    unfolding first_of
    claimed-Known worker d e [] h = tt
    claimed-Known worker d e (x ∷ es) ((_, _, there), hs) =
        (rw there, claimed-Known worker d e es hs)

    claimed-Held :
        (each : String → Net) (worker : String) (d e : Db) (es : List Entry)
        → All (FirstDelivered R config.stream config.group worker d e) es
        → All
            (HeldOrMalformed C b apart each worker
              (λ i. first_of (entry i (R.stream e config.stream)))
              e)
            (with_token C b 1 es)
    claimed-Held each worker d e [] h = tt
    claimed-Held each worker d e (x ∷ es) ((mine, _, _), hs) =
        (inr mine, claimed-Held each worker d e es hs)

    length-with_token : (n : ℕ) (es : List Entry) → length (with_token C b n es) ≡ length es
    length-with_token n [] = refl
    length-with_token n (x ∷ es) = ap suc (length-with_token n es)

    -- Where the claim script's call is delivered, the limit is positive, the dead letters are
    -- another stream than the jobs, and the hash entries of the due IDs are JSON: claim_ready
    -- answers with at most as many jobs as it is asked for, and after the malformed entries went
    -- into quarantine, however these calls fared, the worker holds the lease of every job that it
    -- got.
    pub claim_ready-Held :
        (each : String → Net) (worker : String) (n : ℕ) (now : ℤ) (d : Db)
        → All
            (λ id. IsJson R config.retry_key b.retry_data config.stream (R.hash d b.retry_data id))
            (R.due d config.retry_key (unix_milli now) (pos 100))
        → (js : List Job) × (e : Db) × (claim_ready C b delivered each now worker (pos (suc n)) d
            ≡ (ok js, e))
          × All (λ j. Held j.lease e) js
          × (length js ≤ suc n)
    unfolding claim_ready parse_claimed call
    claim_ready-Held each worker n now d json =
        let (es, e, eq, few, won) =
          claim-FirstDelivered R config.stream config.retry_key b.retry_data config.group worker n
            (unix_milli now) d json in
        let (held, len) =
          parse_entries-Held C b apart each worker
            (λ i. first_of (entry i (R.stream e config.stream))) (with_token C b 1 es) e
            (claimed-Known worker d e es won) (claimed-Held each worker d e es won) in
        (_, _, rw eq, held, omega (arith, len, few, length-with_token 1 es))

    -- What a recovery takes over has the count that the server keeps for it.
    counted : Option Pending → Option Fields → Option (Fields × ℕ)
    counted (some p) (some f) = some (f, p.deliveries)
    counted _ _ = none

    abbrev here : Db → String → Option (Fields × ℕ)
    here e i = counted (pending e config.stream config.group i) (entry i (R.stream e config.stream))

    module _ (worker : String) (ms : ℤ) (positive : pos 0 <ℤ ms) where
      abbrev Taken : Db → Db → String × Fields × ℕ → Type 0
      Taken d e x =
          Won R config.stream config.group worker ms positive d e x
          × Held (record { message_id = x.0; owner = worker; token = pos x.2; partition = pos 0 }) e

      recovered-Known :
          (d e : Db) (xs : List (String × Fields × ℕ))
          → All (Taken d e) xs
          → All (λ x. here e x.0 ≡ some (x.1, x.2)) xs
      unfolding counted
      recovered-Known d e [] h = tt
      recovered-Known d e (x ∷ xs) (((p, t, n, there), _), hs) =
          (rw (t.2, there, n), recovered-Known d e xs hs)

      recovered-Held :
          (each : String → Net) (d e : Db) (xs : List (String × Fields × ℕ))
          → All (Taken d e) xs
          → All (HeldOrMalformed C b apart each worker (here e) e) xs
      recovered-Held each d e [] h = tt
      recovered-Held each d e (x ∷ xs) ((_, mine), hs) = (inr mine, recovered-Held each d e xs hs)

      scanned-Held :
          (each : String → Net) (limit : ℤ) (s : Store) (d : Db)
          → (js : List Job) × (t : Store) × (e : Db) × (recovered C b each worker s (
                call delivered
                  (recover_script R config.stream config.group worker ms limit b.recover_cursor)
                  d)
              ≡ (ok js, t, e))
            × All (λ j. Held j.lease e) js
      unfolding recovered call
      scanned-Held each limit s d =
          let (r, e, eq, won) =
            recover-AllWon R config.stream config.group worker ms positive limit b.recover_cursor
              d in
          let (held, _) =
            parse_entries-Held C b apart each worker (here e) r.1 e (recovered-Known d e r.1 won)
              (recovered-Held each d e r.1 won) in
          let done = parse_entries C b each worker r.1 e in
          (done.0, record s { recover_cursor = r.0 }, done.1, rw eq, held)

    if_false : {A : Type 0} (t : Bool) (x y : A) → t ≡ false → (if t then x else y) ≡ y
    if_false t x y h = rw h

    -- Where the recovery script's call is delivered, the dead letters are another stream than the
    -- jobs, the visibility timeout is at least a millisecond and the limit is positive:
    -- recover_expired answers with jobs, also where pruning failed, and after the malformed
    -- entries went into quarantine, however these calls fared, the worker holds the lease of
    -- every job that it got.
    pub recover_expired-Held :
        (pruned : Net) (each : String → Net) (now visibility : ℤ) (worker : String) (limit : ℤ)
        (d : Db)
        → pos 0 <ℤ milliseconds visibility
        → leb_ℤ limit (pos 0) ≡ false
        → (js : List Job) × (t : Store) × (e : Db) × (recover_expired C b pruned delivered each now
              visibility worker limit d
            ≡ (ok js, t, e))
          × All (λ j. Held j.lease e) js
    unfolding recover_expired
    recover_expired-Held pruned each now visibility worker limit d positive some_room =
        let (js, t, e, eq, held) =
          scanned-Held worker (milliseconds visibility) positive each limit _ _ in
        (js, t, e, if_false (leb_ℤ limit (pos 0)) _ _ some_room ∙ eq, held)
