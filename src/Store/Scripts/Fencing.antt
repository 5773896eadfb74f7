-- ===== src/Store/Scripts/Fencing.antt =====
-- redisstream/scripts.go: the lease check of the scripts that settle or renew a delivery.
use dist_tasks_go.Base.{
  ℕ, String, ◌≡◌, refl, true, false, Option, none, some, List, [], ◌∷◌, ◌++◌, arith, ℤ, str_eq,
  eq_iff, eq_refl, if◌then◌else◌, Bool-cases, inl, inr,
}
use dist_tasks_go.Queue.Job.{Lease}
use dist_tasks_go.Redis.{Redis, Pending, Fields, entry, has, renewed}
use dist_tasks_go.Redis.Script.{Script, ◌>>=◌, pure}
use dist_tasks_go.Redis.Streams.{entry-remove}
use dist_tasks_go.Store.Scripts.{
  holds, owns, settle, renew, if_owned, ack_script, extend_script, retry_script, dead_letter_script,
  each_owned, ack_batch_script, extend_batch_script,
}

str_eq-sym : (s t : String) → str_eq t s ≡ false → str_eq s t ≡ false
str_eq-sym s t h = ground (arith, eq_iff s t, eq_iff t s)

holds-renewed :
    (owner : String) (token : ℤ) (p : Option Pending)
    → holds owner token p ≡ true
    → holds owner token (renewed owner p) ≡ true
unfolding holds
holds-renewed owner token none h = h
holds-renewed owner token (some p) h = ground (arith, eq_refl owner)

module _ (R : Redis) where
  open R use {
    Db, exec, next_id, stream, pending, hash, score, pending_exec, stream_exec, hash_exec,
    score_exec,
  }

  -- What settling a delivery does: it leaves the list of pending deliveries and the stream, and the
  -- others stay.
  pub record Settled (s g id : String) (d d' : Db) : Type 0 where
    pub deliveries :
        (i : String) → pending d' s g i ≡ (if str_eq id i then none else pending d s g i)
    pub entries :
        (i : String) → entry i (stream d' s) ≡ (if str_eq id i then none else entry i (stream d s))

  -- Settling may follow writes elsewhere.
  settle-Settled :
      (s g id : String) (d m : Db)
      → ((i : String) → pending m s g i ≡ pending d s g i)
      → stream m s ≡ stream d s
      → Settled s g id d (settle R s g id m)
  unfolding settle
  settle-Settled s g id d m p q = record {
    deliveries = λ i. simp (pending_exec, eq_refl, p);
    entries = λ i. simp (stream_exec, eq_refl, q, entry-remove);
  }

  -- Without the lease.
  pub fenced_stale :
      (s g z h dead : String) (l : Lease) (run_at : ℤ) (job_id json : String) (fields : Fields)
      (d : Db)
      → owns R s g l d ≡ false
      → (ack_script R s g l d ≡ (some 0, d))
        × (extend_script R s g l d ≡ (some 0, d))
        × (retry_script R s g z h l run_at job_id json d ≡ (some 0, d))
        × (dead_letter_script R s g dead l fields d ≡ (some 0, d))
  unfolding ack_script extend_script retry_script dead_letter_script
  fenced_stale s g z h dead l run_at job_id json fields d e = (rw e, rw e, rw e, rw e)

  -- With the lease each script settles the delivery; retry also schedules the job, and dead-letter
  -- adds the entry to the other stream.
  pub ack_settles :
      (s g : String) (l : Lease) (d : Db)
      → owns R s g l d ≡ true
      → ((ack_script R s g l d).0 ≡ some 1) × Settled s g l.message_id d (ack_script R s g l d).1
  unfolding ack_script
  ack_settles s g l d e = (rw e, rw e (settle-Settled s g l.message_id d d (λ i. refl) refl))

  pub retry_settles :
      (s g z h : String) (l : Lease) (run_at : ℤ) (job_id json : String) (d : Db)
      → owns R s g l d ≡ true
      → let r = retry_script R s g z h l run_at job_id json d in
        (r.0 ≡ some 1)
        × Settled s g l.message_id d r.1
        × (hash r.1 h job_id ≡ some json)
        × (score r.1 z job_id ≡ some run_at)
  unfolding retry_script settle
  retry_settles s g z h l run_at job_id json d e = (
    rw e,
    rw e (settle-Settled s g l.message_id d _ (λ i. simp pending_exec) (simp stream_exec)),
    rw e (simp (hash_exec, eq_refl)),
    rw e (simp (score_exec, eq_refl)),
  )

  pub dead_letter_settles :
      (s g dead : String) (l : Lease) (fields : Fields) (d : Db)
      → str_eq dead s ≡ false
      → owns R s g l d ≡ true
      → let r = dead_letter_script R s g dead l fields d in
        (r.0 ≡ some 1)
        × Settled s g l.message_id d r.1
        × (stream r.1 dead ≡ stream d dead ++ (next_id d dead, fields) ∷ [])
  unfolding dead_letter_script settle
  dead_letter_settles s g dead l fields d ne e = (
    rw e,
    rw e (settle-Settled s g l.message_id d _ (λ i. simp pending_exec) (simp (stream_exec, ne))),
    rw e (simp (stream_exec, eq_refl, str_eq-sym s dead ne)),
  )

  -- A settled delivery is nobody's, under any owner and token.
  pub Settled-not_owned :
      (s g : String) (l : Lease) (d d' : Db)
      → Settled s g l.message_id d d'
      → owns R s g l d' ≡ false
  unfolding owns
  Settled-not_owned s g l d d' h = rw (h.deliveries l.message_id, eq_refl)

  renew_owned :
      (s g : String) (l : Lease) (d : Db)
      → owns R s g l d ≡ true
      → has l.message_id (stream d s) ≡ true
      → owns R s g l (renew R s g l.message_id l.owner d) ≡ true
  unfolding owns renew
  renew_owned s g l d e stored =
      simp (pending_exec, eq_refl, stored)
        (holds-renewed l.owner l.token (pending d s g l.message_id) e)

  renewed_pending :
      (s g : String) (l : Lease) (d : Db) (i : String)
      → has l.message_id (stream d s) ≡ true
      → pending (renew R s g l.message_id l.owner d) s g i
        ≡ (if str_eq l.message_id i then renewed l.owner (pending d s g i) else pending d s g i)
  unfolding renew
  renewed_pending s g l d i stored = elim (Bool-cases (str_eq l.message_id i)) [
    | inl e ↦ simp (pending_exec, eq_refl, e) (rw (← (eq_iff l.message_id i).0 e, stored))
    | inr e ↦ simp (pending_exec, eq_refl, e)
  ]

  -- With the lease, and the entry still in the stream: extend answers 1, resets the idle time of
  -- this delivery and keeps its count and its owner, leaves the other deliveries and all streams
  -- as they are, and the lease is still good.
  pub extend_renews :
      (s g : String) (l : Lease) (d : Db)
      → owns R s g l d ≡ true
      → has l.message_id (stream d s) ≡ true
      → let r = extend_script R s g l d in
        (r.0 ≡ some 1)
        × ((i : String)
            → pending r.1 s g i ≡ (
                if str_eq l.message_id i
                then renewed l.owner (pending d s g i)
                else pending d s g i))
        × ((k : String) → stream r.1 k ≡ stream d k)
        × (owns R s g l r.1 ≡ true)
  unfolding extend_script
  extend_renews s g l d e stored = (
    rw e,
    rw e (λ i. renewed_pending s g l d i stored),
    rw e (λ k. simp stream_exec),
    rw e (renew_owned s g l d e stored),
  )

  -- The scripts for one delivery, run one after the other.
  abbrev pub sequentially : (Lease → Script Db ℕ) → List Lease → Script Db (List ℕ)
  sequentially one [] = pure []
  sequentially one (l ∷ ls) = do n ← one l; ns ← sequentially one ls; pure (n ∷ ns)

  each_owned-sequentially :
      (s g : String) (action : Lease → Db → Db) (ls : List Lease) (d : Db)
      → each_owned R s g action ls d ≡ sequentially (λ l. if_owned R s g l (action l)) ls d
  unfolding each_owned if_owned
  each_owned-sequentially s g action [] d = refl
  each_owned-sequentially s g action (l ∷ ls) d = elim (Bool-cases (owns R s g l d)) [
    | inl e ↦ rw e (rw (each_owned-sequentially s g action ls (action l d)))
    | inr e ↦ rw e (rw (each_owned-sequentially s g action ls d))
  ]

  pub batch-sequentially :
      (s g : String) (ls : List Lease) (d : Db)
      → (ack_batch_script R s g ls d ≡ sequentially (ack_script R s g) ls d)
        × (extend_batch_script R s g ls d ≡ sequentially (extend_script R s g) ls d)
  unfolding ack_batch_script extend_batch_script ack_script extend_script
  batch-sequentially s g ls d =
      (each_owned-sequentially s g _ ls d, each_owned-sequentially s g _ ls d)
