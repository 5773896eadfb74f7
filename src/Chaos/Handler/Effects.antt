-- ===== src/Chaos/Handler/Effects.antt =====
-- cmd/chaos/main.go: what a run of the chaos handler leaves in the ledger and downstream.
use dist_tasks_go.Base.{
  String, ◌≡◌, refl, ◌∙◌, Bool, true, false, Option, some, none, [], ◌∷◌, ◌++◌, ◌⊎◌, inl, inr, ℤ,
  Bool-cases,
}
use dist_tasks_go.Queue.Job.{
  Job, JobResult, Error, Result, ok, err, fencing_token, new_retryable_error, new_permanent_error,
}
use dist_tasks_go.Redis.{Redis, is_some}
use dist_tasks_go.Store.Client.{Net, delivered, refused, lost, call}
use dist_tasks_go.Downstream.{Counters, Keys, begin, apply}
use dist_tasks_go.Downstream.Once.{Apart, begin_keeps}
use dist_tasks_go.Downstream.Landed.{apply_script-Landed}
use dist_tasks_go.Chaos.Handler.{
  Payload, Entry, Chaos, push, finish, apply_effect, after_wait, begun, handle_payload, handler,
}

module _ {R : Redis} (N : Counters R) (keys : Keys) (apart : Apart keys)
    (decode : String → Result Payload) (text : ℤ → String) where
  open R use {Db, hash}

  abbrev pub World : Type 0
  World = Chaos N keys decode text

  -- The applied jobs are the same.
  abbrev pub SameApplied : Db → Db → Type 0
  SameApplied d e = (i : String) → hash e keys.applied i ≡ hash d keys.applied i

  begin-SameApplied :
      (net : Net) (job : Job) (d : Db) → SameApplied d (call net (begin N keys job) d).1
  unfolding call begin
  begin-SameApplied delivered job d i = begin_keeps N keys apart job.id (fencing_token job) d i
  begin-SameApplied (refused e) job d i = refl
  begin-SameApplied (lost e) job d i = begin_keeps N keys apart job.id (fencing_token job) d i

  -- Nothing is recorded or applied; or the run is recorded once, and if it went well, its job is
  -- among the applied ones.
  abbrev pub Idle : World → JobResult × World → Type 0
  Idle s r = ((e : Error) × (r.0.err ≡ some e)) × (r.1.ledger ≡ s.ledger) × SameApplied s.db r.1.db

  abbrev pub Recorded : Entry → Job → World → JobResult × World → Type 0
  Recorded entry job s r =
      (r.1.ledger ≡ s.ledger ++ entry ∷ [])
      × (((e : Error) × (r.0.err ≡ some e)) ⊎ (is_some (hash r.1.db keys.applied job.id) ≡ true))

  landed :
      (net : Net) (job : Job) (n : String) (d : Db)
      → let r = call net (apply N keys job n) d in
        ((e : Error) × ((finish N keys decode text r.0).err ≡ some e))
        ⊎ (is_some (hash r.1 keys.applied job.id) ≡ true)
  unfolding call apply finish new_retryable_error
  landed delivered job n d =
      elim (apply_script-Landed N keys apart job.id n (fencing_token job) d) [
        | inl turned ↦ rw turned (inl (_, refl))
        | inr there ↦ inr there
      ]
  landed (refused e) job n d = inl (e, refl)
  landed (lost e) job n d = inl (e, refl)

  abbrev Either : Entry → Job → World → JobResult × World → Type 0
  Either entry job s r = Idle s r ⊎ Recorded entry job s r

  apply_effect-Recorded :
      (net : Net) (job : Job) (p : Payload) (entry : Entry) (s : World) (o : Option Error)
      (t : World)
      → t.ledger ≡ s.ledger ++ entry ∷ []
      → Recorded entry job s (apply_effect N keys decode text net job p (o, t))
  unfolding apply_effect new_retryable_error
  apply_effect-Recorded net job p entry s (some e) t h = (h, inl (e, refl))
  apply_effect-Recorded net job p entry s none t h = (h, landed net job (text p.n) t.db)

  pushed-Either :
      (pushing applying : Net) (job : Job) (p : Payload) (entry : Entry) (s : World)
      → Either entry job s
          (apply_effect N keys decode text applying job p (push N keys decode text pushing entry s))
  unfolding push
  pushed-Either delivered applying job p entry s =
      inr (apply_effect-Recorded applying job p entry s none _ refl)
  pushed-Either (lost e) applying job p entry s =
      inr (apply_effect-Recorded applying job p entry s (some e) _ refl)
  pushed-Either (refused e) applying job p entry s =
      unfold apply_effect new_retryable_error in inl ((e, refl), refl, λ i. refl)

  after_wait-Either :
      (pushing applying : Net) (cut : Option Error) (unlucky : Bool) (entry : Entry) (job : Job)
      (p : Payload) (s : World)
      → let r = after_wait N keys decode text pushing applying cut unlucky entry job p s in
        Idle s r ⊎ ((p.permanent ≡ false) × Recorded entry job s r)
  unfolding after_wait new_retryable_error new_permanent_error
  after_wait-Either pushing applying (some e) unlucky entry job p s =
      inl ((e, refl), refl, λ i. refl)
  after_wait-Either pushing applying none unlucky entry job p s = elim (Bool-cases p.permanent) [
    | inl doomed ↦ rw doomed (inl ((_, refl), refl, λ i. refl))
    | inr fine ↦ elim (Bool-cases unlucky) [
      | inl bad ↦ rw (fine, bad) (inl ((_, refl), refl, λ i. refl))
      | inr lucky ↦
          rw (fine, lucky)
            (elim (pushed-Either pushing applying job p entry s) [
              | inl idle ↦ inl idle
              | inr recorded ↦ inr (refl, recorded)
            ])
    ]
  ]

  module _ (beginning pushing applying : Net) (cut : Option Error) (unlucky : Bool)
      (started ended : ℤ) (worker : String) (job : Job) where
    abbrev pub entry_of : Payload → Entry
    entry_of p = record { n = p.n; start = started; end = ended; worker = worker }

    abbrev Ends : Payload → World → JobResult × World → Type 0
    Ends p s r = Idle s r ⊎ ((p.permanent ≡ false) × Recorded (entry_of p) job s r)

    begun-Ends :
        (p : Payload) (o : Result Bool) (s t : World)
        → t.ledger ≡ s.ledger
        → SameApplied s.db t.db
        → Ends p s (
            begun N keys decode text
              (after_wait N keys decode text pushing applying cut unlucky (entry_of p) job p)
              o
              t)
    unfolding begun new_retryable_error
    begun-Ends p (err e) s t same kept = inl ((_, refl), same, kept)
    begun-Ends p (ok false) s t same kept = inl ((_, refl), same, kept)
    begun-Ends p (ok true) s t same kept =
        elim (after_wait-Either pushing applying cut unlucky (entry_of p) job p t) [
          | inl (failed, here, there) ↦ inl (failed, here ∙ same, λ i. there i ∙ kept i)
          | inr (fine, (here, done)) ↦ inr (fine, (rw (← same) here, done))
        ]

    payload-Ends :
        (p : Payload) (s : World)
        → Ends p s (
            handle_payload N keys decode text beginning pushing applying cut unlucky started ended
              worker job
              (ok p)
              s)
    unfolding handle_payload
    payload-Ends p s = begun-Ends p _ s _ refl (begin-SameApplied beginning job s.db)

    abbrev pub Outcomes : Result Payload → World → JobResult × World → Type 0
    Outcomes o s r =
        Idle s r
        ⊎ ((p : Payload) × (o ≡ ok p) × (p.permanent ≡ false) × Recorded (entry_of p) job s r)

    parsed-Outcomes :
        (o : Result Payload) (s : World)
        → Outcomes o s (
            handle_payload N keys decode text beginning pushing applying cut unlucky started ended
              worker job o s)
    parsed-Outcomes (err e) s =
        unfold handle_payload new_permanent_error in inl ((e, refl), refl, λ i. refl)
    parsed-Outcomes (ok p) s = elim (payload-Ends p s) [
      | inl idle ↦ inl idle
      | inr (fine, recorded) ↦ inr (p, refl, fine, recorded)
    ]

    -- Where the four hashes of the downstream are different keys, and however the network treats
    -- the three calls: a run of the chaos handler ends with an error, no new ledger entry and the
    -- same applied jobs; or its payload is readable and not permanent, the ledger has exactly one
    -- entry more, that of this run, and the handler ends with an error or the job is among the
    -- applied ones.
    pub handler-Outcomes :
        (s : World)
        → Outcomes (decode job.payload) s (
            handler N keys decode text beginning pushing applying cut unlucky started ended worker
              job s)
    unfolding handler
    handler-Outcomes s = parsed-Outcomes (decode job.payload) s
