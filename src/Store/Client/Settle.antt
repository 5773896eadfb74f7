-- ===== src/Store/Client/Settle.antt =====
-- redisstream/store.go: settling a job through the store, the answer and the database.
use dist_tasks_go.Base.{
  ℕ, String, ◌≡◌, refl, ap, true, false, Option, none, some, List, [], ◌∷◌, ◌++◌, ℤ, pos, str_eq,
  Bool-cases, inl, inr,
}
use dist_tasks_go.Queue.Job.{Job, Lease, Error, lease_lost, ok}
use dist_tasks_go.Redis.{Redis}
use dist_tasks_go.Store.Scripts.{owns, settle, renew, ack_script, extend_script, if_owned}
use dist_tasks_go.Store.Scripts.Fencing.{
  fenced_stale, Settled, Settled-not_owned, ack_settles, retry_settles, dead_letter_settles,
  batch-sequentially, sequentially,
}
use dist_tasks_go.Store.Fields.{Codec, job_fields}
use dist_tasks_go.Store.Client.{
  delivered, lost, Store, fenced, fenced_batch_errors, leases, unix_milli, ack, extend, retry,
  retried, dead_letter, dead_letter_fields, ack_batch, extend_batch,
}

module _ {R : Redis} (C : Codec R) (b : Store) where
  open R use {Db, hash, score, stream, next_id}
  open b use {config, retry_data}

  -- The worker holds the job's delivery.
  abbrev pub Holds : Job → Db → Type 0
  Holds job d = owns R config.stream config.group job.lease d ≡ true

  abbrev pub Stale : Job → Db → Type 0
  Stale job d = owns R config.stream config.group job.lease d ≡ false

  abbrev pub JobSettled : Job → Db → Db → Type 0
  JobSettled job d e = Settled R config.stream config.group job.lease.message_id d e

  -- Where the server is reached and answers, and with a lease that is not the owner's at its
  -- token any more: ack, extend, retry and dead_letter answer that the lease is lost and leave
  -- the whole database as it is.
  pub lost_lease_refused :
      (job : Job) (next now : ℤ) (reason : String) (d : Db)
      → Stale job d
      → (ack C b delivered job d ≡ (some lease_lost, d))
        × (extend C b delivered job d ≡ (some lease_lost, d))
        × (retry C b delivered job next d ≡ (some lease_lost, d))
        × (dead_letter C b delivered now job reason d ≡ (some lease_lost, d))
  unfolding ack extend retry dead_letter
  lost_lease_refused job next now reason d e =
      let (p, q, r, s) =
        fenced_stale R config.stream config.group config.retry_key retry_data config.dead_letter
          job.lease (unix_milli next) job.id (C.marshal (job_fields C (retried C b job)))
          (dead_letter_fields C b job reason now) d e in
      (rw p, rw q, rw r, rw s)

  -- Where the server is reached and answers: the ack of a job whose lease is held succeeds, and
  -- settles it.
  pub ack_held :
      (job : Job) (d : Db)
      → Holds job d
      → ((ack C b delivered job d).0 ≡ none) × JobSettled job d (ack C b delivered job d).1
  unfolding ack
  ack_held job d h =
      let (one, settled) = ack_settles R config.stream config.group job.lease d h in
      (rw one, settled)

  -- The ack of a job whose lease is held, when the answer is lost on the way, reports that error
  -- although the job is settled; the next ack, if it is answered, says that the lease is lost and
  -- changes nothing.
  pub ack_lost_reply :
      (job : Job) (e : Error) (d : Db)
      → Holds job d
      → let d' = (ack C b (lost e) job d).1 in
        ((ack C b (lost e) job d).0 ≡ some e)
        × JobSettled job d d'
        × (ack C b delivered job d' ≡ (some lease_lost, d'))
  unfolding ack
  ack_lost_reply job e d h =
      let (_, settled) = ack_settles R config.stream config.group job.lease d h in
      let gone = Settled-not_owned R config.stream config.group job.lease d _ settled in
      (refl, settled, (unfold ack in (lost_lease_refused job (pos 0) (pos 0) "" _ gone).0))

  -- Where the server is reached and answers: the retry of a job whose lease is held succeeds: its
  -- delivery and its entry are gone and the others stay, its score in the schedule is the time of
  -- the retry, and its hash entry is the JSON of the job with its attempt counted.
  pub retry_held :
      (job : Job) (next : ℤ) (d : Db)
      → Holds job d
      → let r = retry C b delivered job next d in
        (r.0 ≡ none)
        × JobSettled job d r.1
        × (score r.1 config.retry_key job.id ≡ some (unix_milli next))
        × (hash r.1 retry_data job.id ≡ some (C.marshal (job_fields C (retried C b job))))
  unfolding retry
  retry_held job next d h =
      let (one, settled, stored, due) =
        retry_settles R config.stream config.group config.retry_key retry_data job.lease
          (unix_milli next) job.id (C.marshal (job_fields C (retried C b job))) d h in
      (rw one, settled, due, stored)

  -- Where the server is reached and answers, and the dead-letter stream is another key: dead-
  -- lettering a job whose lease is held succeeds, its delivery and its entry are gone and the
  -- others stay, and the dead-letter stream has one entry more, with the fields of the job, the
  -- reason and the time.
  pub dead_letter_held :
      (job : Job) (now : ℤ) (reason : String) (d : Db)
      → str_eq config.dead_letter config.stream ≡ false
      → Holds job d
      → let r = dead_letter C b delivered now job reason d in
        (r.0 ≡ none)
        × JobSettled job d r.1
        × (stream r.1 config.dead_letter
            ≡ stream d config.dead_letter
              ++ (next_id d config.dead_letter, dead_letter_fields C b job reason now) ∷ [])
  unfolding dead_letter
  dead_letter_held job now reason d apart h =
      let (one, settled, added) =
        dead_letter_settles R config.stream config.group config.dead_letter job.lease
          (dead_letter_fields C b job reason now) d apart h in
      (rw one, settled, added)

  -- One call for each job, each answer kept.
  abbrev pub each_job : (Job → Db → Option Error × Db) → List Job → Db → List (Option Error) × Db
  each_job f [] d = ([], d)
  each_job f (j ∷ js) d =
      let first = f j d in let rest = each_job f js first.1 in (first.0 ∷ rest.0, rest.1)

  -- The answers of a batch, with the state that the single calls reach.
  answers :
      (action : Lease → Db → Db) (js : List Job) (d : Db)
      → let one = λ (l : Lease). if_owned R config.stream config.group l (action l) in
        let r = each_job (λ j. fenced delivered (one j.lease)) js d in
        (ns : List ℕ) × (sequentially R one (leases js) d ≡ (some ns, r.1))
        × (fenced_batch_errors js (ok ns) ≡ r.0)
  unfolding fenced fenced_batch_errors if_owned
  answers action [] d = ([], refl, refl)
  answers action (j ∷ js) d = elim (Bool-cases (owns R config.stream config.group j.lease d)) [
    | inl e ↦
        let (ns, eq, errs) = answers action js (action j.lease d) in
        (1 ∷ ns, rw e (rw eq), rw e (ap (λ (es : List (Option Error)). none ∷ es) errs))
    | inr e ↦
        let (ns, eq, errs) = answers action js d in
        (0 ∷ ns, rw e (rw eq), rw e (ap (λ es. some lease_lost ∷ es) errs))
  ]

  -- Where the server is reached and answers: a batch of acks, and one of lease renewals, has the
  -- answers and the final database of the calls for the single jobs, one after the other.
  pub batch-each_job :
      (js : List Job) (d : Db)
      → (ack_batch C b delivered js d ≡ each_job (ack C b delivered) js d)
        × (extend_batch C b delivered js d ≡ each_job (extend C b delivered) js d)
  unfolding ack_batch extend_batch ack extend ack_script extend_script
  batch-each_job js d =
      let (acks, extends) = batch-sequentially R config.stream config.group (leases js) d in
      let (ns, eq, errs) = answers (λ l. settle R config.stream config.group l.message_id) js d in
      let (ms, eq', errs') =
        answers (λ l. renew R config.stream config.group l.message_id l.owner) js d in
      (rw acks (rw eq (rw errs)), rw extends (rw eq' (rw errs')))
