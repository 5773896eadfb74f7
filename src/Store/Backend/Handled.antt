-- ===== src/Store/Backend/Handled.antt =====
-- queue/worker.go over redisstream/store.go: what becomes of a job that a worker handles.
use dist_tasks_go.Base.{
  ℕ, String, ◌≡◌, refl, ap, pos, Bool, true, false, Option, none, some, ◌∷◌, ◌++◌, [], ℤ, str_eq,
  inl, inr, Bool-cases,
}
use dist_tasks_go.Queue.Job.{Job, Error, lease_lost}
use dist_tasks_go.Queue.Retry.{Floats}
use dist_tasks_go.Queue.Backend.{World}
use dist_tasks_go.Queue.Worker.{Worker, Reason, handle_one}
use dist_tasks_go.Queue.Worker.Verdict.{
  Verdict, done, again, given_up, left_leased, verdict, perform, silent, handle_one-refines,
}
use dist_tasks_go.Redis.{Redis}
use dist_tasks_go.Redis.Script.{Script}
use dist_tasks_go.Store.Scripts.{owns, ack_script, retry_script, dead_letter_script}
use dist_tasks_go.Store.Fields.{Codec, job_fields}
use dist_tasks_go.Store.Client.{
  Net, delivered, refused, lost, Store, fenced, fenced_result, call, unix_milli, ack, retry,
  retried, dead_letter, dead_letter_fields,
}
use dist_tasks_go.Store.Client.Settle.{
  JobSettled, Holds, Stale, lost_lease_refused, ack_held, retry_held, dead_letter_held,
}
use dist_tasks_go.Store.Backend.{Surroundings, Session, store_backend, reached}

-- A fenced call by how it fares and whether the lease is good: what it answers, and whether it
-- has its effect or leaves the database as it is.
abbrev pub Fate : {Db : Type 0} → (Db → Type 0) → Db → Net → Bool → Option Error × Db → Type 0
Fate P d delivered true r = (r.0 ≡ none) × P r.1
Fate P d delivered false r = r ≡ (some lease_lost, d)
Fate P d (refused e) mine r = r ≡ (some e, d)
Fate P d (lost e) true r = (r.0 ≡ some e) × P r.1
Fate P d (lost e) false r = r ≡ (some e, d)

module _ {R : Redis} (C : Codec R) where
  open R use {Db, hash, score, stream, next_id}

  module _ (b : Store) (job : Job) (d : Db) where
    open b use {config, retry_data}

    -- A script that has its effect on the owner's behalf alone has it whichever way the call fares.
    fenced-Fate :
        (net : Net) (m : Script Db ℕ) (P : Db → Type 0)
        → (Holds C b job d → ((fenced delivered m d).0 ≡ none) × P (fenced delivered m d).1)
        → (Stale C b job d → fenced delivered m d ≡ (some lease_lost, d))
        → Fate P d net (owns R config.stream config.group job.lease d) (fenced net m d)
    unfolding fenced fenced_result call
    fenced-Fate net m P held stale =
        elim (Bool-cases (owns R config.stream config.group job.lease d)) [
          | inl mine ↦ rw mine (kept net (held mine))
          | inr gone ↦ rw gone (refused_all net (stale gone))
        ]
      where
        kept :
            (net : Net)
            → ((fenced delivered m d).0 ≡ none) × P (fenced delivered m d).1
            → Fate P d net true (fenced net m d)
        kept delivered h = h
        kept (refused e) h = refl
        kept (lost e) h = (refl, h.1)

        refused_all :
            (net : Net)
            → fenced delivered m d ≡ (some lease_lost, d)
            → Fate P d net false (fenced net m d)
        refused_all delivered h = h
        refused_all (refused e) h = refl
        refused_all (lost e) h = ap (λ (r : Option Error × Db). (some e, r.1)) h

    -- What a verdict means for the database `e` after it, beside that of the job before it.
    abbrev pub Effect : (Reason → String) → ℤ → Verdict → Db → Type 0
    Effect text now done e = JobSettled C b job d e
    Effect text now (again at) e =
        JobSettled C b job d e
        × (score e config.retry_key job.id ≡ some (unix_milli at))
        × (hash e retry_data job.id ≡ some (C.marshal (job_fields C (retried C b job))))
    Effect text now (given_up why) e =
        JobSettled C b job d e
        × (stream e config.dead_letter
            ≡ stream d config.dead_letter
              ++ (next_id d config.dead_letter, dead_letter_fields C b job (text why) now) ∷ [])
    Effect text now (left_leased x) e = e ≡ d

    ack-Fate :
        (net : Net)
        → Fate
            (JobSettled C b job d)
            d
            net
            (owns R config.stream config.group job.lease d)
            (ack C b net job d)
    unfolding ack
    ack-Fate net =
        fenced-Fate net (ack_script R config.stream config.group job.lease) (JobSettled C b job d)
          (ack_held C b job d) λ gone. (lost_lease_refused C b job (pos 0) (pos 0) "" d gone).0

    retry-Fate :
        (text : Reason → String) (now at : ℤ) (net : Net)
        → Fate
            (Effect text now (again at))
            d
            net
            (owns R config.stream config.group job.lease d)
            (retry C b net job at d)
    unfolding retry
    retry-Fate text now at net =
        fenced-Fate net
          (retry_script R config.stream config.group config.retry_key retry_data job.lease
            (unix_milli at) job.id (C.marshal (job_fields C (retried C b job))))
          (Effect text now (again at))
          (λ held.
            let (one, settled, due, stored) = retry_held C b job at d held in
            (one, (settled, due, stored)))
          λ gone. (lost_lease_refused C b job at (pos 0) "" d gone).2

    dead_letter-Fate :
        (text : Reason → String) (now : ℤ) (why : Reason) (net : Net)
        → str_eq config.dead_letter config.stream ≡ false
        → Fate
            (Effect text now (given_up why))
            d
            net
            (owns R config.stream config.group job.lease d)
            (dead_letter C b net now job (text why) d)
    unfolding dead_letter
    dead_letter-Fate text now why net apart =
        fenced-Fate net
          (dead_letter_script R config.stream config.group config.dead_letter job.lease
            (dead_letter_fields C b job (text why) now))
          (Effect text now (given_up why))
          (λ held.
            let (one, settled, added) = dead_letter_held C b job now (text why) d apart held in
            (one, (settled, added)))
          λ gone. (lost_lease_refused C b job (pos 0) now (text why) d gone).3

  module _ (w : Surroundings Db) where
    abbrev mine : Session Db → Job → Bool
    mine s job = owns R s.store.config.stream s.store.config.group job.lease (reached C w s)

    -- What a verdict comes to in a session.
    abbrev pub Becomes :
        (Reason → String) → Job → Session Db → Verdict → Option Error × Session Db → Type 0
    Becomes text job s (left_leased e) r = r ≡ (some e, s)
    Becomes text job s v r =
        Fate (Effect s.store job (reached C w s) text (w.now s.calls) v) (reached C w s)
          (w.net s.calls) (mine s job) (r.0, r.1.db)
        × (r.1.store ≡ s.store)

    perform-Becomes :
        (F : Floats) (W : Worker F) (text : Reason → String) (job : Job) (s : Session Db)
        (v : Verdict)
        → str_eq s.store.config.dead_letter s.store.config.stream ≡ false
        → Becomes text job s v (perform F (store_backend C w) W text job v s)
    unfolding perform store_backend
    perform-Becomes F W text job s done apart = (ack-Fate s.store job _ (w.net s.calls), refl)
    perform-Becomes F W text job s (again at) apart =
        (retry-Fate s.store job _ text (w.now s.calls) at (w.net s.calls), refl)
    perform-Becomes F W text job s (given_up why) apart =
        (dead_letter-Fate s.store job _ text (w.now s.calls) why (w.net s.calls) apart, refl)
    perform-Becomes F W text job s (left_leased e) apart = refl

    -- Where the dead letters are another stream than the jobs, for a worker over the store, and
    -- whatever other clients do before its call: handling a job does to the database what the
    -- verdict says. With a good lease, and an answer or one that is lost on the way, the delivery
    -- and the entry are gone, others stay, and a retry is in the schedule at its time with the
    -- attempt counted, a dead letter in its stream with the fields, the reason and the time. With
    -- a lease that is not good, or a call that is not made, the database stays as it is. The
    -- error is none only for the answered call with a good lease; it is the lost lease where the
    -- answer says so, else that of the call. A job that stays leased is no call at all.
    pub handle_one-Becomes :
        (F : Floats) (W : Worker F) (text : Reason → String) (now : ℤ) (cause : Option Error)
        (job : Job) (world : World (Session Db))
        → str_eq world.backend.store.config.dead_letter world.backend.store.config.stream ≡ false
        → Becomes text job world.backend (verdict F (store_backend C w) W text now cause job) (
            silent F
              (store_backend C w)
              W
              text
              (handle_one F (store_backend C w) W text now cause job world))
    handle_one-Becomes F W text now cause job world apart =
        rw (handle_one-refines F (store_backend C w) W text now cause job world)
          (perform-Becomes F W text job world.backend _ apart)
