-- ===== src/Store/Backend/Zombie.antt =====
-- queue/worker.go over redisstream/store.go: a worker that still runs a job which another one took over.
use dist_tasks_go.Base.{
  ℕ, String, ◌≡◌, ◌∙◌, ap, Bool, true, false, ◌||◌, ◌&&◌, Option, none, some, List, [], ◌∷◌, ℤ, pos,
  ◌<ℤ◌, str_eq, All, arith, Bool-cases, inl, inr,
}
use dist_tasks_go.Queue.Job.{Job, Lease, Error, lease_lost}
use dist_tasks_go.Queue.Retry.{Floats}
use dist_tasks_go.Queue.Backend.{World, Event, job_lease_lost}
use dist_tasks_go.Queue.Worker.{Worker, Reason, handle_one, process}
use dist_tasks_go.Queue.Worker.Verdict.{
  Verdict, done, again, given_up, left_leased, verdict, process_lost,
}
use dist_tasks_go.Redis.{Redis, Fields}
use dist_tasks_go.Store.Scripts.{owns, recover_script}
use dist_tasks_go.Store.Scripts.Delivery.{recover-fences}
use dist_tasks_go.Store.Fields.{Codec}
use dist_tasks_go.Store.Client.{Net, delivered}
use dist_tasks_go.Store.Backend.{Surroundings, Session, store_backend, reached}
use dist_tasks_go.Store.Backend.Handled.{Fate, Becomes, handle_one-Becomes}

-- Every verdict but that of a job that stays leased is a call.
abbrev pub settles : Verdict → Bool
settles (left_leased e) = false
settles _ = true

-- The entry with this ID is among those that are handed out.
abbrev pub handed : String → List (String × Fields × ℕ) → Bool
handed id [] = false
handed id (out ∷ outs) = str_eq id out.0 || handed id outs

module _ {R : Redis} (C : Codec R) (w : Surroundings R.Db) where
  open R use {Db}

  handed_fences :
      (s g : String) (old : Lease) (e : Db) (outs : List (String × Fields × ℕ))
      → All (λ out. (str_eq old.message_id out.0 && owns R s g old e) ≡ false) outs
      → handed old.message_id outs ≡ true
      → owns R s g old e ≡ false
  handed_fences s g old e [] h here = absurd (ground arith)
  handed_fences s g old e (out ∷ outs) (h, hs) here =
      elim (Bool-cases (str_eq old.message_id out.0)) [
        | inl same ↦ (rw same at h)
        | inr other ↦ handed_fences s g old e outs hs (rw other at here)
      ]

  -- The lease is not good where an answer hands out its entry.
  abbrev Fenced :
      String → String → Lease → Option (String × List (String × Fields × ℕ)) × Db → Type 0
  Fenced s g old (none, e) = Unit {0}
  Fenced s g old (some r, e) =
      All (λ out. (str_eq old.message_id out.0 && owns R s g old e) ≡ false) r.1

  Fate-away :
      (P : Db → Type 0) (d : Db) (net : Net) (mine : Bool) (x : Option Error × Db)
      → net ≡ delivered
      → mine ≡ false
      → Fate P d net mine x
      → x ≡ (some lease_lost, d)
  Fate-away P d net mine x e f h = rw (e, f) at h

  turned_away :
      (text : Reason → String) (job : Job) (s : Session Db) (v : Verdict)
      (r : Option Error × Session Db)
      → settles v ≡ true
      → w.net s.calls ≡ delivered
      → owns R s.store.config.stream s.store.config.group job.lease (reached C w s) ≡ false
      → Becomes C w text job s v r
      → let answer : Option Error × Db = (r.0, r.1.db) in answer ≡ (some lease_lost, reached C w s)
  turned_away text job s done r v net stale h = Fate-away _ _ _ _ _ net stale h.0
  turned_away text job s (again at) r v net stale h = Fate-away _ _ _ _ _ net stale h.0
  turned_away text job s (given_up why) r v net stale h = Fate-away _ _ _ _ _ net stale h.0
  turned_away text job s (left_leased e) r v net stale h = absurd (ground arith)

  -- A worker runs a job with a good lease, and before it settles the job, another worker recovers
  -- the job with a positive idle time; the settling call is answered, and the dead letters are
  -- another stream than the jobs. Whatever the handler's verdict is, if it is one that makes a
  -- call: the database stays as the recovery left it, and the last report is that the lease is
  -- lost.
  pub recovered_run-job_lease_lost :
      (F : Floats) (W : Worker F) (text : Reason → String) (now : ℤ) (cause : Option Error)
      (job : Job) (world : World (Session Db)) (rescuer cursor : String) (ms want : ℤ)
      (answer : String × List (String × Fields × ℕ)) (end : Db)
      → let s = world.backend in
        let config = s.store.config in
        pos 0 <ℤ ms
        → str_eq config.dead_letter config.stream ≡ false
        → owns R config.stream config.group job.lease s.db ≡ true
        → recover_script R config.stream config.group rescuer ms want cursor s.db
          ≡ (some answer, end)
        → handed job.lease.message_id answer.1 ≡ true
        → reached C w s ≡ end
        → w.net s.calls ≡ delivered
        → settles (verdict F (store_backend C w) W text now cause job) ≡ true
        → let after = process F (store_backend C w) W text now cause job world in
          (after.backend.db ≡ end)
          × (earlier : List Event) × (after.events ≡ job_lease_lost job ∷ earlier)
  recovered_run-job_lease_lost F W text now cause job world rescuer cursor ms want answer end
        positive apart mine recovery ours meets net call =
      let s = world.backend in
      let config = s.store.config in
      let (r, e, eq, gone) =
        recover-fences R config.stream config.group rescuer ms positive want cursor s.db job.lease
          mine in
      let fenced : Fenced config.stream config.group job.lease
          (recover_script R config.stream config.group rescuer ms want cursor s.db) =
        rw eq gone in
      let stale : owns R config.stream config.group job.lease (reached C w s) ≡ false = rw meets (
        handed_fences config.stream config.group job.lease end answer.1 (rw recovery at fenced)
          ours) in
      let one = handle_one F (store_backend C w) W text now cause job world in
      let away =
        turned_away text job s _ _ call net stale
          (handle_one-Becomes C w F W text now cause job world apart) in
      let (db, events) =
        process_lost F (store_backend C w) W text now cause job world (ap (λ x. x.0) away) in
      (ap (λ (v : Session Db). v.db) db ∙ ap (λ x. x.1) away ∙ meets, one.1.events, events)
