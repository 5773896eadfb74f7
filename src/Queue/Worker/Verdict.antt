-- ===== src/Queue/Worker/Verdict.antt =====
-- queue/worker.go: what handleOne decides of a job, apart from its calls and its reports.
use dist_tasks_go.Base.{
  String, ◌≡◌, refl, Bool, not, ◌||◌, Option, none, some, List, ◌∷◌, inl, inr, Bool-cases, ℤ, pos,
  ◌+ℤ◌, leb_ℤ, ltb_ℤ, int64, if◌then◌else◌,
}
use dist_tasks_go.Queue.Job.{
  Job, Error, unknown_task, lease_lost, is_lease_lost, wrapped, exhausted,
}
use dist_tasks_go.Queue.Retry.{Floats, next_delay, should_dead_letter}
use dist_tasks_go.Queue.Backend.{Backend, World, Event, job_lease_lost}
use dist_tasks_go.Queue.Worker.{
  Worker, Reason, delivered_times, no_handler, failed_with, HandlerFunc, handle_one, process,
  observed, dead_letter, handle_with, ran, finish, failed, complete, retry_later, settled, reported,
}

-- A job is done for good, is tried again at a time, is given up for a reason, or stays leased.
pub data Verdict : Type 0 where
  done : Verdict
  again : ℤ → Verdict
  given_up : Reason → Verdict
  left_leased : Error → Verdict

module _ (F : Floats) {S : Type 0} (B : Backend S) (W : Worker F) (text : Reason → String) where
  open W use {config, handlers}

  -- The decision alone. The backend and the reports play no part in it.
  judged : ℤ → Job → Bool → Option Error → Verdict
  judged now job r none = done
  judged now job r (some e) =
      if not r || exhausted job
      then given_up (failed_with e)
      else again (now +ℤ next_delay F config.retry_policy (int64 (job.attempt +ℤ pos 1)))

  handled : ℤ → Option Error → Job → Option HandlerFunc → Verdict
  unfolding judged
  handled now cause job none =
      if leb_ℤ config.max_deliveries job.lease.token
      then given_up (no_handler job.task job.lease.token)
      else left_leased (wrapped job.task unknown_task)
  handled now (some cause) job (some h) = left_leased cause
  handled now none job (some h) = judged now job (h job).retryable (h job).err

  unfoldable pub verdict : ℤ → Option Error → Job → Verdict
  unfolding handled
  verdict now cause job =
      if ltb_ℤ config.max_deliveries job.lease.token
      then given_up (delivered_times job.lease.token)
      else handled now cause job (handlers job.task)

  -- A verdict is one call of the backend, or none.
  unfoldable pub perform : Job → Verdict → S → Option Error × S
  perform job done s = B.ack job s
  perform job (again at) s = B.retry job at s
  perform job (given_up why) s = B.dead_letter job (text why) s
  perform job (left_leased e) s = (some e, s)

  -- The reports are left out.
  abbrev pub silent : Option Error × World S → Option Error × S
  silent r = (r.0, r.1.backend)

  settled-silent :
      (r : Option Error × S) (es fine : List Event) → silent (settled F B W text r es fine) ≡ r
  unfolding settled
  settled-silent (some e, s) es fine = refl
  settled-silent (none, s) es fine = refl

  failed-silent :
      (now : ℤ) (job : Job) (r : Bool) (e : Error) (w : World S)
      → silent (failed F B W text now job r e w) ≡ perform job (judged now job r (some e)) w.backend
  unfolding failed dead_letter retry_later reported judged perform should_dead_letter
  failed-silent now job r e w = elim (Bool-cases (not r || exhausted job)) [
    | inl last ↦ rw last (settled-silent _ _ _)
    | inr more ↦ rw more (settled-silent _ _ _)
  ]

  judged-silent :
      (now : ℤ) (job : Job) (r : Bool) (e : Option Error) (w : World S)
      → silent (finish F B W text now job r e w) ≡ perform job (judged now job r e) w.backend
  unfolding finish complete judged perform
  judged-silent now job r none w = settled-silent _ _ _
  judged-silent now job r (some e) w = failed-silent now job r e w

  handled-silent :
      (now : ℤ) (cause : Option Error) (job : Job) (h : Option HandlerFunc) (w : World S)
      → silent (handle_with F B W text now cause job h w)
        ≡ perform job (handled now cause job h) w.backend
  unfolding handle_with ran reported dead_letter handled perform
  handled-silent now cause job none w =
      elim (Bool-cases (leb_ℤ config.max_deliveries job.lease.token)) [
        | inl last ↦ rw last (settled-silent _ _ _)
        | inr more ↦ rw more
      ]
  handled-silent now (some cause) job (some h) w = refl
  handled-silent now none job (some h) w = judged-silent now job (h job).retryable (h job).err _

  -- The reports left out, handle_one is one verdict, performed: a job with too many deliveries is
  -- given up; so is one without a handler at its last delivery, while an earlier one stays
  -- leased; a run that is cut off stays leased; a success is acked; an error is given up when it
  -- is permanent or on the last attempt, and otherwise retried after the delay of the next
  -- attempt. The answer and the backend are those of the one call of the verdict, or of none.
  pub handle_one-refines :
      (now : ℤ) (cause : Option Error) (job : Job) (w : World S)
      → silent (handle_one F B W text now cause job w)
        ≡ perform job (verdict now cause job) w.backend
  unfolding handle_one verdict dead_letter perform
  handle_one-refines now cause job w =
      elim (Bool-cases (ltb_ℤ config.max_deliveries job.lease.token)) [
        | inl over ↦ rw over (settled-silent _ _ _)
        | inr few ↦ rw few (handled-silent now cause job (handlers job.task) w)
      ]

  observed_lost :
      (job : Job) (r : Option Error × World S)
      → r.0 ≡ some lease_lost
      → ((observed F B W text job r).backend ≡ r.1.backend)
        × ((observed F B W text job r).events ≡ job_lease_lost job ∷ r.1.events)
  unfolding observed reported is_lease_lost
  observed_lost job (e, v) h = rw h (refl, refl)

  -- A run that ends with a lost lease reports just that on top of what it reported before.
  pub process_lost :
      (now : ℤ) (cause : Option Error) (job : Job) (w : World S)
      → let r = handle_one F B W text now cause job w in
        r.0 ≡ some lease_lost
        → ((process F B W text now cause job w).backend ≡ r.1.backend)
          × ((process F B W text now cause job w).events ≡ job_lease_lost job ∷ r.1.events)
  unfolding process
  process_lost now cause job w h = observed_lost job (handle_one F B W text now cause job w) h
