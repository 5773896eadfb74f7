-- ===== src/Queue/Worker/Acks/Answered.antt =====
-- queue/worker.go: what ackLoop answers, against the acks one by one.
use mathlib.Core.List.{append_assoc, append-nil}
use dist_tasks_go.Base.{
  ℕ, zero, suc, ◌≤◌, ◌≡◌, refl, ap, sym, subst, ◌∙◌, Bool, true, false, Option, List, [], ◌∷◌, ◌++◌,
  arith, if◌then◌else◌, length, take, drop, take-append-drop,
}
use dist_tasks_go.Queue.Job.{Job, Error}
use dist_tasks_go.Queue.Worker.Batch.{max_batch, call_each, deliver}
use dist_tasks_go.Queue.Worker.Batch.Each.{length-drop-le}
use dist_tasks_go.Queue.Worker.Acks.{
  AckLoop, AckEvent, arrives, round, stop, idle_loop, ack_batch_of, step, run,
}

-- Each ack by itself: the job with its own answer, and the state at the end.
abbrev pub acks_alone :
    {S : Type 0} → (Job → S → Option Error × S) → List Job → S → List (Job × Option Error) × S
acks_alone one [] s = ([], s)
acks_alone one (j ∷ js) s =
    let own = one j s in let rest = acks_alone one js own.1 in ((j, own.0) ∷ rest.0, rest.1)

-- The requests that arrive, in their order.
abbrev pub arrived : List AckEvent → List Job
arrived [] = []
arrived (arrives j ∷ es) = j ∷ arrived es
arrived (round ∷ es) = arrived es
arrived (stop ∷ es) = arrived es

abbrev pub rounds : ℕ → List AckEvent
rounds zero = []
rounds (suc n) = round ∷ rounds n

module _ {S : Type 0} (one : Job → S → Option Error × S) where
  acks_alone-append :
      (xs ys : List Job) (s : S)
      → let r = acks_alone one xs s in
        let r' = acks_alone one ys r.1 in acks_alone one (xs ++ ys) s ≡ (r.0 ++ r'.0, r'.1)
  acks_alone-append [] ys s = refl
  acks_alone-append (x ∷ xs) ys s = rw (acks_alone-append xs ys (one x s).1) refl

  call_each-alone :
      (js : List Job) (s : S)
      → (deliver js (call_each one js s).0, (call_each one js s).1) ≡ acks_alone one js s
  unfolding deliver call_each
  call_each-alone [] s = refl
  call_each-alone (j ∷ js) s = ground (arith, call_each-alone js (one j s).1)

module _ {S : Type 0} (call : List Job → S → List (Option Error) × S)
    (one : Job → S → Option Error × S)
    (single : (js : List Job) (s : S) → call js s ≡ call_each one js s) where
  -- The answers so far, and those of the requests that still wait, are those of the acks one by one.
  abbrev Told : List Job → S → AckLoop S → Type 0
  Told jobs s t =
      let rest = acks_alone one t.waiting t.backend in
      acks_alone one jobs s ≡ (t.answers ++ rest.0, rest.1)

  arrives-Told :
      (j : Job) (jobs : List Job) (s : S) (t : AckLoop S)
      → Told jobs s t
      → Told (jobs ++ j ∷ []) s (step call (arrives j) t)
  unfolding step
  arrives-Told j jobs s t h =
      rw
        (
          acks_alone-append one jobs (j ∷ []) s,
          h,
          acks_alone-append one t.waiting (j ∷ []) t.backend,
        )
        (rw append_assoc refl)

  split_alone :
      (xs ys : List Job) (b : S) (answers : List (Job × Option Error))
      → let whole = acks_alone one (xs ++ ys) b in
        let r = call xs b in
        let rest = acks_alone one ys r.1 in
        ◌≡◌ {A = List (Job × Option Error) × S}
          (answers ++ whole.0, whole.1)
          ((answers ++ deliver xs r.0) ++ rest.0, rest.1)
  split_alone xs ys b answers =
      rw (acks_alone-append one xs ys b, single xs b, ← call_each-alone one xs b, append_assoc) refl

  batch-Told :
      (w jobs : List Job) (s : S) (t : AckLoop S)
      → t.waiting ≡ w
      → Told jobs s t
      → Told jobs s (ack_batch_of call w t)
  unfolding ack_batch_of
  batch-Told [] jobs s t e h = h
  batch-Told (j ∷ js) jobs s t e h =
      let xs = take max_batch (j ∷ js) in
      let ys = drop max_batch (j ∷ js) in
      h
      ∙ ap (λ l. (t.answers ++ (acks_alone one l t.backend).0, (acks_alone one l t.backend).1))
          (e ∙ sym (take-append-drop max_batch (j ∷ js)))
      ∙ split_alone xs ys t.backend t.answers

  round-Told :
      (jobs : List Job) (s : S) (t : AckLoop S) → Told jobs s t → Told jobs s (step call round t)
  unfolding step
  round-Told jobs s t h = either t.stopped
    where
      either : (b : Bool) → Told jobs s (if b then t else ack_batch_of call t.waiting t)
      either true = h
      either false = batch-Told t.waiting jobs s t refl h

  run-Told :
      (es : List AckEvent) (jobs : List Job) (s : S) (t : AckLoop S)
      → Told jobs s t
      → Told (jobs ++ arrived es) s (run call es t)
  unfolding run
  run-Told [] jobs s t h = rw (append-nil jobs) h
  run-Told (arrives j ∷ es) jobs s t h =
      rw (sym (append_assoc jobs (j ∷ []) (arrived es)))
        (run-Told es (jobs ++ j ∷ []) s (step call (arrives j) t) (arrives-Told j jobs s t h))
  run-Told (round ∷ es) jobs s t h = run-Told es jobs s (step call round t) (round-Told jobs s t h)
  run-Told (stop ∷ es) jobs s t h = run-Told es jobs s (step call stop t) (unfold step in h)

  emptied_one :
      (n : ℕ) (w : List Job) (t : AckLoop S)
      → t.stopped ≡ false
      → length w ≤ suc n
      → ((ack_batch_of call w t).stopped ≡ false)
        × (t.waiting ≡ w → length (ack_batch_of call w t).waiting ≤ n)
  unfolding ack_batch_of
  emptied_one n [] t go h = (go, λ e. rw e (omega arith))
  emptied_one n (j ∷ js) t go h = (go, λ e. omega (arith, length-drop-le 255 (j ∷ js)))

  -- Rounds answer what waits, unless the loop was stopped.
  emptied :
      (n : ℕ) (t : AckLoop S)
      → t.stopped ≡ false
      → length t.waiting ≤ n
      → (run call (rounds n) t).waiting ≡ []
  unfolding run
  emptied zero t go h = nothing t.waiting h
    where
      nothing : (js : List Job) → length js ≤ 0 → js ≡ []
      nothing [] h = refl
      nothing (j ∷ js) h = absurd (omega arith)
  emptied (suc n) t go h =
      let (still, shorter) = emptied_one n t.waiting t go h in
      emptied n (step call round t) (unfold step in simp go still)
        (unfold step in simp go (shorter refl))

  arrived_only : (js : List Job) (n : ℕ) → js ++ arrived (rounds n) ≡ js
  arrived_only js zero = append-nil js
  arrived_only js (suc n) = arrived_only js n

  nothing_left :
      (t : AckLoop S)
      → t.waiting ≡ []
      → let rest = acks_alone one t.waiting t.backend in
        ◌≡◌ {A = List (Job × Option Error) × S} (t.answers ++ rest.0, rest.1) (t.answers, t.backend)
  nothing_left t e = rw e (rw (append-nil t.answers) refl)

  -- Where a batch call does what the single calls do: after any arrivals and rounds of ackLoop in
  -- any order, while it is not stopped, and as many further rounds as acks wait, none waits, and
  -- each ack that arrived has been sent what its own call answers, once and in order, in the
  -- state that the calls one by one leave.
  pub run-rounds :
      (es : List AckEvent) (n : ℕ) (s : S)
      → (run call es (idle_loop s)).stopped ≡ false
      → length (run call es (idle_loop s)).waiting ≤ n
      → let t = run call (rounds n) (run call es (idle_loop s)) in
        (t.waiting ≡ []) × ((t.answers, t.backend) ≡ acks_alone one (arrived es) s)
  run-rounds es n s go h =
      let u = run call es (idle_loop s) in
      let none_left = emptied n u go h in
      let told = run-Told (rounds n) (arrived es) s u (run-Told es [] s (idle_loop s) refl) in
      let told_all : Told (arrived es) s (run call (rounds n) u) =
        subst (λ l. Told l s (run call (rounds n) u)) (arrived_only (arrived es) n) told in
      (none_left, sym (told_all ∙ nothing_left (run call (rounds n) u) none_left))
