-- ===== src/Queue/Producer/Laws.antt =====
-- queue/queue.go: what newJob and EnqueueBatch return.
use dist_tasks_go.Base.{
  ℕ, suc, String, ◌≡◌, refl, ap, ◌∙◌, Option, none, some, List, [], ◌∷◌, ◌++◌, pos, ◌<ℤ◌, ◌+ℤ◌,
  arith, length,
}
use dist_tasks_go.Queue.Job.{Job, Error, Result, ok, err, validate}
use dist_tasks_go.Queue.Backend.{Backend, World, Event}
use dist_tasks_go.Queue.Producer.{
  Request, new_job, traced, report_enqueue, enqueue, enqueue_job, new_jobs, cons_job, enqueue_batch,
  enqueue_each, continue_each, store_jobs, store_batch, trace_batch, copy_ids, blanks, share_trace,
}

-- A job that new_job makes is valid, has a positive maximum of attempts and no attempt yet, is
-- available after the delay, and has the drawn ID and the idempotency key of the options.
new_job-valid :
    (r : Request) (j : Job)
    → new_job r ≡ ok j
    → (validate j ≡ none)
      × (pos 0 <ℤ j.max_attempts)
      × (j.attempt ≡ pos 0)
      × (j.available_at ≡ r.draw.now +ℤ r.options.delay)
      × (j.id ≡ r.draw.id)
      × (j.idempotency_key ≡ r.options.idempotency_key)
unfolding new_job validate
new_job-valid r j h = ground arith

-- One ID for each request, if every request makes a job.
length-blanks : (js : List Job) → length (blanks js) ≡ length js
length-blanks [] = refl
length-blanks (j ∷ js) = omega (arith, length-blanks js)

abbrev Fails : Result (List Job) → Type 0
Fails r = (e : Error) × (r ≡ err e)

cons_job-Fails : (a : Result Job) (r : Result (List Job)) → Fails r → Fails (cons_job a r)
unfolding cons_job
cons_job-Fails (err e) r h = (e, refl)
cons_job-Fails (ok j) r (e, h) = (e, rw h)

new_jobs-Fails :
    (xs : List Request) (r : Request) (ys : List Request) (e : Error)
    → new_job r ≡ err e
    → Fails (new_jobs (xs ++ r ∷ ys))
unfolding new_jobs
new_jobs-Fails [] r ys e h = (e, rw h)
new_jobs-Fails (x ∷ xs) r ys e h =
    cons_job-Fails (new_job x) (new_jobs (xs ++ r ∷ ys)) (new_jobs-Fails xs r ys e h)

length-share_trace : (tp : String) (js : List Job) → length (share_trace tp js) ≡ length js
length-share_trace tp [] = refl
length-share_trace tp (j ∷ js) = omega (arith, length-share_trace tp js)

length-copy_ids : (js : List Job) (got : List String) → length (copy_ids js got) ≡ length js
length-copy_ids [] got = refl
length-copy_ids (j ∷ js) [] = omega (arith, length-copy_ids js [])
length-copy_ids (j ∷ js) (id ∷ got) = omega (arith, length-copy_ids js got)

length-cons_job :
    (a : Result Job) (rest : Result (List Job)) (js : List Job) (n : ℕ)
    → ((tail : List Job) → rest ≡ ok tail → length tail ≡ n)
    → cons_job a rest ≡ ok js
    → length js ≡ suc n
unfolding cons_job
length-cons_job (err e) rest js n ih h = cc
length-cons_job (ok j) (err e) js n ih h = cc
length-cons_job (ok j) (ok tail) js n ih h = ground (arith, ih tail refl)

length-new_jobs : (rs : List Request) (js : List Job) → new_jobs rs ≡ ok js → length js ≡ length rs
unfolding new_jobs
length-new_jobs [] js h = ground arith
length-new_jobs (r ∷ rs) js h =
    length-cons_job (new_job r) (new_jobs rs) js (length rs) (length-new_jobs rs) h

module _ {S : Type 0} (B : Backend S) where
  -- A batch with a request that makes no job, wherever it stands, answers with an error and
  -- without IDs, and neither the backend nor the reports change.
  pub enqueue_batch-invalid :
      (tp : Option String) (xs : List Request) (r : Request) (ys : List Request) (e : Error)
      (w : World S)
      → new_job r ≡ err e
      → (e' : Error) × (enqueue_batch B tp (xs ++ r ∷ ys) w ≡ ([], some e', w))
  unfolding enqueue_batch
  enqueue_batch-invalid tp xs r ys e w h =
      let (e', fails) = new_jobs-Fails xs r ys e h in (e', rw fails)

  length-continue_each :
      (r : Result String × S) (js : List Job) (rest : S → List String × Option Error × S)
      → ((s : S) → length (rest s).0 ≡ length js)
      → length (continue_each B r js rest).0 ≡ suc (length js)
  unfolding continue_each
  length-continue_each (err e, s) js rest ih = ap suc (length-blanks js)
  length-continue_each (ok id, s) js rest ih = ap suc (ih s)

  length-enqueue_each : (js : List Job) (s : S) → length (enqueue_each B js s).0 ≡ length js
  unfolding enqueue_each
  length-enqueue_each [] s = refl
  length-enqueue_each (j ∷ js) s =
      length-continue_each (B.enqueue j s) js (enqueue_each B js) (length-enqueue_each js)

  length-store_jobs :
      (o : Option (List Job → S → List String × Option Error × S)) (js : List Job) (s : S)
      → length (store_jobs B o js s).0 ≡ length js
  unfolding store_jobs
  length-store_jobs none js s = length-enqueue_each js s
  length-store_jobs (some batch) js s = length-copy_ids js (batch js s).0

  length-store_batch :
      (tp : Option String) (js : List Job) (w : World S)
      → length (store_batch B tp (ok js) w).0 ≡ length js
  unfolding store_batch
  length-store_batch tp [] w = refl
  length-store_batch tp (j ∷ js) w =
      length-store_jobs B.enqueue_batch (trace_batch tp (j ∷ js)) w.backend
      ∙ ap suc (length-share_trace _ js)

  -- A batch whose requests all make jobs answers with one ID for each, also where storing them
  -- fails and whatever number of IDs the backend returns.
  length-enqueue_batch :
      (tp : Option String) (rs : List Request) (js : List Job) (w : World S)
      → new_jobs rs ≡ ok js
      → length (enqueue_batch B tp rs w).0 ≡ length rs
  unfolding enqueue_batch
  length-enqueue_batch tp rs js w h = rw h (length-store_batch tp js w ∙ length-new_jobs rs js h)

  report_enqueue_kept :
      (j : Job) (r : Result String × S) (es : List Event)
      → ((report_enqueue B j r es).0 ≡ r.0) × ((report_enqueue B j r es).1.backend ≡ r.1)
  unfolding report_enqueue
  report_enqueue_kept j (err e, s) es = (refl, refl)
  report_enqueue_kept j (ok id, s) es = (refl, refl)

  -- An enqueue whose job is made has the answer and the effect of the backend's.
  pub enqueue_made :
      (tp : Option String) (r : Request) (j : Job) (w : World S)
      → new_job r ≡ ok j
      → ((enqueue B tp r w).0 ≡ (B.enqueue (traced tp j) w.backend).0)
        × ((enqueue B tp r w).1.backend ≡ (B.enqueue (traced tp j) w.backend).1)
  unfolding enqueue enqueue_job
  enqueue_made tp r j w made =
      rw made (report_enqueue_kept (traced tp j) (B.enqueue (traced tp j) w.backend) w.events)
