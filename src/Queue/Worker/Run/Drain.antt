-- ===== src/Queue/Worker/Run/Drain.antt =====
-- queue/worker.go: Run, over any order of the steps.
use dist_tasks_go.Base.{
  ℕ, zero, suc, ◌*◌, ◌-◌, ◌≤◌, ◌<◌, ◌≡◌, ◌≢◌, refl, ◌⊎◌, inl, inr, true, false, Option, none, some,
  List, [], ◌∷◌, ◌++◌, ℤ, pos, ◌≤ℤ◌, length, length-append, arith,
}
use dist_tasks_go.Queue.Job.{Job, Error}
use dist_tasks_go.Queue.Retry.{Floats, second}
use dist_tasks_go.Queue.Backend.{Backend}
use dist_tasks_go.Queue.Worker.{WorkerConfig}
use dist_tasks_go.Queue.Worker.Fetch.{fetch, IsBounded, length-fetch}
use dist_tasks_go.Queue.Worker.Run.{
  RunState, RunEvent, stopped, cancel, leave_loop, drained, timeout, deregister, poll, finish,
  start, step, run, without, next_backoff,
}

length-without-le : (k : ℕ) (js : List Job) → length (without k js) ≤ length js
unfolding without
length-without-le k [] = omega arith
length-without-le zero (j ∷ js) = omega arith
length-without-le (suc k) (j ∷ js) = omega (arith, length-without-le k js)

module _ (F : Floats) {S : Type 0} (B : Backend S) (c : WorkerConfig F) (concurrency : ℕ)
    (bound : IsBounded F B c) where
  -- A running worker: no more jobs than its concurrency, leases renewed while a job runs, and the
  -- name given up only after the last one.
  pub record Inv (s : RunState S) : Type 0 where
    pub room : length s.running ≤ concurrency
    pub renewed : (s.heartbeat ≡ true) ⊎ (s.phase ≡ stopped)
    pub ended : (s.phase ≢ stopped) ⊎ (s.running ≡ [])
    pub forgotten : (s.deregistered ≡ false) ⊎ (s.phase ≡ stopped)
    pub paced : s.backoff ≤ℤ pos (10 * second)

  -- A round of the loop takes no more than there is room for.
  poll_room :
      (now last : ℤ) (s : RunState S)
      → length s.running < concurrency
      → length (s.running ++ (fetch F B c now last (concurrency - length s.running) s.backend).jobs)
        ≤ concurrency
  poll_room now last s h = omega (
    arith,
    length-append {0} s.running
        (fetch F B c now last (concurrency - length s.running) s.backend).jobs,
    length-fetch F B c now last (concurrency - length s.running) s.backend bound,
  )

  next_backoff-le :
      (b : ℤ) (e : Option Error) → next_backoff F B c concurrency b e ≤ℤ pos (10 * second)
  unfolding next_backoff
  next_backoff-le b none = omega arith
  next_backoff-le b (some e) = ground arith

  step-Inv : (e : RunEvent S) (s : RunState S) → Inv s → Inv (step F B c concurrency e s)
  unfolding step
  step-Inv cancel s h = ground arith
  step-Inv (poll now) s h = ground (
    arith,
    poll_room now s.last_recover s,
    next_backoff-le s.backoff
        (fetch F B c now s.last_recover (concurrency - length s.running) s.backend).error,
  )
  step-Inv (finish k after) s h = ground (arith, length-without-le k s.running)
  step-Inv leave_loop s h = ground arith
  step-Inv drained s h = ground arith
  step-Inv timeout s h = ground arith
  step-Inv deregister s h = ground arith

  -- In every order of the steps, from the start.
  pub run-Inv : (es : List (RunEvent S)) (s : RunState S) → Inv s → Inv (run F B c concurrency es s)
  unfolding run
  run-Inv [] s h = h
  run-Inv (e ∷ es) s h = run-Inv es (step F B c concurrency e s) (step-Inv e s h)

  start-Inv : (s : S) → Inv (start s)
  unfolding start
  start-Inv s = record {
    room = omega arith;
    renewed = inl refl;
    ended = inr refl;
    forgotten = inl refl;
    paced = omega arith;
  }

  -- Where the backend leases at most what it is asked for: after any steps from the start, a
  -- worker runs at most as many jobs as its concurrency, renews leases until it has stopped, has
  -- no job when it has stopped, deregisters only then, and backs off for at most 10 s.
  pub run-start-Inv : (es : List (RunEvent S)) (s : S) → Inv (run F B c concurrency es (start s))
  run-start-Inv es s = run-Inv es (start s) (start-Inv s)

  -- The ends of running jobs, in any order: each with its place among those that still run.
  abbrev pub ends : List (ℕ × S) → List (RunEvent S)
  ends [] = []
  ends ((k, after) ∷ fs) = finish k after ∷ ends fs

  abbrev pub AreRunning : ℕ → List (ℕ × S) → Type 0
  AreRunning n [] = Unit {0}
  AreRunning n ((k, after) ∷ fs) = (k < n) × AreRunning (n - 1) fs
