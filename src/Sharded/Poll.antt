-- ===== src/Sharded/Poll.antt =====
-- redisstream/sharded.go: the long polls (Claim's wait in waitForJobs, poll, Close), as steps of the
-- worker that claims and of one poller for each partition. A Sharded is used by one worker, whose
-- claims come one after the other. A step that is not enabled does nothing.
pub mod Counting
pub mod Wake
pub mod Room
pub mod Ledger
pub mod Closing
use dist_tasks_go.Base.{
  ℕ, zero, suc, ◌+◌, ◌-◌, ◌/◌, ◌≤◌, String, Bool, true, false, not, ◌&&◌, ◌||◌, List, [], ◌∷◌, ◌++◌,
  ℤ, ltb, leb, ◌==◌, if◌then◌else◌, length, take, drop,
}
use dist_tasks_go.Queue.Job.{Job, Lease, Result, ok, err}
use dist_tasks_go.Sharded.{tag}

pub record PollArgs : Type 0 where
  pub worker : String
  pub count : ℕ
  pub wait : ℤ

-- Where the poller of a partition stands: there is none, it is at the head of its loop, or it blocks in
-- claimBlocking with the arguments that it read there.
pub data Place : Type 0 where
  absent checking : Place
  reading : PollArgs → Place

-- The worker: not waiting for a poll, in the sweep of a Claim that found the buffer empty, or in
-- waitForJobs.
pub data Claimer : Type 0 where
  away sweeping waits : Claimer

-- `signals` counts the pollers that stored jobs and have yet to signal `arrived`. The last three are
-- the history: the jobs that polls leased, those that claims took from the buffer, and those dropped.
pub record Polls : Type 0 where
  pub waiting : ℕ
  pub polling : ℕ → Bool
  pub place : ℕ → Place
  pub poll_with : PollArgs
  pub buffered : List Job
  pub closed : Bool
  pub cancelled : Bool
  pub signals : ℕ
  pub arrived : Bool
  pub claimer : Claimer
  pub leased : List Job
  pub handed : List Job
  pub dropped : List Job

-- `take_first` is takeBuffered at the start of a Claim, for one job more than its number, and `found`
-- the end of a sweep that need not wait; `enter` is the start of waitForJobs. `read` is the end of a
-- claimBlocking, `expire` a wait that ends by its time, its context or Close, `drop_lost` the buffer's
-- part of ExtendBatch.
pub data PollEvent : Type 0 where
  take_first : ℕ → PollEvent
  found signal mark_closed stop_polls : PollEvent
  enter : String → ℕ → ℤ → PollEvent
  check : ℕ → PollEvent
  read : ℕ → Result (List Job) → PollEvent
  wake expire : ℕ → PollEvent
  drop_lost : (Lease → Bool) → PollEvent

abbrev pub max_ℕ : ℕ → ℕ → ℕ
max_ℕ a b = if ltb a b then b else a

-- The share of a limit for each of `parts` partitions.
unfoldable pub share : ℕ → ℕ → ℕ
share parts limit = max_ℕ 1 ((limit + parts - 1) / parts)

abbrev pub is_empty : List Job → Bool
is_empty [] = true
is_empty (j ∷ js) = false

abbrev pub is_absent : Place → Bool
is_absent absent = true
is_absent _ = false

abbrev pub is_waits : Claimer → Bool
is_waits waits = true
is_waits _ = false

abbrev pub is_sweeping : Claimer → Bool
is_sweeping sweeping = true
is_sweeping _ = false

abbrev pub is_away : Claimer → Bool
is_away away = true
is_away _ = false

abbrev pub set_at {ℓ} : {A : Type ℓ} → ℕ → A → (ℕ → A) → ℕ → A
set_at p a f q = if p == q then a else f q

-- The buffer without the jobs whose lease is lost, and those jobs.
abbrev pub keep : (Lease → Bool) → List Job → List Job
keep lost [] = []
keep lost (j ∷ js) = if lost j.lease then keep lost js else j ∷ keep lost js

abbrev pub lose : (Lease → Bool) → List Job → List Job
lose lost [] = []
lose lost (j ∷ js) = if lost j.lease then j ∷ lose lost js else lose lost js

-- takeBuffered, and where the claimer goes on.
unfoldable pub take_to : ℕ → Claimer → Polls → Polls
take_to limit next s = record s {
  buffered = drop limit s.buffered;
  handed = s.handed ++ take limit s.buffered;
  claimer = next;
}

-- A poller's loop ends.
unfoldable pub leave : ℕ → Polls → Polls
leave p s = record s { polling = set_at p false s.polling; place = set_at p absent s.place }

-- What claimBlocking gives: an error or nothing sends the poller back to the head of its loop; jobs are
-- buffered, and end it.
unfoldable pub receive : ℕ → List Job → Polls → Polls
unfolding leave
receive p [] s = record s { place = set_at p checking s.place }
receive p (j ∷ js) s = record (leave p s) {
  buffered = s.buffered ++ tag p (j ∷ js);
  leased = s.leased ++ tag p (j ∷ js);
  signals = suc s.signals;
}

-- The server gives at most as many as asked for.
unfoldable pub answered : ℕ → Result (List Job) → Place → Polls → Polls
unfolding receive
answered p r absent s = s
answered p r checking s = s
answered p (err e) (reading args) s = record s { place = set_at p checking s.place }
answered p (ok jobs) (reading args) s = if leb (length jobs) args.count then receive p jobs s else s

-- The head of the loop: a poller ends when no Claim waits, or on Close.
unfoldable pub checked : ℕ → Place → Polls → Polls
unfolding leave
checked p absent s = s
checked p (reading args) s = s
checked p checking s =
    if s.waiting == 0 || s.cancelled
    then leave p s
    else record s { place = set_at p (reading s.poll_with) s.place }

module _ (parts : ℕ) where
  -- waitForJobs up to its wait: every partition without a poller gets one.
  unfoldable pub start_waiting : String → ℕ → ℤ → Polls → Polls
  unfolding share
  start_waiting worker limit wait s = record s {
    waiting = suc s.waiting;
    claimer = waits;
    poll_with = record { worker = worker; count = share parts limit; wait = wait };
    polling = λ p. ltb p parts || s.polling p;
    place = λ p. if ltb p parts && not (s.polling p) then checking else s.place p;
  }

  unfoldable pub step : PollEvent → Polls → Polls
  unfolding take_to start_waiting checked answered
  step (take_first n) s =
      if is_away s.claimer
      then take_to (suc n) (if is_empty s.buffered then sweeping else away) s
      else s
  step found s = if is_sweeping s.claimer then record s { claimer = away } else s
  step (enter worker limit wait) s =
      if is_sweeping s.claimer
      then (if s.closed then record s { claimer = away } else start_waiting worker limit wait s)
      else s
  step (check p) s = checked p (s.place p) s
  step (read p r) s = answered p r (s.place p) s
  step signal s =
      if ltb 0 s.signals then record s { signals = s.signals - 1; arrived = true } else s
  step (wake n) s =
      let taken = record (take_to (suc n) away s) { waiting = s.waiting - 1; arrived = false } in
      if is_waits s.claimer && s.arrived
      then (if is_empty s.buffered then record s { arrived = false } else taken)
      else s
  step (expire n) s =
      if is_waits s.claimer then record (take_to (suc n) away s) { waiting = s.waiting - 1 } else s
  step (drop_lost lost) s = record s {
    buffered = keep lost s.buffered;
    dropped = s.dropped ++ lose lost s.buffered;
  }
  step mark_closed s = record s { closed = true }
  step stop_polls s = if s.closed then record s { cancelled = true } else s

  unfoldable pub run : List PollEvent → Polls → Polls
  unfolding step
  run [] s = s
  run (e ∷ es) s = run es (step e s)

-- NewSharded: no poll, nothing buffered.
abbrev pub fresh : Polls
fresh = record {
  waiting = 0;
  polling = λ p. false;
  place = λ p. absent;
  poll_with = record { worker = ""; count = 0; wait = ℤ.pos 0 };
  buffered = [];
  closed = false;
  cancelled = false;
  signals = 0;
  arrived = false;
  claimer = away;
  leased = [];
  handed = [];
  dropped = [];
}
