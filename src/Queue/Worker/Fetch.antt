-- ===== src/Queue/Worker/Fetch.antt =====
-- queue/worker.go: fetch, which leases expired jobs before new ones.
use mathlib.Core.List.{append-nil}
use dist_tasks_go.Base.{
  ℕ, zero, suc, ◌-◌, ◌≤◌, ◌<◌, String, ◌≡◌, sym, Bool, true, false, Option, none, some, List, [],
  ◌∷◌, ◌++◌, ℤ, pos, ◌-ℤ◌, leb_ℤ, ltb, arith, if◌then◌else◌, length, length-append, Bool-cases, inl,
  inr,
}
use dist_tasks_go.Queue.Job.{Job, Error, wrapped}
use dist_tasks_go.Queue.Retry.{Floats}
use dist_tasks_go.Queue.Backend.{Backend}
use dist_tasks_go.Queue.Worker.{WorkerConfig}

-- What fetch returns: jobs and perhaps an error, the time of the last full recovery, and the state.
pub record Fetched (S : Type 0) : Type 0 where
  pub jobs : List Job
  pub error : Option Error
  pub last_recover : ℤ
  pub state : S

module _ (F : Floats) {S : Type 0} (B : Backend S) (c : WorkerConfig F) where
  is_empty : List Job → Bool
  is_empty [] = true
  is_empty (j ∷ js) = false

  wrap : String → Option Error → Option Error
  wrap msg none = none
  wrap msg (some e) = some (wrapped msg e)

  -- New jobs for the room that recovery left; no wait if there is work already.
  wait_for : List Job → ℤ
  unfolding is_empty
  wait_for jobs = if is_empty jobs then (if c.poll_only then pos 0 else c.poll_interval) else pos 0

  claim_more : ℤ → ℕ → List Job → S → Fetched S
  unfolding wrap
  claim_more last limit jobs s =
      let r = B.claim c.id (pos (limit - length jobs)) (wait_for jobs) s in
      if ltb (length jobs) limit
      then record { jobs = jobs ++ r.0; error = wrap "claim" r.1; last_recover = last; state = r.2 }
      else record { jobs = jobs; error = none; last_recover = last; state = s }

  after_recover : ℤ → ℤ → ℕ → List Job × Option Error × S → Fetched S
  unfolding claim_more
  after_recover now last limit (jobs, some e, s) = record {
    jobs = jobs;
    error = some (wrapped "recover expired" e);
    last_recover = last;
    state = s;
  }
  after_recover now last limit (jobs, none, s) =
      claim_more (if ltb (length jobs) limit then now else last) limit jobs s

  unfoldable pub fetch : ℤ → ℤ → ℕ → S → Fetched S
  unfolding after_recover claim_more wait_for
  fetch now last limit s =
      if leb_ℤ c.poll_interval (now -ℤ last)
      then after_recover now last limit (B.recover_expired c.visibility_timeout c.id (pos limit) s)
      else claim_more last limit [] s

  -- The backend leases at most as many jobs as it is asked for. No claim asks for none.
  pub record IsBounded : Type 0 where
    pub claims :
        (id : String) (n : ℕ) (wait : ℤ) (s : S)
        → length (B.claim id (pos (suc n)) wait s).0 ≤ suc n
    pub recovers :
        (v : ℤ) (id : String) (n : ℕ) (s : S) → length (B.recover_expired v id (pos n) s).0 ≤ n

  claims_some :
      (id : String) (n : ℕ) (wait : ℤ) (s : S)
      → IsBounded
      → 0 < n
      → length (B.claim id (pos n) wait s).0 ≤ n
  claims_some id zero wait s bound h = absurd (omega arith)
  claims_some id (suc n) wait s bound h = bound.claims id n wait s

  claim_more-le :
      (last : ℤ) (limit : ℕ) (jobs : List Job) (s : S)
      → IsBounded
      → length jobs ≤ limit
      → length (claim_more last limit jobs s).jobs ≤ limit
  unfolding claim_more
  claim_more-le last limit jobs s bound h = elim (Bool-cases (ltb (length jobs) limit)) [
    | inl room ↦ rw room (
        omega (
          arith,
          length-append {0} jobs (B.claim c.id (pos (limit - length jobs)) (wait_for jobs) s).0,
          claims_some c.id (limit - length jobs) (wait_for jobs) s bound (ground arith),
        ))
    | inr full ↦ rw full h
  ]

  after_recover-le :
      (now last : ℤ) (limit : ℕ) (r : List Job × Option Error × S)
      → IsBounded
      → length r.0 ≤ limit
      → length (after_recover now last limit r).jobs ≤ limit
  unfolding after_recover
  after_recover-le now last limit (jobs, some e, s) bound h = h
  after_recover-le now last limit (jobs, none, s) bound h = claim_more-le _ limit jobs s bound h

  -- Where the backend leases at most what it is asked for: recovered and newly claimed jobs
  -- together are at most as many as fetch is asked for.
  pub length-fetch :
      (now last : ℤ) (limit : ℕ) (s : S) → IsBounded → length (fetch now last limit s).jobs ≤ limit
  unfolding fetch
  length-fetch now last limit s bound = elim (Bool-cases (leb_ℤ c.poll_interval (now -ℤ last))) [
    | inl due ↦
        rw due (
          after_recover-le now last limit _ bound
            (bound.recovers c.visibility_timeout c.id limit s))
    | inr early ↦ rw early (claim_more-le last limit [] s bound (omega arith))
  ]

  abbrev pub HasPrefix : List Job → List Job → Type 0
  HasPrefix xs ys = (zs : List Job) × (ys ≡ xs ++ zs)

  -- When the poll interval has passed since the last recovery: the jobs that recovery leased are
  -- returned, and first, also where recovery or the claim after it fails.
  pub fetch-recovered :
      (now last : ℤ) (limit : ℕ) (s : S)
      → leb_ℤ c.poll_interval (now -ℤ last) ≡ true
      → HasPrefix
          (B.recover_expired c.visibility_timeout c.id (pos limit) s).0
          (fetch now last limit s).jobs
  unfolding fetch
  fetch-recovered now last limit s due =
      rw due (kept now last limit (B.recover_expired c.visibility_timeout c.id (pos limit) s))
    where
      kept :
          (now last : ℤ) (limit : ℕ) (r : List Job × Option Error × S)
          → HasPrefix r.0 (after_recover now last limit r).jobs
      kept now last limit (jobs, some e, s) = ([], sym (append-nil jobs))
      kept now last limit (jobs, none, s) = elim (Bool-cases (ltb (length jobs) limit)) [
        | inl room ↦ ((B.claim c.id (pos (limit - length jobs)) (wait_for jobs) s).0, rw room)
        | inr full ↦ ([], rw full (sym (append-nil jobs)))
      ]
