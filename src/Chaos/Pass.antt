-- ===== src/Chaos/Pass.antt =====
-- cmd/chaos/main.go: when a chaos run passes.
use dist_tasks_go.Base.{
  ℕ, zero, suc, ◌+◌, ◌%◌, ◌<◌, String, ◌≡◌, ◌↔◌, ◌⊎◌, refl, Bool, true, false, not, ◌&&◌, ◌||◌,
  Option, none, some, List, [], ◌∷◌, arith, ltb, ◌==◌, if◌then◌else◌, length, length-append, All, ℤ,
  pos, negsuc, ◌+ℤ◌, ◌≤ℤ◌, ◌<ℤ◌, ◌^◌, ltb_ℤ, int64,
}
use dist_tasks_go.Queue.Job.{Result, ok, err}
use dist_tasks_go.Redis.{is_some}
use dist_tasks_go.Store.Claim.{Stats}
use dist_tasks_go.Chaos.{
  Execution, permanent_every, executions_of, dead_reason, Tally, tally, tally_job, tally_runs,
  tally_dead, is_none, duplicate_effects, missing_effects, leftover, report,
}

-- The payloads below a number.
abbrev pub below : ℕ → List ℕ
below zero = []
below (suc n) = n ∷ below n

-- The gauges are numbers of jobs.
abbrev pub IsCount : ℤ → Type 0
IsCount z = (pos 0 ≤ℤ z) × (z <ℤ pos (2 ^ 61))

abbrev pub AreGauges : Result Stats → Type 0
AreGauges (err e) = Unit {0}
AreGauges (ok st) = IsCount st.stream_length × IsCount st.in_flight × IsCount st.retry_scheduled

-- The gauges say that nothing is left, or could not be read.
abbrev pub SaysEmpty : Result Stats → Type 0
SaysEmpty (err e) = Unit {0}
SaysEmpty (ok st) =
    (st.stream_length ≡ pos 0) × (st.in_flight ≡ pos 0) × (st.retry_scheduled ≡ pos 0)

sum_iff :
    (a b c : ℤ)
    → IsCount a
    → IsCount b
    → IsCount c
    → (ltb_ℤ (pos 0) (int64 (int64 (a +ℤ b) +ℤ c)) ≡ false)
      ↔ ((a ≡ pos 0) × (b ≡ pos 0) × (c ≡ pos 0))
unfolding int64 ◌+ℤ◌
sum_iff (pos a) (pos b) (pos c) p q r = ground arith
sum_iff (negsuc a) b c p q r = absurd (omega arith)
sum_iff (pos a) (negsuc b) c p q r = absurd (omega arith)
sum_iff (pos a) (pos b) (negsuc c) p q r = absurd (omega arith)

leftover_lem :
    (stats : Result Stats)
    → AreGauges stats
    → (ltb_ℤ (pos 0) (leftover stats) ≡ false) ↔ SaysEmpty stats
unfolding leftover
leftover_lem (err e) h = ((λ p. tt), (λ p. refl))
leftover_lem (ok st) (p, q, r) = sum_iff st.stream_length st.in_flight st.retry_scheduled p q r

module _ (ledger : List (ℕ × Execution)) (dead : List (ℕ × String)) (effects : ℕ → ℕ) where
  abbrev is_dead : ℕ → Bool
  is_dead id = is_some (dead_reason id dead)

  abbrev ran : ℕ → Bool
  ran id = not (is_none (executions_of id ledger))

  -- A job that must fail is dead and has no run that got to its effect; another one ran, or is dead.
  abbrev Settled : ℕ → Type 0
  Settled id =
      ((id % permanent_every ≡ 0) × (is_dead id ≡ true) × (ran id ≡ false))
      ⊎ ((0 < id % permanent_every) × ((ran id ≡ true) ⊎ (is_dead id ≡ true)))

  -- Its effect was applied exactly once, or never where it is dead.
  abbrev Effective : ℕ → Type 0
  Effective id = (effects id ≡ 1) ⊎ ((effects id ≡ 0) × (is_dead id ≡ true))

  abbrev pub Kept : ℕ → Type 0
  Kept id = Settled id × Effective id

  runs_keep :
      (es : List Execution) (t : Tally)
      → ((tally_runs es t).lost ≡ t.lost) × ((tally_runs es t).misrouted ≡ t.misrouted)
  unfolding tally_runs
  runs_keep [] t = (refl, refl)
  runs_keep (e ∷ es) t = (refl, refl)

  dead_keep :
      (r : Option String) (t : Tally)
      → ((tally_dead r t).lost ≡ t.lost) × ((tally_dead r t).misrouted ≡ t.misrouted)
  unfolding tally_dead
  dead_keep none t = (refl, refl)
  dead_keep (some r) t = (refl, refl)

  abbrev wrong : Tally → ℕ
  wrong t = length t.lost + length t.misrouted

  -- One job counts as wrong exactly if it is not settled.
  tally_job-wrong :
      (id : ℕ) (es : List Execution) (r : Option String) (t : Tally)
      → wrong (tally_job id es r t)
        ≡ wrong t
          + (if id % permanent_every == 0
              then (if is_some r && is_none es then 0 else 1)
              else (if is_none es && not (is_some r) then 1 else 0))
  unfolding tally_job
  tally_job-wrong id es r t = ground (
    arith,
    length-append {0} t.lost (id ∷ []),
    length-append {0} t.misrouted (id ∷ []),
    runs_keep es (tally_dead r t),
    dead_keep r t,
  )

  -- The jobs below a number that are not settled, and those whose effect is wrong.
  unsettled : ℕ → Bool
  unsettled id =
      if id % permanent_every == 0
      then not (is_dead id) || ran id
      else not (ran id) && not (is_dead id)

  ineffective : ℕ → Bool
  ineffective id = ltb 1 (effects id) || (effects id == 0 && not (is_dead id))

  no_wrong : ℕ → Bool
  no_wrong n =
      wrong (tally ledger dead n) == 0
      && length (duplicate_effects ledger dead effects n) == 0
      && length (missing_effects ledger dead effects n) == 0

  no_wrong-suc :
      (n : ℕ) → no_wrong (suc n) ≡ (not (unsettled n) && not (ineffective n) && no_wrong n)
  unfolding no_wrong unsettled ineffective tally duplicate_effects missing_effects
  no_wrong-suc n = ground (
    arith,
    tally_job-wrong n (executions_of n ledger) (dead_reason n dead) (tally ledger dead n),
    length-append {0} (duplicate_effects ledger dead effects n) (n ∷ []),
    length-append {0} (missing_effects ledger dead effects n) (n ∷ []),
  )

  settled_lem : (id : ℕ) → (unsettled id ≡ false) ↔ Settled id
  unfolding unsettled
  settled_lem id = ground arith

  effective_lem : (id : ℕ) → (ineffective id ≡ false) ↔ Effective id
  unfolding ineffective
  effective_lem id = ground arith

  no_wrong_iff : (n : ℕ) → (no_wrong n ≡ true) ↔ All Kept (below n)
  no_wrong_iff zero =
      unfold no_wrong tally duplicate_effects missing_effects in ((λ h. tt), (λ h. refl))
  no_wrong_iff (suc n) =
      rw (no_wrong-suc n) (ground (arith, settled_lem n, effective_lem n, no_wrong_iff n))

  -- Where the gauges, if they can be read, are numbers of jobs below 2^61: a chaos run passes
  -- exactly if they say that nothing is in the stream, in flight or scheduled, or cannot be read,
  -- no worker crashed, and each job is as it should be: one that must fail is dead and has no
  -- recorded run, another one ran or is dead, and its effect was applied exactly once, or never
  -- where it is dead.
  pub report_iff :
      (jobs : ℕ) (stats : Result Stats) (crashed : ℕ)
      → AreGauges stats
      → (report ledger dead effects jobs stats crashed ≡ 0)
        ↔ (All Kept (below jobs) × SaysEmpty stats × (crashed ≡ 0))
  unfolding report no_wrong
  report_iff jobs stats crashed small = ground (arith, no_wrong_iff jobs, leftover_lem stats small)
