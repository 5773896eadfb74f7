-- ===== src/Chaos.antt =====
-- cmd/chaos/main.go: the report of a chaos run, from the ledger of the runs, the dead letters and the
-- effects. What the report reads is parsed here already; its printing is left out. Times are
-- microseconds since 1970, so that the difference of two cannot wrap.
pub mod Enqueues
pub mod Faults
pub mod Handler
pub mod Overlap
pub mod Pass
use dist_tasks_go.Base.{
  ℕ, zero, suc, ◌+◌, ◌-◌, ◌%◌, String, Bool, true, false, not, ◌&&◌, ◌||◌, Option, none, some, List,
  [], ◌∷◌, ◌++◌, ltb, ◌==◌, str_eq, if◌then◌else◌, length, ℤ, pos, ◌+ℤ◌, ltb_ℤ, int64,
}
use dist_tasks_go.Queue.Job.{Result, ok, err}
use dist_tasks_go.Redis.{is_some}
use dist_tasks_go.Store.Claim.{Stats}

pub record Execution : Type 0 where
  pub start : ℕ
  pub end : ℕ

abbrev pub permanent_every : ℕ
permanent_every = 50

-- executions[n] and deadReason[n]; a later dead letter of a job replaces an earlier one.
unfoldable pub executions_of : ℕ → List (ℕ × Execution) → List Execution
executions_of n [] = []
executions_of n ((m, e) ∷ ledger) =
    let rest = executions_of n ledger in if m == n then e ∷ rest else rest

abbrev or_else : Option String → Option String → Option String
or_else none b = b
or_else (some a) b = some a

unfoldable pub dead_reason : ℕ → List (ℕ × String) → Option String
dead_reason n [] = none
dead_reason n ((m, reason) ∷ dead) =
    or_else (dead_reason n dead) (if m == n then some reason else none)

-- slices.SortFunc by the start.
unfoldable pub insert : Execution → List Execution → List Execution
insert e [] = e ∷ []
insert e (x ∷ xs) = let rest = insert e xs in if ltb x.start e.start then x ∷ rest else e ∷ x ∷ xs

unfoldable pub sort : List Execution → List Execution
unfolding insert
sort [] = []
sort (e ∷ es) = insert e (sort es)

-- An execution that starts before the one before it ends.
unfoldable pub overlaps : List Execution → Bool
overlaps [] = false
overlaps (a ∷ []) = false
overlaps (a ∷ b ∷ es) = ltb b.start a.end || overlaps (b ∷ es)

pub record Tally : Type 0 where
  pub completed : ℕ
  pub dead_expected : ℕ
  pub duplicates : ℕ
  pub overlapping : ℕ
  pub lost : List ℕ
  pub misrouted : List ℕ
  pub other_dead : String → ℕ

abbrev pub no_tally : Tally
no_tally = record {
  completed = 0;
  dead_expected = 0;
  duplicates = 0;
  overlapping = 0;
  lost = [];
  misrouted = [];
  other_dead = λ reason. 0;
}

-- What is left in the queue. Where the gauges cannot be read they are zero: the error is ignored.
unfoldable pub leftover : Result Stats → ℤ
leftover (err e) = pos 0
leftover (ok st) = int64 (int64 (st.stream_length +ℤ st.in_flight) +ℤ st.retry_scheduled)

abbrev pub is_none : {A : Type 0} → List A → Bool
is_none [] = true
is_none (x ∷ xs) = false

-- The runs of a job that ran.
unfoldable pub tally_runs : List Execution → Tally → Tally
unfolding sort overlaps
tally_runs [] t = t
tally_runs (e ∷ es) t = record t {
  completed = suc t.completed;
  duplicates = t.duplicates + length es;
  overlapping = if overlaps (sort (e ∷ es)) then suc t.overlapping else t.overlapping;
}

tally_dead : Option String → Tally → Tally
tally_dead none t = t
tally_dead (some reason) t = record t {
  other_dead = λ r. if str_eq reason r then suc (t.other_dead r) else t.other_dead r;
}

unfoldable pub tally_job : ℕ → List Execution → Option String → Tally → Tally
unfolding tally_runs tally_dead
tally_job id execs reason t =
    if id % permanent_every == 0
    then (if is_some reason && is_none execs
        then record t { dead_expected = suc t.dead_expected }
        else record t { misrouted = t.misrouted ++ id ∷ [] })
    else if is_none execs && not (is_some reason)
    then record t { lost = t.lost ++ id ∷ [] }
    else tally_runs execs (tally_dead reason t)

module _ (ledger : List (ℕ × Execution)) (dead : List (ℕ × String)) where
  -- The jobs with the payloads below a number.
  unfoldable pub tally : ℕ → Tally
  unfolding tally_job executions_of dead_reason
  tally zero = no_tally
  tally (suc n) = tally_job n (executions_of n ledger) (dead_reason n dead) (tally n)

  -- The jobs whose effect was applied more than once, and those without one that are not dead.
  unfoldable pub duplicate_effects : (ℕ → ℕ) → ℕ → List ℕ
  duplicate_effects effects zero = []
  duplicate_effects effects (suc n) =
      let rest = duplicate_effects effects n in if ltb 1 (effects n) then rest ++ n ∷ [] else rest

  unfoldable pub missing_effects : (ℕ → ℕ) → ℕ → List ℕ
  unfolding dead_reason
  missing_effects effects zero = []
  missing_effects effects (suc n) =
      let rest = missing_effects effects n in
      if ltb 1 (effects n)
      then rest
      else if effects n == 0 && not (is_some (dead_reason n dead))
      then rest ++ n ∷ []
      else rest

  -- 0 for PASS and 1 for FAIL. `stats` is what store.Stats answers.
  unfoldable pub report : (ℕ → ℕ) → ℕ → Result Stats → ℕ → ℕ
  unfolding leftover tally duplicate_effects missing_effects
  report effects jobs stats crashed =
      let t = tally jobs in
      if ltb 0 (length t.lost)
        || ltb 0 (length t.misrouted)
        || ltb_ℤ (pos 0) (leftover stats)
        || ltb 0 crashed
        || ltb 0 (length (duplicate_effects effects jobs))
        || ltb 0 (length (missing_effects effects jobs))
      then 1
      else 0
