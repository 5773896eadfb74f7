-- ===== src/Downstream/Once.antt =====
-- cmd/chaos/downstream.go: the fence and the applied jobs, over any calls of begin and apply.
use dist_tasks_go.Base.{
  ℕ, ◌+◌, ◌≤◌, String, ◌≡◌, ◌∙◌, Bool, true, false, not, Option, some, List, [], ◌∷◌, ◌&&◌, ℤ, pos,
  ◌<ℤ◌, ltb_ℤ, str_eq, eq_refl, eq_iff, if◌then◌else◌, arith, Bool-cases, Option-cases, inl, inr,
}
use dist_tasks_go.Redis.{Redis, hset, is_some}
use dist_tasks_go.Downstream.{
  Counters, Keys, Outcome, fenced, applied, seen, begin_script, apply_script, apply_passed,
  is_exact,
}

-- The calls of the runs of any jobs: a token, and for apply the payload.
pub data Call : Type 0 where
  begins : String → ℤ → Call
  applies : String → ℤ → String → Call

-- The four hashes are different keys.
pub record Apart (keys : Keys) : Type 0 where
  pub fence_outcomes : str_eq keys.outcomes keys.fence ≡ false
  pub effects_fence : str_eq keys.effects keys.fence ≡ false
  pub applied_fence : str_eq keys.applied keys.fence ≡ false
  pub fence_applied : str_eq keys.fence keys.applied ≡ false
  pub outcomes_applied : str_eq keys.outcomes keys.applied ≡ false
  pub effects_applied : str_eq keys.effects keys.applied ≡ false
  pub fence_effects : str_eq keys.fence keys.effects ≡ false
  pub applied_effects : str_eq keys.applied keys.effects ≡ false
  pub outcomes_effects : str_eq keys.outcomes keys.effects ≡ false

abbrev pub is_applied : Option Outcome → Bool
is_applied (some applied) = true
is_applied _ = false

abbrev pub one_if : Bool → ℕ
one_if true = 1
one_if false = 0

module _ {R : Redis} (N : Counters R) (keys : Keys) (apart : Apart keys) where
  open R use {Db, exec, hash, hash_exec}
  open N use {hash-hincrby, hsetnx_lem, count-hincrby, tonumber-number}

  -- A run with a token below the highest seen is turned
  -- away, and the fences, the applied jobs and the effects stay as they are.
  pub apply-stale :
      (id n : String) (token : ℤ) (d : Db)
      → token <ℤ seen N keys id d
      → let r = apply_script N keys id token n d in
        (r.0 ≡ some fenced)
        × ((i : String) → hash r.1 keys.fence i ≡ hash d keys.fence i)
        × ((i : String) → hash r.1 keys.applied i ≡ hash d keys.applied i)
        × ((m : String) → N.count r.1 keys.effects m ≡ N.count d keys.effects m)
  unfolding apply_script
  apply-stale id n token d h = (
    rw (below),
    rw below (λ i. hash-hincrby keys.outcomes "fenced" (pos 1) d keys.fence i apart.fence_outcomes),
    rw below
        (λ i. hash-hincrby keys.outcomes "fenced" (pos 1) d keys.applied i apart.outcomes_applied),
    rw below (λ m.
        rw (count-hincrby keys.outcomes "fenced" (pos 1) d keys.effects m, apart.outcomes_effects)),
  )
    where
      below : ltb_ℤ token (seen N keys id d) ≡ true
      below = ground arith

  -- The database after the token is noted.
  abbrev pub noted : String → ℤ → Db → Db
  noted id token d = exec (hset keys.fence id (N.number token)) d

  pub hash-noted :
      (id : String) (token : ℤ) (d : Db) (i : String)
      → hash (noted id token d) keys.applied i ≡ hash d keys.applied i
  hash-noted id token d i = simp (hash_exec, apart.fence_applied)

  incr_keeps :
      (k f : String) (d : Db) (i : String)
      → str_eq k keys.applied ≡ false
      → hash (N.hincrby k f (pos 1) d) keys.applied i ≡ hash d keys.applied i
  incr_keeps k f d i h = hash-hincrby k f (pos 1) d keys.applied i h

  -- What apply writes among the applied jobs, and when it says that it applied.
  abbrev Applies : String → String → Db → Option Outcome × Db → Type 0
  Applies id n d r =
      ((i : String)
        → hash r.1 keys.applied i
          ≡ (if is_applied r.0 && str_eq id i then some n else hash d keys.applied i))
      × ((is_applied r.0 && is_some (hash d keys.applied id)) ≡ false)

  pub passed-Applies :
      (id n : String) (d e : Db)
      → ((i : String) → hash e keys.applied i ≡ hash d keys.applied i)
      → Applies id n d (apply_passed N keys id n true e)
  unfolding apply_passed
  passed-Applies id n d e same = elim (Option-cases (hash e keys.applied id)) [
    | inl new ↦ (
      λ i.
          rw (hsetnx_lem keys.applied id n e, new)
            (incr_keeps keys.outcomes "applied"
                (N.hincrby keys.effects n (pos 1) (exec (hset keys.applied id n) e)) i
                apart.outcomes_applied
              ∙ incr_keeps keys.effects n (exec (hset keys.applied id n) e) i apart.effects_applied
              ∙ simp (hash_exec, eq_refl, same)),
      rw (hsetnx_lem keys.applied id n e, new) (rw (← same id) (rw new)),
    )
    | inr (v, old) ↦ (
      λ i.
          rw (hsetnx_lem keys.applied id n e, old)
            (incr_keeps keys.outcomes "deduped" e i apart.outcomes_applied ∙ same i),
      rw (hsetnx_lem keys.applied id n e, old),
    )
  ]

  pub apply-Applies :
      (id n : String) (token : ℤ) (d : Db) → Applies id n d (apply_script N keys id token n d)
  unfolding apply_script
  apply-Applies id n token d = elim (Bool-cases (ltb_ℤ token (seen N keys id d))) [
    | inl stale ↦ (
      λ i.
          rw stale
            (hash-hincrby keys.outcomes "fenced" (pos 1) d keys.applied i apart.outcomes_applied),
      rw stale,
    )
    | inr current ↦ rw current (passed-Applies id n d (noted id token d) (hash-noted id token d))
  ]

  pub begin_keeps :
      (id : String) (token : ℤ) (d : Db) (i : String)
      → hash (begin_script N keys id token d).1 keys.applied i ≡ hash d keys.applied i
  unfolding begin_script
  begin_keeps id token d i = elim (Bool-cases (ltb_ℤ token (seen N keys id d))) [
    | inl stale ↦
        rw stale
          (hash-hincrby keys.outcomes "fenced" (pos 1) d keys.applied i apart.outcomes_applied)
    | inr current ↦ rw current (hash-noted id token d i)
  ]

  -- How often a list of calls applies the effect of the job job.
  unfoldable pub times_applied : String → List Call → Db → ℕ
  times_applied job [] d = 0
  times_applied job (begins id token ∷ cs) d =
      times_applied job cs (begin_script N keys id token d).1
  times_applied job (applies id token n ∷ cs) d =
      let r = apply_script N keys id token n d in
      one_if (is_applied r.0 && str_eq id job) + times_applied job cs r.1

  room_for : String → Db → ℕ
  room_for job d = one_if (not (is_some (hash d keys.applied job)))

  apply_once :
      (job id n : String) (token : ℤ) (d : Db)
      → let r = apply_script N keys id token n d in
        one_if (is_applied r.0 && str_eq id job) + room_for job r.1 ≤ room_for job d
  unfolding room_for
  apply_once job id n token d =
      let (after, before) = apply-Applies id n token d in ground (arith, after job, eq_iff id job)

  room_for-begin :
      (job id : String) (token : ℤ) (d : Db)
      → room_for job (begin_script N keys id token d).1 ≡ room_for job d
  unfolding room_for
  room_for-begin job id token d = rw (begin_keeps id token d job)

  room_for-le : (job : String) (d : Db) → room_for job d ≤ 1
  unfolding room_for
  room_for-le job d = ground arith

  times_applied-le :
      (job : String) (cs : List Call) (d : Db) → times_applied job cs d ≤ room_for job d
  unfolding times_applied
  times_applied-le job [] d = omega arith
  times_applied-le job (begins id token ∷ cs) d = omega (
    arith,
    room_for-begin job id token d,
    times_applied-le job cs (begin_script N keys id token d).1,
  )
  times_applied-le job (applies id token n ∷ cs) d = omega (
    arith,
    apply_once job id n token d,
    times_applied-le job cs (apply_script N keys id token n d).1,
  )

  pub times_applied-le_one : (job : String) (cs : List Call) (d : Db) → times_applied job cs d ≤ 1
  times_applied-le_one job cs d = omega (arith, times_applied-le job cs d, room_for-le job d)

  -- The database after the calls, each of them a script.
  unfoldable pub serve : List Call → Db → Db
  serve [] d = d
  serve (begins id token ∷ cs) d = serve cs (begin_script N keys id token d).1
  serve (applies id token n ∷ cs) d = serve cs (apply_script N keys id token n d).1

  pub begin_seen :
      (id : String) (token : ℤ) (d : Db)
      → is_exact token ≡ true
      → ltb_ℤ token (seen N keys id d) ≡ false
      → seen N keys id (begin_script N keys id token d).1 ≡ token
  unfolding begin_script
  begin_seen id token d exact current =
      rw current (unfold seen in simp (hash_exec, eq_refl) (tonumber-number token exact))
