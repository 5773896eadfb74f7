-- ===== src/Downstream/Landed.antt =====
-- cmd/chaos/downstream.go: an apply that is not turned away leaves the job among the applied ones.
use dist_tasks_go.Base.{
  String, ◌≡◌, refl, Bool, true, Option, some, ◌⊎◌, inl, inr, ℤ, ltb_ℤ, eq_refl, arith, Bool-cases,
  Option-cases, if◌then◌else◌,
}
use dist_tasks_go.Redis.{Redis, is_some}
use dist_tasks_go.Downstream.{Counters, Keys, Outcome, fenced, seen, apply_script, apply_passed}
use dist_tasks_go.Downstream.Once.{Apart, noted, passed-Applies}

module _ {R : Redis} (N : Counters R) (keys : Keys) (apart : Apart keys) where
  open R use {Db, exec, hash}

  abbrev Landed : String → Option Outcome × Db → Type 0
  Landed id r = (r.0 ≡ some fenced) ⊎ (is_some (hash r.1 keys.applied id) ≡ true)

  some_either :
      (n v : String) (o : Option String) (t : Bool)
      → o ≡ some v
      → is_some (if t then some n else o) ≡ true
  some_either n v o t h = ground arith

  some_own :
      (n : String) (o : Option String) (t : Bool)
      → t ≡ true
      → is_some (if t then some n else o) ≡ true
  some_own n o t h = ground arith

  passed-Landed : (id n : String) (e : Db) → Landed id (apply_passed N keys id n true e)
  unfolding apply_passed
  passed-Landed id n e =
      let (after, _) = passed-Applies N keys apart id n e e (λ i. refl) in
      elim (Option-cases (hash e keys.applied id)) [
        | inl new ↦ inr (
            rw (after id)
              (rw (N.hsetnx_lem keys.applied id n e, new) (some_own n _ _ (eq_refl id))))
        | inr (v, old) ↦ inr (rw (after id) (some_either n v _ _ old))
      ]

  pub apply_script-Landed :
      (id n : String) (token : ℤ) (d : Db) → Landed id (apply_script N keys id token n d)
  unfolding apply_script
  apply_script-Landed id n token d = elim (Bool-cases (ltb_ℤ token (seen N keys id d))) [
    | inl stale ↦ inl (rw stale)
    | inr current ↦ rw current (passed-Landed id n (noted N keys apart id token d))
  ]
