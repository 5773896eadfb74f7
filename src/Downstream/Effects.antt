-- ===== src/Downstream/Effects.antt =====
-- cmd/chaos/downstream.go: the effects that the database counts, over any calls of begin and apply.
use dist_tasks_go.Base.{
  ℕ, ◌+◌, String, ◌≡◌, ◌∙◌, sym, ap, Option, eq_refl, refl, true, List, [], ◌∷◌, ◌&&◌, ℤ, pos, ◌+ℤ◌,
  ltb_ℤ, str_eq, arith, Bool-cases, inl, inr,
}
use dist_tasks_go.Redis.{Redis, hset, is_some}
use dist_tasks_go.Downstream.{
  Counters, Keys, Outcome, seen, begin_script, apply_script, apply_passed,
}
use dist_tasks_go.Downstream.Once.{
  Apart, Call, begins, applies, is_applied, one_if, noted, times_applied, serve,
}

-- The payload n belongs to the job, and to no other.
abbrev pub Belongs : String → String → List Call → Type 0
Belongs job n [] = Unit {0}
Belongs job n (begins id token ∷ cs) = Belongs job n cs
Belongs job n (applies id token m ∷ cs) = (str_eq id job ≡ str_eq m n) × Belongs job n cs

plus_zero : (x : ℤ) → x +ℤ pos 0 ≡ x
unfolding ◌+ℤ◌
plus_zero (pos n) = ground arith
plus_zero (ℤ.negsuc n) = ground arith

plus_plus : (x : ℤ) (a b : ℕ) → x +ℤ pos a +ℤ pos b ≡ x +ℤ pos (a + b)
unfolding ◌+ℤ◌
plus_plus (pos n) a b = ground arith
plus_plus (ℤ.negsuc n) a b = ground arith

module _ {R : Redis} (N : Counters R) (keys : Keys) (apart : Apart keys) where
  open R use {Db, exec, hash}

  effects : String → Db → ℤ
  effects m d = N.count d keys.effects m

  -- The fence and the outcomes count no effects.
  effects-outcome :
      (f m : String) (d : Db) → effects m (N.hincrby keys.outcomes f (pos 1) d) ≡ effects m d
  unfolding effects
  effects-outcome f m d =
      rw (N.count-hincrby keys.outcomes f (pos 1) d keys.effects m, apart.outcomes_effects) refl

  effects-noted :
      (id m : String) (token : ℤ) (d : Db) → effects m (noted N keys apart id token d) ≡ effects m d
  unfolding effects
  effects-noted id m token d =
      N.count-hset keys.fence id (N.number token) d keys.effects m apart.fence_effects

  effects-begin :
      (id m : String) (token : ℤ) (d : Db)
      → effects m (begin_script N keys id token d).1 ≡ effects m d
  unfolding begin_script
  effects-begin id m token d = elim (Bool-cases (ltb_ℤ token (seen N keys id d))) [
    | inl stale ↦ rw stale (effects-outcome "fenced" m d)
    | inr current ↦ rw current (effects-noted id m token d)
  ]

  -- An apply counts one effect of its payload where it says so, else none.
  abbrev Counts : String → String → Db → Option Outcome × Db → Type 0
  Counts n m d r = effects m r.1 ≡ effects m d +ℤ pos (one_if (is_applied r.0 && str_eq n m))

  counted :
      (n m : String) (d : Db)
      → effects m (N.hincrby keys.effects n (pos 1) d) ≡ effects m d +ℤ pos (one_if (str_eq n m))
  unfolding effects
  counted n m d =
      N.count-hincrby keys.effects n (pos 1) d keys.effects m
      ∙ rw (eq_refl keys.effects) (ground (arith, plus_zero (N.count d keys.effects m)))

  effects-first :
      (id n m : String) (d : Db) → effects m (exec (hset keys.applied id n) d) ≡ effects m d
  unfolding effects
  effects-first id n m d = N.count-hset keys.applied id n d keys.effects m apart.applied_effects

  passed-Counts : (id n m : String) (d : Db) → Counts n m d (apply_passed N keys id n true d)
  unfolding apply_passed
  passed-Counts id n m d = elim (Bool-cases (is_some (hash d keys.applied id))) [
    | inl old ↦
        rw (N.hsetnx_lem keys.applied id n d, old)
          (effects-outcome "deduped" m d ∙ sym (plus_zero (effects m d)))
    | inr new ↦
        rw (N.hsetnx_lem keys.applied id n d, new)
          (effects-outcome "applied" m
              (N.hincrby keys.effects n (pos 1) (exec (hset keys.applied id n) d))
            ∙ counted n m (exec (hset keys.applied id n) d)
            ∙ ap (λ x. x +ℤ pos (one_if (str_eq n m))) (effects-first id n m d))
  ]

  apply-Counts :
      (id n m : String) (token : ℤ) (d : Db) → Counts n m d (apply_script N keys id token n d)
  unfolding apply_script
  apply-Counts id n m token d = elim (Bool-cases (ltb_ℤ token (seen N keys id d))) [
    | inl stale ↦ rw stale (effects-outcome "fenced" m d ∙ sym (plus_zero (effects m d)))
    | inr current ↦ rw current (
        passed-Counts id n m (noted N keys apart id token d)
        ∙ ap
            (λ x.
              x
              +ℤ pos (
                  one_if (
                    is_applied (apply_passed N keys id n true (noted N keys apart id token d)).0
                    && str_eq n m)))
            (effects-noted id m token d))
  ]

  -- The effects of a payload grow by the times that its job's effect is applied.
  pub count-serve :
      (job n : String) (cs : List Call) (d : Db)
      → Belongs job n cs
      → N.count (serve N keys apart cs d) keys.effects n
        ≡ N.count d keys.effects n +ℤ pos (times_applied N keys apart job cs d)
  unfolding serve times_applied effects
  count-serve job n [] d own = sym (plus_zero (N.count d keys.effects n))
  count-serve job n (begins id token ∷ cs) d own =
      count-serve job n cs (begin_script N keys id token d).1 own
      ∙ ap (λ x. x +ℤ pos (times_applied N keys apart job cs (begin_script N keys id token d).1))
          (effects-begin id n token d)
  count-serve job n (applies id token m ∷ cs) d (mine, own) =
      let r = apply_script N keys id token m d in
      let later = times_applied N keys apart job cs r.1 in
      count-serve job n cs r.1 own
      ∙ ap (λ x. x +ℤ pos later) (apply-Counts id m n token d)
      ∙ plus_plus (N.count d keys.effects n) (one_if (is_applied r.0 && str_eq m n)) later
      ∙ ap (λ t. N.count d keys.effects n +ℤ pos (one_if (is_applied r.0 && t) + later)) (sym mine)
