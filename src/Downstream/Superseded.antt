-- ===== src/Downstream/Superseded.antt =====
-- cmd/chaos/downstream.go: a run that a newer one has superseded, over any calls that come later.
use dist_tasks_go.Base.{
  String, ◌≡◌, ◌∙◌, sym, refl, subst, true, false, List, [], ◌∷◌, ℤ, pos, ◌≤ℤ◌, ◌<ℤ◌, ltb_ℤ, some,
  str_eq, eq_refl, eq_iff, arith, Bool-cases, inl, inr,
}
use dist_tasks_go.Redis.{Redis, hset, is_some}
use dist_tasks_go.Downstream.{
  Counters, Keys, fenced, seen, begin_script, apply_script, apply_passed, is_exact,
}
use dist_tasks_go.Downstream.Once.{
  Apart, Call, begins, applies, noted, serve, apply-stale, begin_seen,
}

-- The tokens of the calls are exact as doubles.
abbrev pub IsExact : List Call → Type 0
IsExact [] = Unit {0}
IsExact (begins id token ∷ cs) = (is_exact token ≡ true) × IsExact cs
IsExact (applies id token m ∷ cs) = (is_exact token ≡ true) × IsExact cs

le_refl : (x : ℤ) → x ≤ℤ x
le_refl x = omega arith

le_eq : (x y : ℤ) → y ≡ x → x ≤ℤ y
le_eq x y e = subst (λ z. x ≤ℤ z) (sym e) (le_refl x)

le_to : (x y z : ℤ) → z ≡ y → x ≤ℤ y → x ≤ℤ z
le_to x y z e h = subst (λ t. x ≤ℤ t) (sym e) h

not_below : (token x : ℤ) → ltb_ℤ token x ≡ false → x ≤ℤ token
not_below token x h = ground arith

above : (token x : ℤ) → x ≤ℤ token → ltb_ℤ token x ≡ false
above token x h = ground arith

below : (x y z : ℤ) → x <ℤ y → y ≤ℤ z → x <ℤ z
below x y z h k = omega arith

module _ {R : Redis} (N : Counters R) (keys : Keys) (apart : Apart keys) where
  open R use {Db, exec, hash, hash_exec}

  -- Counting, and the applied jobs, leave the fences as they are.
  seen-outcome :
      (f job : String) (d : Db)
      → seen N keys job (N.hincrby keys.outcomes f (pos 1) d) ≡ seen N keys job d
  unfolding seen
  seen-outcome f job d =
      rw (N.hash-hincrby keys.outcomes f (pos 1) d keys.fence job apart.fence_outcomes) refl

  seen-effect :
      (n job : String) (d : Db)
      → seen N keys job (N.hincrby keys.effects n (pos 1) d) ≡ seen N keys job d
  unfolding seen
  seen-effect n job d =
      rw (N.hash-hincrby keys.effects n (pos 1) d keys.fence job apart.effects_fence) refl

  seen-applied :
      (id n job : String) (d : Db)
      → seen N keys job (exec (hset keys.applied id n) d) ≡ seen N keys job d
  unfolding seen
  seen-applied id n job d =
      rw (hash_exec (hset keys.applied id n) d keys.fence job, apart.applied_fence) refl

  own_noted :
      (id job : String) (token : ℤ) (d : Db)
      → is_exact token ≡ true
      → str_eq id job ≡ true
      → seen N keys job (noted N keys apart id token d) ≡ token
  unfolding seen
  own_noted id job token d exact same =
      rw
        (hash_exec (hset keys.fence id (N.number token)) d keys.fence job, eq_refl keys.fence, same)
        (N.tonumber-number token exact)

  other_noted :
      (id job : String) (token : ℤ) (d : Db)
      → str_eq id job ≡ false
      → seen N keys job (noted N keys apart id token d) ≡ seen N keys job d
  unfolding seen
  other_noted id job token d other =
      rw
        (
          hash_exec (hset keys.fence id (N.number token)) d keys.fence job,
          eq_refl keys.fence,
          other,
        )
        refl

  -- A token that is not below the highest seen does not lower any.
  seen-noted :
      (id job : String) (token : ℤ) (d : Db)
      → is_exact token ≡ true
      → ltb_ℤ token (seen N keys id d) ≡ false
      → seen N keys job d ≤ℤ seen N keys job (noted N keys apart id token d)
  seen-noted id job token d exact current = elim (Bool-cases (str_eq id job)) [
    | inl same ↦ le_to (seen N keys job d) token _ (own_noted id job token d exact same) (
        subst (λ j. seen N keys j d ≤ℤ token) ((eq_iff id job).0 same)
          (not_below token (seen N keys id d) current))
    | inr other ↦ le_eq (seen N keys job d) _ (other_noted id job token d other)
  ]

  passed-seen :
      (id n job : String) (d : Db)
      → seen N keys job (apply_passed N keys id n true d).1 ≡ seen N keys job d
  unfolding apply_passed
  passed-seen id n job d = elim (Bool-cases (is_some (hash d keys.applied id))) [
    | inl old ↦ rw (N.hsetnx_lem keys.applied id n d, old) (seen-outcome "deduped" job d)
    | inr new ↦
        rw (N.hsetnx_lem keys.applied id n d, new)
          (seen-outcome "applied" job
              (N.hincrby keys.effects n (pos 1) (exec (hset keys.applied id n) d))
            ∙ seen-effect n job (exec (hset keys.applied id n) d)
            ∙ seen-applied id n job d)
  ]

  begin-seen_le :
      (id job : String) (token : ℤ) (d : Db)
      → is_exact token ≡ true
      → seen N keys job d ≤ℤ seen N keys job (begin_script N keys id token d).1
  unfolding begin_script
  begin-seen_le id job token d exact = elim (Bool-cases (ltb_ℤ token (seen N keys id d))) [
    | inl stale ↦ rw stale (le_eq (seen N keys job d) _ (seen-outcome "fenced" job d))
    | inr current ↦ rw current (seen-noted id job token d exact current)
  ]

  apply-seen_le :
      (id n job : String) (token : ℤ) (d : Db)
      → is_exact token ≡ true
      → seen N keys job d ≤ℤ seen N keys job (apply_script N keys id token n d).1
  unfolding apply_script
  apply-seen_le id n job token d exact = elim (Bool-cases (ltb_ℤ token (seen N keys id d))) [
    | inl stale ↦ rw stale (le_eq (seen N keys job d) _ (seen-outcome "fenced" job d))
    | inr current ↦ rw current (
        le_to (seen N keys job d) (seen N keys job (noted N keys apart id token d)) _
          (passed-seen id n job (noted N keys apart id token d))
          (seen-noted id job token d exact current))
  ]

  serve-seen_le :
      (job : String) (cs : List Call) (d : Db)
      → IsExact cs
      → seen N keys job d ≤ℤ seen N keys job (serve N keys apart cs d)
  unfolding serve
  serve-seen_le job [] d exact = le_refl (seen N keys job d)
  serve-seen_le job (begins id token ∷ cs) d (here, rest) = omega (
    arith,
    begin-seen_le id job token d here,
    serve-seen_le job cs (begin_script N keys id token d).1 rest,
  )
  serve-seen_le job (applies id token m ∷ cs) d (here, rest) = omega (
    arith,
    apply-seen_le id m job token d here,
    serve-seen_le job cs (apply_script N keys id token m d).1 rest,
  )

  -- Once the newer run has begun, and whatever exact tokens come after it: an older run's apply is turned
  -- away, and leaves the fences, the applied jobs and the effects as they are.
  pub superseded_run :
      (id n : String) (old new : ℤ) (cs : List Call) (d : Db)
      → is_exact new ≡ true
      → seen N keys id d ≤ℤ new
      → old <ℤ new
      → IsExact cs
      → let e = serve N keys apart cs (begin_script N keys id new d).1 in
        let r = apply_script N keys id old n e in
        (r.0 ≡ some fenced)
        × ((i : String) → hash r.1 keys.fence i ≡ hash e keys.fence i)
        × ((i : String) → hash r.1 keys.applied i ≡ hash e keys.applied i)
        × ((m : String) → N.count r.1 keys.effects m ≡ N.count e keys.effects m)
  superseded_run id n old new cs d exact current older all =
      let begun = (begin_script N keys id new d).1 in
      let now = begin_seen N keys apart id new d exact (above new _ current) in
      apply-stale N keys apart id n old (serve N keys apart cs begun)
        (below old new _ older (rw now at (serve-seen_le id cs begun all)))
