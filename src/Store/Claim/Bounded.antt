-- ===== src/Store/Claim/Bounded.antt =====
-- redisstream/store.go: how many jobs a Claim and a RecoverExpired hand out.
use dist_tasks_go.Base.{
  ℕ, zero, suc, ◌-◌, ◌≤◌, String, ◌≡◌, refl, ap, ◌||◌, some, List, [], ◌∷◌, ◌++◌, ℤ, pos, ◌≤ℤ◌,
  ◌-ℤ◌, leb_ℤ, str_eq, arith, length, length-append, Bool-cases, inl, inr, All,
}
use dist_tasks_go.Redis.{Redis, Pending, Fields, Entry, entry, taken_over}
use dist_tasks_go.Store.Scripts.{with_counts, recover_rounds, recover_script}

room_left : (w l : ℕ) → l ≤ w → pos (suc w) -ℤ pos l ≡ pos (suc (w - l))
unfolding ◌-ℤ◌
room_left w l h = ground arith

module _ (R : Redis) (s g consumer : String) (ms : ℤ) where
  open R use {Db, stream, pending, xautoclaim, autoclaim_count, autoclaim_entries}

  abbrev Counted : Db → List Entry → Type 0
  Counted e es = All (λ x. (p : Pending) × (pending e s g x.0 ≡ some p)) es

  with_counts-Counted :
      (e : Db) (es : List Entry)
      → Counted e es
      → (found : List (String × Fields × ℕ)) × (with_counts R s g es e ≡ (some found, e))
        × (length found ≡ length es)
  unfolding with_counts
  with_counts-Counted e [] h = ([], refl, refl)
  with_counts-Counted e ((id, f) ∷ es) ((p, there), hs) =
      let (found, eq, len) = with_counts-Counted e es hs in
      ((id, f, p.deliveries) ∷ found, rw there (rw eq), ap suc len)

  taken-Counted :
      (d e : Db) (es : List Entry)
      → All
          (λ x.
            (p : Pending) × (pending d s g x.0 ≡ some p)
            × (ms ≤ℤ p.idle)
            × (entry x.0 (stream d s) ≡ some x.1)
            × (pending e s g x.0 ≡ some (taken_over consumer p)))
          es
      → Counted e es
  taken-Counted d e [] h = tt
  taken-Counted d e (x ∷ es) ((p, _, _, _, now), hs) =
      ((taken_over consumer p, now), taken-Counted d e es hs)

  -- A round finds at most what is still wanted.
  round_few :
      (w : ℕ) (cur : String) (outs : List (String × Fields × ℕ)) (e : Db)
      → length outs ≤ w
      → let claim = xautoclaim s g consumer ms cur (pos (suc w) -ℤ pos (length outs)) e in
        (found : List (String × Fields × ℕ)) × (with_counts R s g claim.0.1 claim.1
          ≡ (some found, claim.1))
        × (length (outs ++ found) ≤ suc w)
  round_few w cur outs e h =
      let count = pos (suc w) -ℤ pos (length outs) in
      let claim = xautoclaim s g consumer ms cur count e in
      let (found, eq, len) =
        with_counts-Counted claim.1 claim.0.1
          (taken-Counted e claim.1 claim.0.1 (autoclaim_entries s g consumer ms cur count e)) in
      let few : length claim.0.1 ≤ suc (w - length outs) =
        rw (room_left w (length outs) h)
          (autoclaim_count s g consumer ms cur (w - length outs) e) in
      (found, eq, omega (arith, few, len, length-append {0} outs found))

  rounds_few :
      (n w : ℕ) (cur : String) (outs : List (String × Fields × ℕ)) (e : Db)
      → length outs ≤ w
      → (r : String × List (String × Fields × ℕ)) × (end : Db) × (recover_rounds R n s g consumer ms
            (pos (suc w))
            cur
            outs
            e
          ≡ (some r, end))
        × (length r.1 ≤ suc w)
  unfolding recover_rounds
  rounds_few zero w cur outs e h = ((cur, outs), e, refl, omega (arith, h))
  rounds_few (suc n) w cur outs e h =
      let claim = xautoclaim s g consumer ms cur (pos (suc w) -ℤ pos (length outs)) e in
      let (found, eq, few) = round_few w cur outs e h in
      let out = outs ++ found in
      elim (Bool-cases (leb_ℤ (pos (suc w)) (pos (length out)) || str_eq claim.0.0 "0-0")) [
        | inl stop ↦ ((claim.0.0, out), claim.1, rw eq (rw stop), few)
        | inr more ↦
            let room : length out ≤ w = ground arith in
            let (r, end, reqs, all) = rounds_few n w claim.0.0 out claim.1 room in
            (r, end, rw eq (rw more reqs), all)
      ]

  -- The recovery script always answers, and with at most as many deliveries as it is asked for.
  pub recover_script_few :
      (w : ℕ) (cursor : String) (d : Db)
      → (r : String × List (String × Fields × ℕ)) × (end : Db) × (recover_script R s g consumer ms
            (pos (suc w))
            cursor
            d
          ≡ (some r, end))
        × (length r.1 ≤ suc w)
  unfolding recover_script
  recover_script_few w cursor d = rounds_few 10 w cursor [] d (omega arith)
