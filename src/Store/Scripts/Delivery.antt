-- ===== src/Store/Scripts/Delivery.antt =====
-- redisstream/scripts.go: what recoverScript hands out.
use dist_tasks_go.Base.{
  ℕ, zero, suc, String, ◌≡◌, refl, true, false, some, List, [], ◌∷◌, ◌++◌, arith, ℤ, pos, negsuc,
  ◌≤ℤ◌, ◌<ℤ◌, ◌-ℤ◌, leb_ℤ, str_eq, ◌||◌, length, All, All-append, Bool-cases, inl, inr, eq_refl, ap,
  sym, ◌∙◌, ◌≤◌, Option, none, ◌&&◌, eq_iff,
}
use dist_tasks_go.Queue.Job.{Lease}
use dist_tasks_go.Redis.{Redis, Pending, Entry, Fields, entry, has, taken_over}
use dist_tasks_go.Store.Claim.Bounded.{recover_script_few}
use dist_tasks_go.Store.Scripts.{holds, owns, with_counts, recover_rounds, recover_script}

module _ (R : Redis) (s g consumer : String) (ms : ℤ) (positive : pos 0 <ℤ ms) where
  open R use {
    Db, stream, pending, xautoclaim, autoclaim_entries, autoclaim_young, autoclaim_others,
    autoclaim_stream,
  }

  -- From `d` to `e` the consumer took over a delivery that was idle for long enough.
  abbrev TakenOver : Db → Db → String → Pending → Type 0
  TakenOver d e id p =
      (pending d s g id ≡ some p)
      × (ms ≤ℤ p.idle)
      × (pending e s g id ≡ some (taken_over consumer p))
      × (has id (stream e s) ≡ true)

  -- So it did for an entry that is handed out, with a token above the old count and the fields that the
  -- stream has for it.
  abbrev pub Won : Db → Db → String × Fields × ℕ → Type 0
  Won d e out =
      (p : Pending) × TakenOver d e out.0 p
      × (out.2 ≡ suc p.deliveries)
      × (entry out.0 (stream e s) ≡ some out.1)

  abbrev Claimed : Db → Db → Entry → Type 0
  Claimed d e out = (p : Pending) × TakenOver d e out.0 p × (entry out.0 (stream e s) ≡ some out.1)

  -- What is idle for long enough was so at the start, untouched.
  abbrev Kept : Db → Db → Type 0
  Kept d e =
      (i : String) (p : Pending)
      → pending e s g i ≡ some p
      → ms ≤ℤ p.idle
      → pending d s g i ≡ some p

  with_counts-Won :
      (d e : Db) (es : List Entry)
      → All (Claimed d e) es
      → (found : List (String × Fields × ℕ)) × (with_counts R s g es e ≡ (some found, e))
        × All (Won d e) found
        × (length found ≡ length es)
  unfolding with_counts
  with_counts-Won d e [] h = ([], refl, tt, refl)
  with_counts-Won d e ((id, f) ∷ es) ((p, t, there), hs) =
      let (found, eq, wins, len) = with_counts-Won d e es hs in
      ((id, f, suc p.deliveries) ∷ found, rw t.2 (rw eq), ((p, t, refl, there), wins), ap suc len)

  Won-step :
      (d e : Db) (cur : String) (n : ℤ) (outs : List (String × Fields × ℕ))
      → All (Won d e) outs
      → All (Won d (xautoclaim s g consumer ms cur n e).1) outs
  Won-step d e cur n [] h = tt
  Won-step d e cur n (out ∷ outs) ((p, t, eq, there), hs) = (
    (
      p,
      (
        t.0,
        t.1,
        autoclaim_young s g consumer ms cur n e out.0 (taken_over consumer p) t.2 t.3
            (λ bad. absurd (omega arith)),
        rw (autoclaim_stream s g consumer ms cur n e s) t.3,
      ),
      eq,
      rw (autoclaim_stream s g consumer ms cur n e s) there,
    ),
    Won-step d e cur n outs hs,
  )

  Kept-step :
      (d e : Db) (cur : String) (n : ℤ) → Kept d e → Kept d (xautoclaim s g consumer ms cur n e).1
  Kept-step d e cur n k i p eq old =
      ground (arith, autoclaim_others s g consumer ms cur n e i, k i p)

  Claimed-step :
      (d e : Db) (cur : String) (n : ℤ) (es : List Entry)
      → Kept d e
      → All
          (λ x.
            (p : Pending) × (pending e s g x.0 ≡ some p)
            × (ms ≤ℤ p.idle)
            × (entry x.0 (stream e s) ≡ some x.1)
            × (pending (xautoclaim s g consumer ms cur n e).1 s g x.0
                ≡ some (taken_over consumer p)))
          es
      → All (Claimed d (xautoclaim s g consumer ms cur n e).1) es
  unfolding has
  Claimed-step d e cur n [] k h = tt
  Claimed-step d e cur n (x ∷ es) k ((p, before, old, stored, now), hs) = (
    (
      p,
      (k x.0 p before old, old, now, rw (autoclaim_stream s g consumer ms cur n e s, stored)),
      rw (autoclaim_stream s g consumer ms cur n e s) stored,
    ),
    Claimed-step d e cur n es k hs,
  )

  -- The scan ends with a result whatever it finds, and every delivery of the result is won.
  rounds-Won :
      (n : ℕ) (d e : Db) (want : ℤ) (cur : String) (outs : List (String × Fields × ℕ))
      → Kept d e
      → All (Won d e) outs
      → (r : String × List (String × Fields × ℕ)) × (end : Db) × (recover_rounds R n s g consumer ms
            want cur outs e
          ≡ (some r, end))
        × All (Won d end) r.1
  unfolding recover_rounds
  rounds-Won zero d e want cur outs k h = ((cur, outs), e, refl, h)
  rounds-Won (suc n) d e want cur outs k h =
      let count = want -ℤ pos (length outs) in
      let claim = xautoclaim s g consumer ms cur count e in
      let (found, eq, wins, len) =
        with_counts-Won d claim.1 claim.0.1 (
          Claimed-step d e cur count claim.0.1 k (autoclaim_entries s g consumer ms cur count e)) in
      let all = All-append (Won d claim.1) outs found (Won-step d e cur count outs h) wins in
      let (r, end, reqs, good) =
        rounds-Won n d claim.1 want claim.0.0 (outs ++ found) (Kept-step d e cur count k) all in
      elim (Bool-cases (leb_ℤ want (pos (length (outs ++ found))) || str_eq claim.0.0 "0-0")) [
        | inl stop ↦ ((claim.0.0, outs ++ found), claim.1, rw eq (rw stop), all)
        | inr more ↦ (r, end, rw eq (rw more reqs), good)
      ]

  abbrev pub lease_of : String × Fields × ℕ → Lease
  lease_of out = record {
    message_id = out.0;
    owner = consumer;
    token = pos out.2;
    partition = pos 0;
  }

  stale_token :
      (owner : String) (token : ℤ) (p : Pending)
      → holds owner token (some p) ≡ true
      → holds owner token (some (taken_over consumer p)) ≡ false
  unfolding holds
  stale_token owner (pos t) p h = ground arith
  stale_token owner (negsuc t) p h = ground arith

  own_token :
      (n : ℕ) (p : Pending)
      → n ≡ suc p.deliveries
      → holds consumer (pos n) (some (taken_over consumer p)) ≡ true
  unfolding holds
  own_token n p e = ground (arith, eq_refl consumer)

  -- Such a delivery is the consumer's, and every lease that was good before is lost.
  pub Won-owned :
      (d e : Db) (out : String × Fields × ℕ) → Won d e out → owns R s g (lease_of out) e ≡ true
  unfolding owns
  Won-owned d e out (p, t, eq, there) = rw t.2 (own_token out.2 p eq)

  pub Won-fences :
      (d e : Db) (out : String × Fields × ℕ) (old : Lease)
      → Won d e out
      → old.message_id ≡ out.0
      → owns R s g old d ≡ true
      → owns R s g old e ≡ false
  unfolding owns
  Won-fences d e out old (p, t, eq, there) same mine =
      rw (same, t.2) (stale_token old.owner old.token p (rw (same, t.0) at mine))

  All-owned :
      (d e : Db) (outs : List (String × Fields × ℕ))
      → All (Won d e) outs
      → All (λ out. Won d e out × (owns R s g (lease_of out) e ≡ true)) outs
  All-owned d e [] h = tt
  All-owned d e (out ∷ outs) (w, ws) = ((w, Won-owned d e out w), All-owned d e outs ws)

  pub recover-AllWon :
      (want : ℤ) (cursor : String) (d : Db)
      → (r : String × List (String × Fields × ℕ)) × (end : Db) × (recover_script R s g consumer ms
            want cursor d
          ≡ (some r, end))
        × All (λ out. Won d end out × (owns R s g (lease_of out) end ≡ true)) r.1
  unfolding recover_script
  recover-AllWon want cursor d =
      let (r, end, eq, good) = rounds-Won 10 d d want cursor [] (λ i p e _. e) tt in
      (r, end, eq, All-owned d end r.1 good)

  All-fenced :
      (d e : Db) (old : Lease) (outs : List (String × Fields × ℕ))
      → owns R s g old d ≡ true
      → All (λ out. Won d e out × (owns R s g (lease_of out) e ≡ true)) outs
      → All (λ out. (str_eq old.message_id out.0 && owns R s g old e) ≡ false) outs
  All-fenced d e old [] mine h = tt
  All-fenced d e old (out ∷ outs) mine ((w, _), ws) = (
    elim (Bool-cases (str_eq old.message_id out.0)) [
      | inl same ↦ rw (same, Won-fences d e out old w ((eq_iff old.message_id out.0).0 same) mine)
      | inr other ↦ rw other
    ],
    All-fenced d e old outs mine ws,
  )

  -- Where the idle time is positive, and for a lease that is good before: the recovery script
  -- answers, and for each delivery of its answer the old lease is of another delivery or is lost
  -- when the script ends.
  pub recover-fences :
      (want : ℤ) (cursor : String) (d : Db) (old : Lease)
      → owns R s g old d ≡ true
      → (r : String × List (String × Fields × ℕ)) × (end : Db) × (recover_script R s g consumer ms
            want cursor d
          ≡ (some r, end))
        × All (λ out. (str_eq old.message_id out.0 && owns R s g old end) ≡ false) r.1
  recover-fences want cursor d old mine =
      let (r, end, eq, good) = recover-AllWon want cursor d in
      (r, end, eq, All-fenced d end old r.1 mine good)

  answer_length : Option (String × List (String × Fields × ℕ)) × Db → ℕ
  answer_length (none, d) = 0
  answer_length (some r, d) = length r.1

  -- Where the idle time and the limit are positive: the recovery script answers, with at most as
  -- many deliveries as it is asked for; and for each delivery of its answer there was a pending
  -- delivery that was idle for long enough, the consumer holds it when the script ends, its token
  -- is the old count plus one, and its fields are those that the stream has for it.
  pub recover-Won :
      (w : ℕ) (cursor : String) (d : Db)
      → (r : String × List (String × Fields × ℕ)) × (end : Db) × (recover_script R s g consumer ms
            (pos (suc w))
            cursor
            d
          ≡ (some r, end))
        × (length r.1 ≤ suc w)
        × All (λ out. Won d end out × (owns R s g (lease_of out) end ≡ true)) r.1
  unfolding answer_length
  recover-Won w cursor d =
      let (r, end, eq, good) = recover-AllWon (pos (suc w)) cursor d in
      let (r', end', eq', few) = recover_script_few R s g consumer ms w cursor d in
      (r, end, eq, omega (arith, ap answer_length (sym eq ∙ eq'), few), good)
