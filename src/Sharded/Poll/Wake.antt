-- ===== src/Sharded/Poll/Wake.antt =====
-- redisstream/sharded.go: the signal `arrived`, and the claim that waits for it.
use dist_tasks_go.Base.{
  ℕ, suc, ◌≡◌, refl, Bool, true, false, ◌||◌, List, [], ◌∷◌, ◌++◌, arith, ltb, take, drop,
}
use dist_tasks_go.Queue.Job.{Job, Lease, Result, ok, err}
use dist_tasks_go.Sharded.Poll.{
  Polls, PollEvent, take_first, found, enter, check, read, signal, wake, expire, drop_lost,
  mark_closed, stop_polls, Place, absent, checking, reading, away, waits, is_empty, is_away,
  is_waits, keep, take_to, leave, receive, answered, checked, start_waiting, step, run, fresh,
}
use dist_tasks_go.Sharded.Poll.Counting.{one_if}

-- A claim that waits is counted; and where it or its sweep is under way with jobs in the buffer, the
-- signal is there or will be given.
pub record IsWakeable (s : Polls) : Type 0 where
  pub counted : s.waiting ≡ one_if (is_waits s.claimer)
  pub woken : (is_away s.claimer || (is_empty s.buffered || (s.arrived || ltb 0 s.signals))) ≡ true

is_empty-keep :
    (lost : Lease → Bool) (js : List Job) → is_empty js ≡ true → is_empty (keep lost js) ≡ true
is_empty-keep lost [] h = refl
is_empty-keep lost (j ∷ js) h = cc

take_to-away :
    (n w : ℕ) (b : Bool) (s : Polls)
    → w ≡ 0
    → IsWakeable (record (take_to n away s) { waiting = w; arrived = b })
unfolding take_to
take_to-away n w b s h = record { counted = h; woken = refl }

receive-IsWakeable :
    (p : ℕ) (js : List Job) (s : Polls) → IsWakeable s → IsWakeable (receive p js s)
unfolding receive leave
receive-IsWakeable p [] s h = ground arith
receive-IsWakeable p (j ∷ js) s h = ground arith

answered-IsWakeable :
    (p : ℕ) (r : Result (List Job)) (pl : Place) (s : Polls)
    → IsWakeable s
    → IsWakeable (answered p r pl s)
unfolding answered
answered-IsWakeable p r absent s h = h
answered-IsWakeable p r checking s h = h
answered-IsWakeable p (err e) (reading args) s h = ground arith
answered-IsWakeable p (ok js) (reading args) s h = ground (arith, receive-IsWakeable p js s h)

checked-IsWakeable : (p : ℕ) (pl : Place) (s : Polls) → IsWakeable s → IsWakeable (checked p pl s)
unfolding checked leave
checked-IsWakeable p absent s h = h
checked-IsWakeable p (reading args) s h = h
checked-IsWakeable p checking s h = ground arith

module _ (parts : ℕ) where
  step-IsWakeable : (e : PollEvent) (s : Polls) → IsWakeable s → IsWakeable (step parts e s)
  unfolding step take_to start_waiting
  step-IsWakeable (take_first n) s h = ground arith
  step-IsWakeable found s h = ground arith
  step-IsWakeable (enter w l t) s h = ground arith
  step-IsWakeable (check p) s h = checked-IsWakeable p (s.place p) s h
  step-IsWakeable (read p r) s h = answered-IsWakeable p r (s.place p) s h
  step-IsWakeable signal s h = ground arith
  step-IsWakeable (wake n) s h = ground arith
  step-IsWakeable (expire n) s h = ground arith
  step-IsWakeable (drop_lost lost) s h = ground (arith, is_empty-keep lost s.buffered)
  step-IsWakeable mark_closed s h = ground arith
  step-IsWakeable stop_polls s h = ground arith

  pub run-IsWakeable :
      (es : List PollEvent) (s : Polls) → IsWakeable s → IsWakeable (run parts es s)
  unfolding run
  run-IsWakeable [] s h = h
  run-IsWakeable (e ∷ es) s h = run-IsWakeable es (step parts e s) (step-IsWakeable e s h)

  fresh-IsWakeable : IsWakeable fresh
  fresh-IsWakeable = record { counted = refl; woken = refl }

  wakes :
      (s : Polls) (n : ℕ)
      → IsWakeable s
      → s.claimer ≡ waits
      → is_empty s.buffered ≡ false
      → let t = run parts (signal ∷ wake n ∷ []) s in
        (t.handed ≡ s.handed ++ take (suc n) s.buffered)
        × (t.buffered ≡ drop (suc n) s.buffered)
        × (t.claimer ≡ away)
  unfolding run step take_to
  wakes s n h w e = ground arith

  -- After any steps of the long polls from the start, where a claim waits and jobs are buffered:
  -- the signal of the poll that stored them and the claim's wake-up hand out the first jobs of
  -- the buffer, up to the claim's limit, keep the others, and end the wait.
  pub waiting_claim_wakes :
      (es : List PollEvent) (n : ℕ)
      → (run parts es fresh).claimer ≡ waits
      → is_empty (run parts es fresh).buffered ≡ false
      → let s = run parts es fresh in
        let t = run parts (signal ∷ wake n ∷ []) s in
        (t.handed ≡ s.handed ++ take (suc n) s.buffered)
        × (t.buffered ≡ drop (suc n) s.buffered)
        × (t.claimer ≡ away)
  waiting_claim_wakes es n = wakes (run parts es fresh) n (run-IsWakeable es fresh fresh-IsWakeable)
