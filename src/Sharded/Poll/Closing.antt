-- ===== src/Sharded/Poll/Closing.antt =====
-- redisstream/sharded.go: Close, which ends the pollers.
use dist_tasks_go.Base.{
  ℕ, zero, suc, ◌<◌, ◌≡◌, ◌≢◌, ap, refl, true, false, List, [], ◌∷◌, arith, ==_iff, Bool-cases, inl,
  inr, ◌∙◌, subst, ◌==◌, not,
}
use dist_tasks_go.Queue.Job.{Job, canceled, Result, ok, err}
use dist_tasks_go.Sharded.Poll.{
  Polls, PollEvent, take_first, found, enter, check, read, signal, wake, expire, drop_lost,
  mark_closed, stop_polls, Place, absent, checking, reading, take_to, leave, receive, answered,
  checked, start_waiting, step, run, is_absent, fresh,
}

-- On Close the polls that block fail, and each poller comes to the head of its loop.
abbrev pub ends : ℕ → List PollEvent
ends zero = []
ends (suc n) = read n (err canceled) ∷ check n ∷ ends n

-- A poller that is gone, in a queue that is closed.
pub record IsGone (p : ℕ) (s : Polls) : Type 0 where
  pub closed : s.closed ≡ true
  pub cancelled : s.cancelled ≡ true
  pub unflagged : s.polling p ≡ false
  pub gone : s.place p ≡ absent

receive-IsGone :
    (p q : ℕ) (js : List Job) (s : Polls)
    → (q == p) ≡ false
    → IsGone p s
    → IsGone p (receive q js s)
unfolding receive leave
receive-IsGone p q [] s ne h = ground arith
receive-IsGone p q (j ∷ js) s ne h = ground arith

-- A place that is not absent is another's.
other_place : (p q : ℕ) (s : Polls) → IsGone p s → s.place q ≢ absent → (q == p) ≡ false
other_place p q s h there = ground (arith, ==_iff q p, h.gone, ap s.place {x = q} {y = p})

answered-IsGone :
    (p q : ℕ) (r : Result (List Job)) (pl : Place) (s : Polls)
    → s.place q ≡ pl
    → IsGone p s
    → IsGone p (answered q r pl s)
unfolding answered
answered-IsGone p q r absent s e h = h
answered-IsGone p q r checking s e h = h
answered-IsGone p q (err x) (reading args) s e h =
    ground (arith, other_place p q s h (λ (a : s.place q ≡ absent). cc))
answered-IsGone p q (ok js) (reading args) s e h =
    ground (arith, receive-IsGone p q js s (other_place p q s h (λ (a : s.place q ≡ absent). cc)))

checked-IsGone :
    (p q : ℕ) (pl : Place) (s : Polls) → s.place q ≡ pl → IsGone p s → IsGone p (checked q pl s)
unfolding checked leave
checked-IsGone p q absent s e h = h
checked-IsGone p q (reading args) s e h = h
checked-IsGone p q checking s e h =
    ground (arith, other_place p q s h (λ (a : s.place q ≡ absent). cc))

module _ (parts : ℕ) where
  step-IsGone : (p : ℕ) (e : PollEvent) (s : Polls) → IsGone p s → IsGone p (step parts e s)
  unfolding step start_waiting take_to
  step-IsGone p (take_first n) s h = ground arith
  step-IsGone p found s h = ground arith
  step-IsGone p (enter w l t) s h = ground arith
  step-IsGone p (check q) s h = checked-IsGone p q (s.place q) s refl h
  step-IsGone p (read q r) s h = answered-IsGone p q r (s.place q) s refl h
  step-IsGone p signal s h = ground arith
  step-IsGone p (wake n) s h = ground arith
  step-IsGone p (expire n) s h = ground arith
  step-IsGone p (drop_lost lost) s h = ground arith
  step-IsGone p mark_closed s h = ground arith
  step-IsGone p stop_polls s h = ground arith

  run-IsGone : (p : ℕ) (es : List PollEvent) (s : Polls) → IsGone p s → IsGone p (run parts es s)
  unfolding run
  run-IsGone p [] s h = h
  run-IsGone p (e ∷ es) s h = run-IsGone p es (step parts e s) (step-IsGone p e s h)

  -- The flags say which pollers there are, and only a closed queue is cancelled.
  abbrev pub IsFlagged : Polls → Type 0
  IsFlagged s = (p : ℕ) → s.polling p ≡ not (is_absent (s.place p))

  receive-IsFlagged :
      (q : ℕ) (js : List Job) (s : Polls)
      → s.polling q ≡ true
      → IsFlagged s
      → IsFlagged (receive q js s)
  unfolding receive leave
  receive-IsFlagged q [] s e h p = ground (arith, h p, ==_iff q p, ap s.polling {x = q} {y = p})
  receive-IsFlagged q (j ∷ js) s e h p = ground (arith, h p)

  answered-IsFlagged :
      (q : ℕ) (r : Result (List Job)) (pl : Place) (s : Polls)
      → s.place q ≡ pl
      → IsFlagged s
      → IsFlagged (answered q r pl s)
  unfolding answered
  answered-IsFlagged q r absent s e h p = h p
  answered-IsFlagged q r checking s e h p = h p
  answered-IsFlagged q (err x) (reading args) s e h p =
      ground (arith, h p, h q, ==_iff q p, ap s.polling {x = q} {y = p})
  answered-IsFlagged q (ok js) (reading args) s e h p =
      ground (arith, h p, receive-IsFlagged q js s (h q ∙ ap (λ x. not (is_absent x)) e) h p)

  checked-IsFlagged :
      (q : ℕ) (pl : Place) (s : Polls) → s.place q ≡ pl → IsFlagged s → IsFlagged (checked q pl s)
  unfolding checked leave
  checked-IsFlagged q absent s e h p = h p
  checked-IsFlagged q (reading args) s e h p = h p
  checked-IsFlagged q checking s e h p =
      ground (arith, h p, h q, ==_iff q p, ap s.polling {x = q} {y = p})

  pub step-IsFlagged : (e : PollEvent) (s : Polls) → IsFlagged s → IsFlagged (step parts e s)
  unfolding step start_waiting take_to
  step-IsFlagged (take_first n) s h p = ground (arith, h p)
  step-IsFlagged found s h p = ground (arith, h p)
  step-IsFlagged (enter w l t) s h p = ground (arith, h p)
  step-IsFlagged (check q) s h p = checked-IsFlagged q (s.place q) s refl h p
  step-IsFlagged (read q r) s h p = answered-IsFlagged q r (s.place q) s refl h p
  step-IsFlagged signal s h p = ground (arith, h p)
  step-IsFlagged (wake n) s h p = ground (arith, h p)
  step-IsFlagged (expire n) s h p = ground (arith, h p)
  step-IsFlagged (drop_lost lost) s h p = h p
  step-IsFlagged mark_closed s h p = h p
  step-IsFlagged stop_polls s h p = ground (arith, h p)

  pub run-IsFlagged : (es : List PollEvent) (s : Polls) → IsFlagged s → IsFlagged (run parts es s)
  unfolding run
  run-IsFlagged [] s h = h
  run-IsFlagged (e ∷ es) s h = run-IsFlagged es (step parts e s) (step-IsFlagged e s h)

  -- The end of one poller: its poll fails, and it comes to the head of the loop.
  abbrev turn : ℕ → Polls → Polls
  turn n s = step parts (check n) (step parts (read n (err canceled)) s)

  abbrev pub IsClosing : Polls → Type 0
  IsClosing s = (s.closed ≡ true) × (s.cancelled ≡ true)

  turned :
      (n : ℕ) (pl : Place) (s : Polls)
      → s.place n ≡ pl
      → s.polling n ≡ not (is_absent pl)
      → IsClosing s
      → IsGone n (turn n s) × IsClosing (turn n s)
  unfolding step answered checked leave
  turned n absent s e f h = ground arith
  turned n checking s e f h = ground (arith, ==_iff n n)
  turned n (reading args) s e f h = ground (arith, ==_iff n n)

  pub ends-IsGone :
      (n p : ℕ) (s : Polls) → p < n → IsClosing s → IsFlagged s → IsGone p (run parts (ends n) s)
  unfolding run
  ends-IsGone zero p s lt c f = absurd (omega arith)
  ends-IsGone (suc n) p s lt c f =
      let (gone, closing) = turned n (s.place n) s refl (f n) c in
      let flagged = step-IsFlagged (check n) _ (step-IsFlagged (read n (err canceled)) s f) in
      elim (Bool-cases (n == p)) [
        | inl same ↦
            run-IsGone p (ends n) (turn n s)
              (subst (λ q. IsGone q (turn n s)) ((==_iff n p).0 same) gone)
        | inr apart ↦ ends-IsGone n p (turn n s) (ground (arith, ==_iff n p)) closing flagged
      ]

  -- After any steps from the start, then Close and, for each partition, a poll that is
  -- interrupted and the head of its loop: the poller of every partition has ended, and whatever
  -- steps come later, no claim starts one again.
  pub closed_polls_end :
      (before after : List PollEvent) (p : ℕ)
      → p < parts
      → let s = run parts (mark_closed ∷ stop_polls ∷ []) (run parts before fresh) in
        IsGone p (run parts after (run parts (ends parts) s))
  closed_polls_end before after p lt =
      let s = run parts before fresh in
      let t = run parts (mark_closed ∷ stop_polls ∷ []) s in
      run-IsGone p after (run parts (ends parts) t) (
        ends-IsGone parts p t lt (unfold run step in ground arith) (
          run-IsFlagged (mark_closed ∷ stop_polls ∷ []) s (run-IsFlagged before fresh (λ q. refl))))
