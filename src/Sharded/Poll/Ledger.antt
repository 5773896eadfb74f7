-- ===== src/Sharded/Poll/Ledger.antt =====
-- redisstream/sharded.go: the jobs that long polls lease, counted by where they go.
use dist_tasks_go.Base.{
  ℕ, suc, ◌+◌, ◌≡◌, refl, sym, ◌∙◌, ap, Bool, List, [], ◌∷◌, ◌++◌, arith, take, drop,
  take-append-drop,
}
use dist_tasks_go.Queue.Job.{Job, Lease, Result, ok, err}
use dist_tasks_go.Sharded.{tag}
use dist_tasks_go.Sharded.Poll.{
  Polls, PollEvent, take_first, found, enter, check, read, signal, wake, expire, drop_lost,
  mark_closed, stop_polls, Place, absent, checking, reading, Claimer, keep, lose, take_to, leave,
  receive, answered, checked, start_waiting, step, run, fresh,
}
use dist_tasks_go.Sharded.Poll.Counting.{one_if}

-- How many of the jobs pass a test.
pub count : (Job → Bool) → List Job → ℕ
count test [] = 0
count test (j ∷ js) = one_if (test j) + count test js

count-append :
    (test : Job → Bool) (xs ys : List Job) → count test (xs ++ ys) ≡ count test xs + count test ys
unfolding count
count-append test [] ys = omega arith
count-append test (x ∷ xs) ys = omega (arith, count-append test xs ys)

count-take-drop :
    (test : Job → Bool) (n : ℕ) (js : List Job)
    → count test (take n js) + count test (drop n js) ≡ count test js
count-take-drop test n js =
    sym (count-append test (take n js) (drop n js)) ∙ ap (count test) (take-append-drop n js)

count-keep-lose :
    (test : Job → Bool) (lost : Lease → Bool) (js : List Job)
    → count test (keep lost js) + count test (lose lost js) ≡ count test js
unfolding count
count-keep-lose test lost [] = refl
count-keep-lose test lost (j ∷ js) = ground (arith, count-keep-lose test lost js)

-- Every job that was leased is handed out, in the buffer, or dropped.
abbrev pub Balanced : (Job → Bool) → Polls → Type 0
Balanced test s =
    count test s.leased ≡ count test s.handed + count test s.buffered + count test s.dropped

module _ (test : Job → Bool) where
  take_to-Balanced :
      (n : ℕ) (c : Claimer) (s : Polls) → Balanced test s → Balanced test (take_to n c s)
  unfolding take_to
  take_to-Balanced n c s h =
      omega
        (arith, count-append test s.handed (take n s.buffered), count-take-drop test n s.buffered)

  receive-Balanced :
      (p : ℕ) (js : List Job) (s : Polls) → Balanced test s → Balanced test (receive p js s)
  unfolding receive leave
  receive-Balanced p [] s h = h
  receive-Balanced p (j ∷ js) s h = omega (
    arith,
    count-append test s.leased (tag p (j ∷ js)),
    count-append test s.buffered (tag p (j ∷ js)),
  )

  answered-Balanced :
      (p : ℕ) (r : Result (List Job)) (pl : Place) (s : Polls)
      → Balanced test s
      → Balanced test (answered p r pl s)
  unfolding answered
  answered-Balanced p r absent s h = h
  answered-Balanced p r checking s h = h
  answered-Balanced p (err e) (reading args) s h = h
  answered-Balanced p (ok js) (reading args) s h = ground (arith, receive-Balanced p js s h)

  checked-Balanced :
      (p : ℕ) (pl : Place) (s : Polls) → Balanced test s → Balanced test (checked p pl s)
  unfolding checked leave
  checked-Balanced p absent s h = h
  checked-Balanced p (reading args) s h = h
  checked-Balanced p checking s h = ground arith

  module _ (parts : ℕ) where
    step-Balanced : (e : PollEvent) (s : Polls) → Balanced test s → Balanced test (step parts e s)
    unfolding step start_waiting
    step-Balanced (take_first n) s h = ground (arith, take_to-Balanced (suc n) _ s h)
    step-Balanced found s h = ground arith
    step-Balanced (enter w l t) s h = ground arith
    step-Balanced (check p) s h = checked-Balanced p (s.place p) s h
    step-Balanced (read p r) s h = answered-Balanced p r (s.place p) s h
    step-Balanced signal s h = ground arith
    step-Balanced (wake n) s h = ground (arith, take_to-Balanced (suc n) Claimer.away s h)
    step-Balanced (expire n) s h = ground (arith, take_to-Balanced (suc n) Claimer.away s h)
    step-Balanced (drop_lost lost) s h = omega (
      arith,
      count-append test s.dropped (lose lost s.buffered),
      count-keep-lose test lost s.buffered,
    )
    step-Balanced mark_closed s h = h
    step-Balanced stop_polls s h = ground arith

    run-Balanced :
        (es : List PollEvent) (s : Polls) → Balanced test s → Balanced test (run parts es s)
    unfolding run
    run-Balanced [] s h = h
    run-Balanced (e ∷ es) s h = run-Balanced es (step parts e s) (step-Balanced e s h)

    -- After any steps of the long polls from the start, and for any test of jobs: of the jobs
    -- that the polls leased, as many pass the test as of those handed to claims, those still
    -- buffered and those dropped for a lost lease together, so that no job is lost or handed out
    -- twice.
    pub run-fresh-Balanced : (es : List PollEvent) → Balanced test (run parts es fresh)
    run-fresh-Balanced es = run-Balanced es fresh (unfold count in refl)
