-- ===== src/Tests/PollRuns.antt =====
-- The long polls at concrete sequences of steps.
use dist_tasks_go.Base.{
  ◌+◌, ◌-◌, ◌*◌, ◌≤◌, ◌≡◌, refl, Bool, List, [], ◌∷◌, ◌++◌, pos, arith, length, take, drop, str_eq,
}
use dist_tasks_go.Queue.Job.{Job, ok}
use dist_tasks_go.Sharded.{tag}
use dist_tasks_go.Sharded.Poll.{
  PollEvent, take_first, enter, check, read, signal, wake, expire, mark_closed, stop_polls, away,
  run, fresh,
}
use dist_tasks_go.Sharded.Poll.Wake.{waiting_claim_wakes}
use dist_tasks_go.Sharded.Poll.Ledger.{count, run-fresh-Balanced}
use dist_tasks_go.Sharded.Poll.Closing.{IsGone, ends, closed_polls_end}
use dist_tasks_go.Sharded.Poll.Room.Bound.{length-buffered}
use dist_tasks_go.Tests.Setup.{mail, mail_again}

abbrev pair : List Job
pair = mail ∷ mail_again ∷ []

-- A claim of at most four jobs waits on two partitions.
abbrev waited : List PollEvent
waited = take_first 3 ∷ enter "w" 4 (pos 9) ∷ check 0 ∷ check 1 ∷ []

abbrev polled : List PollEvent
polled = take_first 3 ∷ enter "w" 4 (pos 9) ∷ check 0 ∷ check 1 ∷ read 0 (ok pair) ∷ []

waiting_claim_wakes_example :
    let s = run 2 polled fresh in
    let t = run 2 (signal ∷ wake 3 ∷ []) s in
    (t.handed ≡ s.handed ++ take 4 s.buffered)
    × (t.buffered ≡ drop 4 s.buffered)
    × (t.claimer ≡ away)
unfolding run tag
waiting_claim_wakes_example = waiting_claim_wakes 2 polled 3 refl refl

is_mail : Job → Bool
is_mail j = str_eq j.id "7"

run-fresh-Balanced_example :
    let s = run 2 polled fresh in
    count is_mail s.leased
    ≡ count is_mail s.handed + count is_mail s.buffered + count is_mail s.dropped
run-fresh-Balanced_example = run-fresh-Balanced is_mail 2 polled

closed_polls_end_example : IsGone 1 (
    run 2
      (check 1 ∷ [])
      (run 2 (ends 2) (run 2 (mark_closed ∷ stop_polls ∷ []) (run 2 polled fresh))))
closed_polls_end_example = closed_polls_end 2 polled (check 1 ∷ []) 1 (omega arith)

length-buffered_example : length (run 2 polled fresh).buffered ≤ 2 * (4 + 2 - 1)
length-buffered_example =
    length-buffered 2 4 polled (omega arith) (omega arith) (tt, (refl, (tt, (tt, (tt, tt)))))

-- A claim that ends with its pollers at work, and the next one.
abbrev twice : List PollEvent
twice =
    take_first 3
    ∷ enter "w" 4 (pos 9)
    ∷ check 0
    ∷ check 1
    ∷ expire 3
    ∷ take_first 3
    ∷ read 0 (ok pair)
    ∷ read 1 (ok pair)
    ∷ enter "w" 4 (pos 9)
    ∷ check 0
    ∷ check 1
    ∷ read 0 (ok pair)
    ∷ read 1 (ok pair)
    ∷ []

buffered_twice : length (run 2 twice fresh).buffered ≡ 8
unfolding run tag
buffered_twice = refl
