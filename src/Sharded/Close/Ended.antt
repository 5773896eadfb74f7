-- ===== src/Sharded/Close/Ended.antt =====
-- redisstream/sharded.go: after Close, every poller has ended and every socket is closed.
use dist_tasks_go.Base.{
  ℕ, ◌<◌, ◌≡◌, refl, ◌∙◌, Bool, true, false, not, ◌&&◌, List, [], ◌∷◌, map, if◌then◌else◌, arith,
}
use dist_tasks_go.Sharded.Poll
use dist_tasks_go.Queue.Job.{Job, Result, ok, err}
use dist_tasks_go.Sharded.Poll.{
  Polls, PollEvent, take_first, found, enter, check, read, signal, wake, expire, drop_lost,
  mark_closed, stop_polls, Place, absent, checking, reading, take_to, leave, receive, answered,
  checked, start_waiting, fresh,
}
use dist_tasks_go.Sharded.Poll.Closing.{
  ends, IsGone, ends-IsGone, IsFlagged, step-IsFlagged, IsClosing,
}
use dist_tasks_go.Sharded.Connections
use dist_tasks_go.Sharded.Connections.{
  ConnTracker, ConnEvent, connect, close_all, admit, untrack, shut, new_tracker,
}
use dist_tasks_go.Sharded.Connections.Shut.{IsTracked, step-IsTracked, start-IsTracked, late_shut}
use dist_tasks_go.Sharded.Close.{
  Closable, ClosableEvent, polling, connecting, closes, opened, close, step, run,
}

-- A poller's steps leave it open or closed as it is.
abbrev Same : Polls → Polls → Type 0
Same s t = (t.closed ≡ s.closed) × (t.cancelled ≡ s.cancelled)

checked-Same : (q : ℕ) (pl : Place) (s : Polls) → Same s (checked q pl s)
unfolding checked leave
checked-Same q absent s = (refl, refl)
checked-Same q (reading args) s = (refl, refl)
checked-Same q checking s = (ground arith, ground arith)

answered-Same :
    (q : ℕ) (r : Result (List Job)) (pl : Place) (s : Polls) → Same s (answered q r pl s)
unfolding answered receive leave
answered-Same q r absent s = (refl, refl)
answered-Same q r checking s = (refl, refl)
answered-Same q (err x) (reading args) s = (refl, refl)
answered-Same q (ok []) (reading args) s = (ground arith, ground arith)
answered-Same q (ok (j ∷ js)) (reading args) s = (ground arith, ground arith)

module _ (parts : ℕ) where
  -- What holds from the start on; a call of Close has closed both.
  pub record IsOrderly (s : Closable) : Type 0 where
    pub flagged : IsFlagged parts s.polls
    pub tracked : IsTracked s.sockets
    pub done_polls : (s.close_done && not (s.polls.closed && s.polls.cancelled)) ≡ false
    pub done_sockets : (s.close_done && not s.sockets.closed) ≡ false

  stays_closed :
      (e : ConnEvent) (t : ConnTracker) → (t.closed && not (Connections.step e t).closed) ≡ false
  unfolding Connections.step Connections.admitted
  stays_closed connect t = ground arith
  stays_closed close_all t = ground arith
  stays_closed (admit i) t = ground arith
  stays_closed (untrack i) t = ground arith
  stays_closed (shut i) t = ground arith

  abbrev is_closed : Polls → Bool
  is_closed s = s.closed && s.cancelled

  polls_stay_closed :
      (e : PollEvent) (s : Polls) → (is_closed s && not (is_closed (Poll.step parts e s))) ≡ false
  unfolding Poll.step take_to start_waiting
  polls_stay_closed (take_first n) s = ground arith
  polls_stay_closed found s = ground arith
  polls_stay_closed (enter w l t) s = ground arith
  polls_stay_closed (check q) s =
      let (c, d) = checked-Same q (s.place q) s in rw (c, d) (ground arith)
  polls_stay_closed (read q r) s =
      let (c, d) = answered-Same q r (s.place q) s in rw (c, d) (ground arith)
  polls_stay_closed signal s = ground arith
  polls_stay_closed (wake n) s = ground arith
  polls_stay_closed (expire n) s = ground arith
  polls_stay_closed (drop_lost lost) s = ground arith
  polls_stay_closed mark_closed s = ground arith
  polls_stay_closed stop_polls s = ground arith

  closes_polls :
      (s : Polls) → is_closed (Poll.step parts stop_polls (Poll.step parts mark_closed s)) ≡ true
  unfolding Poll.step
  closes_polls s = refl

  closed-IsOrderly :
      (s : Closable)
      → IsOrderly s
      → IsOrderly (record {
        polls = Poll.step parts stop_polls (Poll.step parts mark_closed s.polls);
        sockets = Connections.step close_all s.sockets;
        close_done = true;
      })
  closed-IsOrderly s h = record {
    flagged =
        step-IsFlagged parts stop_polls _ (step-IsFlagged parts mark_closed s.polls h.flagged);
    tracked = step-IsTracked close_all s.sockets h.tracked;
    done_polls = rw (closes_polls s.polls) refl;
    done_sockets = unfold Connections.step in refl;
  }

  -- Either outcome of a test.
  either_IsOrderly :
      (b : Bool) (x y : Closable) → IsOrderly x → IsOrderly y → IsOrderly (if b then x else y)
  either_IsOrderly true x y h k = h
  either_IsOrderly false x y h k = k

  close-IsOrderly : (s : Closable) → IsOrderly s → IsOrderly (close parts s)
  unfolding close
  close-IsOrderly s h = either_IsOrderly s.close_done s _ h (closed-IsOrderly s h)

  step-IsOrderly : (e : ClosableEvent) (s : Closable) → IsOrderly s → IsOrderly (step parts e s)
  unfolding step
  step-IsOrderly (polling e) s h = record {
    flagged = step-IsFlagged parts e s.polls h.flagged;
    tracked = h.tracked;
    done_polls = ground (arith, h.done_polls, polls_stay_closed e s.polls);
    done_sockets = h.done_sockets;
  }
  step-IsOrderly (connecting e) s h = record {
    flagged = h.flagged;
    tracked = step-IsTracked e s.sockets h.tracked;
    done_polls = h.done_polls;
    done_sockets = ground (arith, h.done_sockets, stays_closed e s.sockets);
  }
  step-IsOrderly closes s h = close-IsOrderly s h

  run-IsOrderly :
      (es : List ClosableEvent) (s : Closable) → IsOrderly s → IsOrderly (run parts es s)
  unfolding run
  run-IsOrderly [] s h = h
  run-IsOrderly (e ∷ es) s h = run-IsOrderly es (step parts e s) (step-IsOrderly e s h)

  opened-IsOrderly : IsOrderly opened
  opened-IsOrderly = record {
    flagged = λ p. refl;
    tracked = start-IsTracked;
    done_polls = refl;
    done_sockets = refl;
  }

  close-done : (s : Closable) → (close parts s).close_done ≡ true
  unfolding close
  close-done s = ground arith

  -- What a call of Close has closed.
  close-IsClosed :
      (s : Closable)
      → IsOrderly s
      → IsClosing parts (close parts s).polls × ((close parts s).sockets.closed ≡ true)
  close-IsClosed s h =
      let after = close-IsOrderly s h in
      ground (arith, close-done s, after.done_polls, after.done_sockets)

  -- Close leaves the dials and the closes of sockets that are under way as they are.
  close-under_way :
      (s : Closable)
      → ((close parts s).sockets.dialing ≡ s.sockets.dialing)
        × ((close parts s).sockets.closing ≡ s.sockets.closing)
  unfolding close Connections.step
  close-under_way s = ground arith

  -- Steps of the polls alone.
  polling-run :
      (es : List PollEvent) (s : Closable)
      → run parts (map polling es) s ≡ record s { polls = Poll.run parts es s.polls }
  unfolding run step Poll.run
  polling-run [] s = refl
  polling-run (e ∷ es) s = polling-run es (step parts (polling e) s)

  again_nothing : (s : Closable) → s.close_done ≡ true → close parts s ≡ s
  unfolding close
  again_nothing s h = rw h refl

  -- After any steps of the polls, of the sockets and of Close in any order, where no dial or
  -- close of a socket is under way: once Close is called and every poller has come to the head of
  -- its loop, the poller of each partition has ended, every socket is closed, as is the socket of
  -- a later dial, the table is empty, and a second Close changes nothing.
  pub close-ends_all :
      (es : List ClosableEvent) (p i : ℕ)
      → p < parts
      → (run parts es opened).sockets.dialing ≡ []
      → (run parts es opened).sockets.closing ≡ []
      → let t = run parts (map polling (ends parts)) (close parts (run parts es opened)) in
        let late = Connections.step (admit t.sockets.next) (Connections.step connect t.sockets) in
        IsGone p t.polls
        × (t.sockets.is_open i ≡ false)
        × (late.is_open i ≡ false)
        × (late.conns ≡ [])
        × (close parts t ≡ t)
  close-ends_all es p i lt d k =
      let s = run parts es opened in
      let h = run-IsOrderly es opened opened-IsOrderly in
      let after = close-IsOrderly s h in
      let (polls_closed, sockets_closed) = close-IsClosed s h in
      let (dials, closes_left) = close-under_way s in
      let (shut_now, shut_late, none_kept) =
        late_shut (close parts s).sockets i after.tracked sockets_closed (dials ∙ d)
          (closes_left ∙ k) in
      rw (polling-run (ends parts) (close parts s)) (
        ends-IsGone parts parts p (close parts s).polls lt polls_closed after.flagged,
        shut_now,
        shut_late,
        none_kept,
        again_nothing _ (close-done s),
      )
