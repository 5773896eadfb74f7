-- ===== src/Sharded/Close.antt =====
-- redisstream/sharded.go: Close, over the long polls and the sockets that they block on. The clients'
-- own Close is left out.
pub mod Ended
use dist_tasks_go.Base.{ℕ, Bool, true, false, List, [], ◌∷◌, if◌then◌else◌}
use dist_tasks_go.Sharded.Poll
use dist_tasks_go.Sharded.Poll.{Polls, PollEvent, mark_closed, stop_polls, fresh}
use dist_tasks_go.Sharded.Connections
use dist_tasks_go.Sharded.Connections.{ConnTracker, ConnEvent, close_all, new_tracker}

-- `close_done` is closeOnce.
pub record Closable : Type 0 where
  pub polls : Polls
  pub sockets : ConnTracker
  pub close_done : Bool

-- The steps of the polls and of the sockets come in any order.
pub data ClosableEvent : Type 0 where
  polling : PollEvent → ClosableEvent
  connecting : ConnEvent → ClosableEvent
  closes : ClosableEvent

abbrev pub opened : Closable
opened = record { polls = fresh; sockets = new_tracker; close_done = false }

module _ (parts : ℕ) where
  -- Close, of which only the first call does something.
  unfoldable pub close : Closable → Closable
  close s = if s.close_done then s else record {
    polls = Poll.step parts stop_polls (Poll.step parts mark_closed s.polls);
    sockets = Connections.step close_all s.sockets;
    close_done = true;
  }

  unfoldable pub step : ClosableEvent → Closable → Closable
  unfolding close
  step (polling e) s = record s { polls = Poll.step parts e s.polls }
  step (connecting e) s = record s { sockets = Connections.step e s.sockets }
  step closes s = close s

  unfoldable pub run : List ClosableEvent → Closable → Closable
  unfolding step
  run [] s = s
  run (e ∷ es) s = run es (step e s)
