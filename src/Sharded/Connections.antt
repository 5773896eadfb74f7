-- ===== src/Sharded/Connections.antt =====
-- redisstream/sharded.go: connTracker, the sockets of the client that polls, as steps of the
-- goroutines that dial and close. A socket is a number. The two halves of a dial (net.Dialer, then what
-- happens under the lock) and of trackedConn.Close are steps of their own. A step that is not enabled
-- does nothing.
pub mod Shut
use dist_tasks_go.Base.{
  ℕ, suc, Bool, true, false, not, ◌&&◌, ◌||◌, List, [], ◌∷◌, ◌==◌, if◌then◌else◌,
}

-- `dialing` are the sockets of dials that have yet to take the lock, `closing` those that Close has
-- taken out of the table and has yet to close.
pub record ConnTracker : Type 0 where
  pub conns : List ℕ
  pub closed : Bool
  pub dialing : List ℕ
  pub closing : List ℕ
  pub is_open : ℕ → Bool
  pub next : ℕ

pub data ConnEvent : Type 0 where
  connect close_all : ConnEvent
  admit untrack shut : ℕ → ConnEvent

abbrev pub elem : ℕ → List ℕ → Bool
elem i [] = false
elem i (j ∷ js) = i == j || elem i js

unfoldable pub without : ℕ → List ℕ → List ℕ
without i [] = []
without i (j ∷ js) = let rest = without i js in if i == j then rest else j ∷ rest

unfoldable pub close_socket : ℕ → (ℕ → Bool) → ℕ → Bool
close_socket i is_open j = if i == j then false else is_open j

unfoldable pub close_each : List ℕ → (ℕ → Bool) → ℕ → Bool
unfolding close_socket
close_each [] is_open = is_open
close_each (i ∷ is) is_open = close_each is (close_socket i is_open)

abbrev pub new_tracker : ConnTracker
new_tracker = record {
  conns = [];
  closed = false;
  dialing = [];
  closing = [];
  is_open = λ i. false;
  next = 0;
}

-- dial, once it holds the lock: net.ErrClosed is a socket that is closed at once.
unfoldable pub admitted : ℕ → ConnTracker → ConnTracker
unfolding without close_socket
admitted i t =
    if t.closed
    then record t { dialing = without i t.dialing; is_open = close_socket i t.is_open }
    else record t { dialing = without i t.dialing; conns = i ∷ t.conns }

unfoldable pub step : ConnEvent → ConnTracker → ConnTracker
unfolding admitted without close_socket close_each
step connect t = record t {
  dialing = t.next ∷ t.dialing;
  is_open = λ i. if t.next == i then true else t.is_open i;
  next = suc t.next;
}
step (admit i) t = if elem i t.dialing then admitted i t else t
step (untrack i) t = record t { conns = without i t.conns; closing = i ∷ t.closing }
step (shut i) t =
    if elem i t.closing
    then record t { closing = without i t.closing; is_open = close_socket i t.is_open }
    else t
step close_all t = record t { closed = true; conns = []; is_open = close_each t.conns t.is_open }
