-- ===== src/Chaos/Faults.antt =====
-- cmd/chaos/main.go: the controller's worker processes (spawn, pick, injectFaults, resume), as steps
-- that come in any order. A process is known by the number in its ID. A step that is not enabled does
-- nothing.
pub mod Manned
pub mod Replaced
pub mod Procs
use dist_tasks_go.Base.{
  ℕ, zero, suc, ◌+◌, Bool, true, false, not, ◌&&◌, ◌||◌, Option, none, some, List, [], ◌∷◌, ◌++◌,
  ◌==◌, if◌then◌else◌, length, get_elem?, map,
}

pub record Proc : Type 0 where
  pub number : ℕ
  pub killed : Bool
  pub paused : Bool

-- `struck` is the process that the controller has picked to kill and whose end it waits for. The last two
-- fields are the history: how many processes ended that the controller had not picked to kill, and how
-- many ended after it had picked them, before it marked them as killed.
pub record Controller : Type 0 where
  pub next : ℕ
  pub procs : List Proc
  pub crashed : List ℕ
  pub kills : ℕ
  pub pauses : ℕ
  pub struck : Option ℕ
  pub left : ℕ
  pub raced : ℕ

-- `kill` and `pause` carry the draw of pick; `mark` is the second critical section of a kill, which sets
-- `killed` and comes before the signal. Those of a pause are one step: a process that ends in between is
-- gone all the same, whether it is marked as paused or not. `exits` is the end of a process, with or without an error,
-- and `replace` the controller's spawn once the process that it killed has ended.
pub data Fault : Type 0 where
  kill pause resume : ℕ → Fault
  exits : ℕ → Bool → Fault
  mark replace resume_all : Fault

-- The candidates of pick.
unfoldable pub live : List Proc → List Proc
live [] = []
live (p ∷ ps) = let rest = live ps in if not p.paused && not p.killed then p ∷ rest else rest

unfoldable pub pick : ℕ → List Proc → Option Proc
unfolding live
pick draw ps = get_elem? (live ps) draw

unfoldable pub spawn : Controller → Controller
spawn c = record c {
  next = suc c.next;
  procs = c.procs ++ record { number = suc c.next; killed = false; paused = false } ∷ [];
}

abbrev pub find : ℕ → List Proc → Option Proc
find n [] = none
find n (p ∷ ps) = if p.number == n then some p else find n ps

-- slices.DeleteFunc of one process, whose number no other has.
unfoldable pub remove : ℕ → List Proc → List Proc
remove n [] = []
remove n (p ∷ ps) = let rest = remove n ps in if p.number == n then ps else p ∷ rest

unfoldable pub update : (Proc → Proc) → ℕ → List Proc → List Proc
update f n [] = []
update f n (p ∷ ps) = let rest = update f n ps in (if p.number == n then f p else p) ∷ rest

abbrev pub mark_killed : Proc → Proc
mark_killed p = record p { killed = true }

abbrev pub mark_paused : Proc → Proc
mark_paused p = record p { paused = true }

abbrev pub unpause : Proc → Proc
unpause p = record p { paused = false }

pub strike : Option Proc → Controller → Controller
strike none c = c
strike (some p) c = record c { struck = some p.number }

pub mark_struck : Option ℕ → Controller → Controller
unfolding update
mark_struck none c = c
mark_struck (some n) c = record c { procs = update mark_killed n c.procs }

pub freeze : Option Proc → Controller → Controller
unfolding update
freeze none c = c
freeze (some p) c = record c { procs = update mark_paused p.number c.procs; pauses = suc c.pauses }

abbrev pub is_at : ℕ → Option ℕ → Bool
is_at n none = false
is_at n (some m) = m == n

-- The goroutine of spawn, once its process has ended.
ended : Bool → Option Proc → Controller → Controller
unfolding remove
ended failed none c = c
ended failed (some p) c = record c {
  procs = remove p.number c.procs;
  crashed = if not p.killed && failed then c.crashed ++ p.number ∷ [] else c.crashed;
  left = if is_at p.number c.struck then c.left else suc c.left;
  raced = if is_at p.number c.struck && not p.killed then suc c.raced else c.raced;
}

-- The controller goes on once the process that it killed is gone.
succeed : Option Proc → Controller → Controller
unfolding spawn
succeed none c = record (spawn c) { kills = suc c.kills; struck = none }
succeed (some p) c = c

replaced : Option ℕ → Controller → Controller
unfolding succeed
replaced none c = c
replaced (some n) c = succeed (find n c.procs) c

abbrev pub is_idle : Option ℕ → Bool
is_idle none = true
is_idle (some n) = false

unfoldable pub step : Fault → Controller → Controller
unfolding pick strike mark_struck freeze ended replaced update
step (kill draw) c = if is_idle c.struck then strike (pick draw c.procs) c else c
step mark c = mark_struck c.struck c
step (pause draw) c = if is_idle c.struck then freeze (pick draw c.procs) c else c
step (resume n) c = record c { procs = update unpause n c.procs }
step (exits n failed) c = ended failed (find n c.procs) c
step replace c = replaced c.struck c
step resume_all c = record c { procs = map unpause c.procs }

unfoldable pub run : List Fault → Controller → Controller
unfolding step
run [] c = c
run (f ∷ fs) c = run fs (step f c)

abbrev pub no_procs : Controller
no_procs = record {
  next = 0;
  procs = [];
  crashed = [];
  kills = 0;
  pauses = 0;
  struck = none;
  left = 0;
  raced = 0;
}

-- runController spawns the workers first.
unfoldable pub start : ℕ → Controller
unfolding spawn
start zero = no_procs
start (suc workers) = spawn (start workers)
