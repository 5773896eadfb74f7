-- ===== src/Store/Warnings.antt =====
-- redisstream/store.go: warnStuckBlock, which goroutines of one process call at any time, as the steps
-- that its atomic operations are: the load, and the swap if it gets so far. Also flatToMap. A step that
-- is not enabled does nothing.
pub mod Spaced
use dist_tasks_go.Base.{
  ℕ, zero, suc, ◌*◌, String, Bool, true, false, ◌&&◌, Option, none, some, List, [], ◌∷◌, ◌++◌, ℤ,
  pos, ◌-ℤ◌, leb_ℤ, eq_ℤ, str_eq, if◌then◌else◌,
}

abbrev pub minute : ℕ
minute = 60 * 1_000_000_000

-- A call that has read the clock and `last`.
pub record WarnCall : Type 0 where
  pub now : ℤ
  pub last : ℤ

-- lastStuckWarn, the calls under way, and the times of the warnings, the newest first.
pub record Warnings : Type 0 where
  pub last_stuck_warn : ℤ
  pub calls : List WarnCall
  pub logged : List ℤ

pub data WarnEvent : Type 0 where
  load : ℤ → WarnEvent
  swap : ℕ → WarnEvent

abbrev pub no_warnings : Warnings
no_warnings = record { last_stuck_warn = pos 0; calls = []; logged = [] }

abbrev pub nth : ℕ → List WarnCall → Option WarnCall
nth k [] = none
nth zero (c ∷ cs) = some c
nth (suc k) (c ∷ cs) = nth k cs

unfoldable pub without_nth : ℕ → List WarnCall → List WarnCall
without_nth k [] = []
without_nth zero (c ∷ cs) = cs
without_nth (suc k) (c ∷ cs) = c ∷ without_nth k cs

-- now - last < minute, or CompareAndSwap.
unfoldable pub swapped : Option WarnCall → Warnings → Warnings
swapped none s = s
swapped (some c) s =
    if leb_ℤ (pos minute) (c.now -ℤ c.last) && eq_ℤ s.last_stuck_warn c.last
    then record s { last_stuck_warn = c.now; logged = c.now ∷ s.logged }
    else s

unfoldable pub step : WarnEvent → Warnings → Warnings
unfolding swapped without_nth
step (load now) s = record s { calls = record { now = now; last = s.last_stuck_warn } ∷ s.calls }
step (swap k) s = swapped (nth k s.calls) (record s { calls = without_nth k s.calls })

unfoldable pub run : List WarnEvent → Warnings → Warnings
unfolding step
run [] s = s
run (e ∷ es) s = run es (step e s)

-- A value of a script's reply: a text, or something else.
pub data Reply : Type 0 where
  bulk : String → Reply
  other_reply : Reply

abbrev key_of : Reply → String
key_of (bulk s) = s
key_of other_reply = ""

-- flatToMap: a key without a value is left out, and a later field replaces an earlier one.
unfoldable pub flat_to_map : List Reply → String → Option Reply
flat_to_map [] k = none
flat_to_map (f ∷ []) k = none
flat_to_map (f ∷ v ∷ rest) k =
    let later = flat_to_map rest k in
    elim later [ some w ↦ some w | none ↦ if str_eq (key_of f) k then some v else none ]
