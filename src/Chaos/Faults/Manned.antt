-- ===== src/Chaos/Faults/Manned.antt =====
-- cmd/chaos/main.go: how many worker processes there are during the faults.
use dist_tasks_go.Base.{
  ℕ, suc, ◌+◌, ◌≤◌, ◌<◌, ◌≡◌, refl, sym, ◌∙◌, ap, Bool, true, false, not, ◌&&◌, Option, none, some,
  List, [], ◌∷◌, ◌==◌, if◌then◌else◌, length, length-append, arith, Bool-cases, inl, inr,
}
use mathlib.Core.Option.{map as option_map}
use dist_tasks_go.Chaos.Faults.{
  Proc, Controller, spawn, find, mark_killed, mark_paused, unpause, strike, mark_struck, freeze,
  start, update, is_at,
}
use dist_tasks_go.Chaos.Faults.Procs.{
  Unique, find-update, update-Unique, length-update, find-append, append-Unique,
}

abbrev pub one_if_none : Option Proc → ℕ
one_if_none none = 1
one_if_none (some p) = 0

-- The process that was killed and has ended, whose successor is not there yet.
abbrev pub missing : Option ℕ → List Proc → ℕ
missing none ps = 0
missing (some n) ps = one_if_none (find n ps)

-- Processes have numbers of their own, only the one that the controller waits for can be marked
-- as killed, and each worker's place is taken, or its process left by itself.
pub record IsManned (workers : ℕ) (c : Controller) : Type 0 where
  pub unique : Unique c.procs
  pub bounded : (n : ℕ) → c.next < n → find n c.procs ≡ none
  pub marked :
      (n : ℕ) (p : Proc) → find n c.procs ≡ some p → (p.killed && not (is_at n c.struck)) ≡ false
  pub manned : length c.procs + c.left + missing c.struck c.procs ≡ workers
  pub started : c.next ≡ workers + c.kills
  pub crashes : length c.crashed ≤ c.left + c.raced

pub spawn-IsManned :
    (workers k : ℕ) (c : Controller)
    → c.struck ≡ none
    → Unique c.procs
    → ((n : ℕ) → c.next < n → find n c.procs ≡ none)
    → ((n : ℕ) (p : Proc) → find n c.procs ≡ some p → p.killed ≡ false)
    → suc (length c.procs + c.left) ≡ workers
    → suc c.next ≡ workers + k
    → length c.crashed ≤ c.left + c.raced
    → IsManned workers (record (spawn c) { kills = k })
unfolding spawn
spawn-IsManned workers k c idle u b m len start few =
    let q : Proc = record { number = suc c.next; killed = false; paused = false } in
    record {
      unique = append-Unique c.procs q u (b (suc c.next) (omega arith));
      bounded = λ n lt. ground (arith, find-append n c.procs q, b n (omega arith));
      marked = λ n p h. rw idle (ground (arith, find-append n c.procs q, m n p));
      manned = rw idle (omega (arith, length-append {0} c.procs (q ∷ []), len));
      started = start;
      crashes = few;
    }

-- A process that is found under its number.
abbrev Found : Controller → Proc → Type 0
Found c p = (find p.number c.procs ≡ some p) × (p.killed ≡ false)

map_paused :
    (t : Bool) (o : Option Proc)
    → ((p : Proc) → o ≡ some p → (p.killed && not t) ≡ false)
    → (q : Proc) → option_map mark_paused o ≡ some q
    → (q.killed && not t) ≡ false
map_paused t none m q e = cc
map_paused t (some p) m q e = ground (arith, e, m p refl)

map_unpaused :
    (t : Bool) (o : Option Proc)
    → ((p : Proc) → o ≡ some p → (p.killed && not t) ≡ false)
    → (q : Proc) → option_map unpause o ≡ some q
    → (q.killed && not t) ≡ false
map_unpaused t none m q e = cc
map_unpaused t (some p) m q e = ground (arith, e, m p refl)

pub strike-IsManned :
    (workers : ℕ) (o : Option Proc) (c : Controller)
    → c.struck ≡ none
    → ((p : Proc) → o ≡ some p → Found c p)
    → IsManned workers c
    → IsManned workers (strike o c)
unfolding strike
strike-IsManned workers none c idle found h = h
strike-IsManned workers (some p) c idle found h =
    let (there, alive) = found p refl in
    record {
      unique = h.unique;
      bounded = h.bounded;
      marked = λ n q e. let nobody = ap (is_at n) idle in ground (arith, h.marked n q e, nobody);
      manned = rw there (omega (arith, rw idle at h.manned));
      started = h.started;
      crashes = h.crashes;
    }

one_if_none-killed :
    (t : Bool) (o : Option Proc)
    → one_if_none (if t then option_map mark_killed o else o) ≡ one_if_none o
one_if_none-killed t none = ground arith
one_if_none-killed t (some p) = ground arith

-- Marking the process that was picked, if it is still there.
pub mark-IsManned :
    (workers : ℕ) (o : Option ℕ) (c : Controller)
    → c.struck ≡ o
    → IsManned workers c
    → IsManned workers (mark_struck o c)
unfolding mark_struck
mark-IsManned workers none c e h = h
mark-IsManned workers (some m) c e h = record {
  unique = update-Unique mark_killed (λ q. refl) m c.procs h.unique;
  bounded = λ n lt. ground (arith, find-update mark_killed (λ q. refl) n m c.procs, h.bounded n lt);
  marked = λ n q is. elim (Bool-cases (m == n)) [
    | inl same ↦ let here = ap (is_at n) e in ground (arith, here, same)
    | inr other ↦ h.marked n q (rw (find-update mark_killed (λ x. refl) n m c.procs, other) at is)
  ];
  manned = omega (
    arith,
    length-update mark_killed m c.procs,
    ap (λ s. missing s (update mark_killed m c.procs)) e,
    ap (λ s. missing s c.procs) e,
    ap one_if_none (find-update mark_killed (λ x. refl) m m c.procs),
    one_if_none-killed (m == m) (find m c.procs),
    h.manned,
  );
  started = h.started;
  crashes = h.crashes;
}

pub freeze-IsManned :
    (workers : ℕ) (o : Option Proc) (c : Controller)
    → c.struck ≡ none
    → IsManned workers c
    → IsManned workers (freeze o c)
unfolding freeze
freeze-IsManned workers none c idle h = h
freeze-IsManned workers (some p) c idle h = record {
  unique = update-Unique mark_paused (λ q. refl) p.number c.procs h.unique;
  bounded = λ n lt.
      ground (arith, find-update mark_paused (λ q. refl) n p.number c.procs, h.bounded n lt);
  marked = λ n q e. elim (Bool-cases (p.number == n)) [
    | inl same ↦
        map_paused (is_at n c.struck) (find n c.procs) (h.marked n) q
          (rw (find-update mark_paused (λ x. refl) n p.number c.procs, same) at e)
    | inr other ↦
        h.marked n q (rw (find-update mark_paused (λ x. refl) n p.number c.procs, other) at e)
  ];
  manned = rw idle (omega (arith, length-update mark_paused p.number c.procs, rw idle at h.manned));
  started = h.started;
  crashes = h.crashes;
}

one_if_none-unpause :
    (t : Bool) (o : Option Proc)
    → one_if_none (if t then option_map unpause o else o) ≡ one_if_none o
one_if_none-unpause t none = ground arith
one_if_none-unpause t (some p) = ground arith

-- The processes of a list are those of another one, some of them resumed.
abbrev IsResumed : List Proc → List Proc → Type 0
IsResumed ps qs =
    (n : ℕ) → (t : Bool) × (find n ps ≡ (if t then option_map unpause (find n qs) else find n qs))

missing-IsResumed :
    (s : Option ℕ) (ps qs : List Proc) → IsResumed ps qs → missing s ps ≡ missing s qs
missing-IsResumed none ps qs r = refl
missing-IsResumed (some n) ps qs r = let (t, e) = r n in rw e (one_if_none-unpause t (find n qs))

unpaused_marked :
    (k t : Bool) (o r : Option Proc)
    → r ≡ (if t then option_map unpause o else o)
    → ((p : Proc) → o ≡ some p → (p.killed && not k) ≡ false)
    → (q : Proc) → r ≡ some q
    → (q.killed && not k) ≡ false
unpaused_marked k true o r e m q is = map_unpaused k o m q (sym e ∙ is)
unpaused_marked k false o r e m q is = m q (sym e ∙ is)

pub resumed-IsManned :
    (workers : ℕ) (ps : List Proc) (c : Controller)
    → IsResumed ps c.procs
    → Unique ps
    → length ps ≡ length c.procs
    → IsManned workers c
    → IsManned workers (record c { procs = ps })
resumed-IsManned workers ps c found u len h = record {
  unique = u;
  bounded = λ n lt. let (t, e) = found n in ground (arith, e, h.bounded n lt);
  marked = λ n q e.
      let (t, is) = found n in
      unpaused_marked (is_at n c.struck) t (find n c.procs) (find n ps) is (h.marked n) q e;
  manned = omega (arith, len, missing-IsResumed c.struck ps c.procs found, h.manned);
  started = h.started;
  crashes = h.crashes;
}
