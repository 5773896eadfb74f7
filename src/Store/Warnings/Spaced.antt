-- ===== src/Store/Warnings/Spaced.antt =====
-- redisstream/store.go: the warnings of a process are at least a minute apart.
use dist_tasks_go.Base.{
  ◌≡◌, refl, ap, true, ◌&&◌, Option, none, some, List, [], ◌∷◌, ℤ, pos, negsuc, ◌-ℤ◌, ◌≤ℤ◌, leb_ℤ,
  eq_ℤ, arith, Bool-cases, inl, inr,
}
use dist_tasks_go.Store.Warnings.{
  minute, WarnCall, Warnings, WarnEvent, load, swap, no_warnings, nth, swapped, step, run,
}

-- Each time is at least a minute after the one before it in time, which comes next in the list; the first
-- is what lastStuckWarn holds.
abbrev pub Apart : List ℤ → Type 0
Apart [] = Unit {0}
Apart (t ∷ []) = Unit {0}
Apart (t ∷ u ∷ ts) = (pos minute ≤ℤ t -ℤ u) × Apart (u ∷ ts)

abbrev Latest : ℤ → List ℤ → Type 0
Latest last [] = Unit {0}
Latest last (t ∷ ts) = last ≡ t

eq_ℤ-eq : (a b : ℤ) → eq_ℤ a b ≡ true → a ≡ b
eq_ℤ-eq (pos a) (pos b) h = ap pos (ground arith)
eq_ℤ-eq (negsuc a) (negsuc b) h = ap negsuc (ground arith)
eq_ℤ-eq (pos a) (negsuc b) h = absurd (ground arith)
eq_ℤ-eq (negsuc a) (pos b) h = absurd (ground arith)

logged_after :
    (now last : ℤ) (ts : List ℤ)
    → pos minute ≤ℤ now -ℤ last
    → Latest last ts
    → Apart ts
    → Apart (now ∷ ts)
logged_after now last [] far latest h = tt
logged_after now last (t ∷ ts) far latest h = (rw latest at far, h)

abbrev Good : Warnings → Type 0
Good s = Apart s.logged × Latest s.last_stuck_warn s.logged

swapped-Good : (c : Option WarnCall) (s : Warnings) → Good s → Good (swapped c s)
unfolding swapped
swapped-Good none s h = h
swapped-Good (some c) s h =
    elim (Bool-cases (leb_ℤ (pos minute) (c.now -ℤ c.last) && eq_ℤ s.last_stuck_warn c.last)) [
      | inl warn ↦
          let far : leb_ℤ (pos minute) (c.now -ℤ c.last) ≡ true = ground arith in
          let same : s.last_stuck_warn ≡ c.last = eq_ℤ-eq s.last_stuck_warn c.last (ground arith) in
          rw warn (logged_after c.now c.last s.logged (ground arith) (rw same at h.1) h.0, refl)
      | inr quiet ↦ rw quiet h
    ]

run-Good : (es : List WarnEvent) (s : Warnings) → Good s → Good (run es s)
unfolding run step
run-Good [] s h = h
run-Good (load now ∷ es) s h = run-Good es (step (load now) s) h
run-Good (swap k ∷ es) s h = run-Good es (step (swap k) s) (swapped-Good (nth k s.calls) _ h)

-- Whatever calls of warnStuckBlock overlap, and however their loads and swaps come in between:
-- any two warnings that follow each other are at least a minute apart, by the clocks that the
-- calls read.
pub warnings-Apart : (es : List WarnEvent) → Apart (run es no_warnings).logged
warnings-Apart es = (run-Good es no_warnings (tt, tt)).0
