-- ===== src/Chaos/Faults/Procs.antt =====
-- cmd/chaos/main.go: the list of processes, searched by number.
use dist_tasks_go.Base.{
  ℕ, zero, suc, ◌≡◌, refl, true, false, not, ◌&&◌, none, some, List, [], ◌∷◌, ◌++◌, ◌==◌, ==_iff,
  if◌then◌else◌, length, get_elem?, map, arith, Bool-cases, inl, inr,
}
use mathlib.Core.Option.{map as option_map}
use dist_tasks_go.Chaos.Faults.{Proc, live, find, remove, update}

-- No two processes have the same number.
abbrev pub Unique : List Proc → Type 0
Unique [] = Unit
Unique (p ∷ ps) = (find p.number ps ≡ none) × Unique ps

module _ (f : Proc → Proc) (same : (p : Proc) → (f p).number ≡ p.number) where
  pub find-update :
      (n m : ℕ) (ps : List Proc)
      → find n (update f m ps) ≡ (if m == n then option_map f (find n ps) else find n ps)
  unfolding update
  find-update n m [] = ground arith
  find-update n m (p ∷ ps) = ground (arith, find-update n m ps, same p)

  pub update-Unique : (m : ℕ) (ps : List Proc) → Unique ps → Unique (update f m ps)
  unfolding update
  update-Unique m [] h = tt
  update-Unique m (p ∷ ps) (h, hs) =
      (ground (arith, find-update p.number m ps, same p), update-Unique m ps hs)

pub length-update : (f : Proc → Proc) (m : ℕ) (ps : List Proc) → length (update f m ps) ≡ length ps
unfolding update
length-update f m [] = refl
length-update f m (p ∷ ps) = omega (arith, length-update f m ps)

pub find-remove :
    (n m : ℕ) (ps : List Proc)
    → Unique ps
    → find n (remove m ps) ≡ (if m == n then none else find n ps)
unfolding remove
find-remove n m [] h = ground arith
find-remove n m (p ∷ ps) (h, hs) = ground (arith, find-remove n m ps hs, h)

pub remove-Unique : (m : ℕ) (ps : List Proc) → Unique ps → Unique (remove m ps)
unfolding remove
remove-Unique m [] h = tt
remove-Unique m (p ∷ ps) (h, hs) = elim (Bool-cases (p.number == m)) [
  | inl here ↦ rw here hs
  | inr there ↦ rw there (ground (arith, find-remove p.number m ps hs, h), remove-Unique m ps hs)
]

pub length-remove :
    (m : ℕ) (p : Proc) (ps : List Proc)
    → find m ps ≡ some p
    → suc (length (remove m ps)) ≡ length ps
unfolding remove
length-remove m p [] h = cc
length-remove m p (q ∷ ps) h = ground (arith, length-remove m p ps)

pub find-append :
    (n : ℕ) (ps : List Proc) (q : Proc)
    → find n (ps ++ q ∷ [])
      ≡ elim (find n ps) [ none ↦ if q.number == n then some q else none | some p ↦ some p ]
find-append n [] q = refl
find-append n (p ∷ ps) q = ground (arith, find-append n ps q)

pub append-Unique :
    (ps : List Proc) (q : Proc) → Unique ps → find q.number ps ≡ none → Unique (ps ++ q ∷ [])
append-Unique [] q h new = (refl, tt)
append-Unique (p ∷ ps) q (h, hs) new = (
  ground (
    arith,
    find-append p.number ps q,
    h,
    ==_iff p.number q.number,
    ==_iff q.number p.number,
    new,
  ),
  append-Unique ps q hs (ground (arith, new)),
)

pub find-number : (n : ℕ) (p : Proc) (ps : List Proc) → find n ps ≡ some p → p.number ≡ n
find-number n p [] h = cc
find-number n p (q ∷ ps) h = ground (arith, find-number n p ps, ==_iff q.number n)

find-later :
    (p : Proc) (ps : List Proc) (q : Proc)
    → find q.number ps ≡ none
    → find p.number ps ≡ some p
    → find p.number (q ∷ ps) ≡ some p
find-later p ps q new there = elim (Bool-cases (q.number == p.number)) [
  | inr apart ↦ rw apart there
  | inl same ↦ absurd (clash (rw ((==_iff q.number p.number).0 same) at new))
]
  where
    clash : find p.number ps ≡ none → ⊥
    clash e = cc

-- A candidate is found under its number, and is not killed.
pub find-live :
    (i : ℕ) (p : Proc) (ps : List Proc)
    → Unique ps
    → get_elem? (live ps) i ≡ some p
    → (find p.number ps ≡ some p) × (p.killed ≡ false)
unfolding live
find-live i p [] h e = cc
find-live zero p (q ∷ ps) (h, hs) e = elim (Bool-cases (not q.paused && not q.killed)) [
  | inr out ↦
      let (there, alive) = find-live zero p ps hs (rw out at e) in
      (find-later p ps q h there, alive)
  | inl here ↦ first here (rw here at e)
]
  where
    first :
        (not q.paused && not q.killed) ≡ true
        → get_elem? (q ∷ live ps) zero ≡ some p
        → (find p.number (q ∷ ps) ≡ some p) × (p.killed ≡ false)
    first ok is = ground (arith, ==_iff q.number p.number, is)
find-live (suc i) p (q ∷ ps) (h, hs) e = elim (Bool-cases (not q.paused && not q.killed)) [
  | inr out ↦
      let (there, alive) = find-live (suc i) p ps hs (rw out at e) in
      (find-later p ps q h there, alive)
  | inl here ↦
      let (there, alive) = find-live i p ps hs (rw here at e) in (find-later p ps q h there, alive)
]

pub find-map :
    (f : Proc → Proc) (n : ℕ) (ps : List Proc)
    → ((p : Proc) → (f p).number ≡ p.number)
    → find n (map f ps) ≡ option_map f (find n ps)
find-map f n [] same = refl
find-map f n (p ∷ ps) same = ground (arith, find-map f n ps same, same p)

pub map-Unique :
    (f : Proc → Proc) (ps : List Proc)
    → ((p : Proc) → (f p).number ≡ p.number)
    → Unique ps
    → Unique (map f ps)
map-Unique f [] same h = tt
map-Unique f (p ∷ ps) same (h, hs) =
    (ground (arith, find-map f p.number ps same, same p, h), map-Unique f ps same hs)
