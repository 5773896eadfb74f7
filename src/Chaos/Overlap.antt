-- ===== src/Chaos/Overlap.antt =====
-- cmd/chaos/main.go: the report's test for jobs whose runs overlap.
use dist_tasks_go.Base.{
  ℕ, ◌≤◌, ◌<◌, ◌≡◌, refl, ◌∙◌, Bool, false, ◌&&◌, ◌||◌, List, [], ◌∷◌, arith, ltb, All, Bool-cases,
  inl, inr,
}
use dist_tasks_go.Chaos.{Execution, insert, sort, overlaps}

-- Each of two runs starts before the other one ends; any two of a list do.
unfoldable pub overlap : Execution → Execution → Bool
overlap a b = ltb a.start b.end && ltb b.start a.end

unfoldable pub overlaps_any : Execution → List Execution → Bool
unfolding overlap
overlaps_any a [] = false
overlaps_any a (x ∷ xs) = overlap a x || overlaps_any a xs

unfoldable pub any_overlap : List Execution → Bool
unfolding overlaps_any
any_overlap [] = false
any_overlap (e ∷ es) = overlaps_any e es || any_overlap es

-- A run takes time.
abbrev pub TakesTime : Execution → Type 0
TakesTime e = e.start < e.end

abbrev NotBefore : ℕ → List Execution → Type 0
NotBefore t es = All (λ x. t ≤ x.start) es

abbrev Sorted : List Execution → Type 0
Sorted [] = Unit
Sorted (e ∷ es) = NotBefore e.start es × Sorted es

overlap-sym : (a b : Execution) → overlap a b ≡ overlap b a
unfolding overlap
overlap-sym a b = ground arith

or-rotate : (p q r s : Bool) → ((p || q) || (r || s)) ≡ ((p || r) || (q || s))
or-rotate p q r s = ground arith

overlaps_any-insert :
    (a e : Execution) (xs : List Execution)
    → overlaps_any a (insert e xs) ≡ (overlap a e || overlaps_any a xs)
unfolding insert overlaps_any
overlaps_any-insert a e [] = refl
overlaps_any-insert a e (x ∷ xs) = ground (arith, overlaps_any-insert a e xs)

any_overlap-insert :
    (e : Execution) (xs : List Execution) → any_overlap (insert e xs) ≡ any_overlap (e ∷ xs)
unfolding insert any_overlap
any_overlap-insert e [] = refl
any_overlap-insert e (x ∷ xs) =
    ground (arith, any_overlap-insert e xs, overlaps_any-insert x e xs, overlap-sym x e)

overlaps_any-sort :
    (a : Execution) (es : List Execution) → overlaps_any a (sort es) ≡ overlaps_any a es
unfolding sort overlaps_any
overlaps_any-sort a [] = refl
overlaps_any-sort a (e ∷ es) =
    ground (arith, overlaps_any-insert a e (sort es), overlaps_any-sort a es)

any_overlap-sort : (es : List Execution) → any_overlap (sort es) ≡ any_overlap es
unfolding sort any_overlap
any_overlap-sort [] = refl
any_overlap-sort (e ∷ es) =
    ground (arith, any_overlap-insert e (sort es), overlaps_any-sort e es, any_overlap-sort es)

All-insert :
    (P : Execution → Type 0) (e : Execution) (xs : List Execution)
    → P e
    → All P xs
    → All P (insert e xs)
unfolding insert
All-insert P e [] p ps = (p, tt)
All-insert P e (x ∷ xs) p (q, qs) = elim (Bool-cases (ltb x.start e.start)) [
  | inl before ↦ rw before (q, All-insert P e xs p qs)
  | inr after ↦ rw after (p, (q, qs))
]

All-sort : (P : Execution → Type 0) (es : List Execution) → All P es → All P (sort es)
unfolding sort
All-sort P [] h = tt
All-sort P (e ∷ es) (p, ps) = All-insert P e (sort es) p (All-sort P es ps)

not_before : (s t : ℕ) (xs : List Execution) → s ≤ t → NotBefore t xs → NotBefore s xs
not_before s t [] le h = tt
not_before s t (x ∷ xs) le (p, ps) = (omega arith, not_before s t xs le ps)

insert-Sorted : (e : Execution) (xs : List Execution) → Sorted xs → Sorted (insert e xs)
unfolding insert
insert-Sorted e [] h = (tt, tt)
insert-Sorted e (x ∷ xs) (p, ps) = elim (Bool-cases (ltb x.start e.start)) [
  | inl before ↦
      rw before (All-insert (λ y. x.start ≤ y.start) e xs (ground arith) p, insert-Sorted e xs ps)
  | inr after ↦ rw after ((ground arith, not_before e.start x.start xs (ground arith) p), (p, ps))
]

sort-Sorted : (es : List Execution) → Sorted (sort es)
unfolding sort
sort-Sorted [] = tt
sort-Sorted (e ∷ es) = insert-Sorted e (sort es) (sort-Sorted es)

-- What overlaps a run and comes after another one, overlaps also with that one in between.
overlaps_any-first :
    (a : Execution) (t : ℕ) (xs : List Execution)
    → NotBefore t xs
    → ltb t a.end ≡ false
    → overlaps_any a xs ≡ false
unfolding overlaps_any overlap
overlaps_any-first a t [] h late = refl
overlaps_any-first a t (x ∷ xs) (p, ps) late = ground (arith, overlaps_any-first a t xs ps late)

overlaps-Sorted :
    (es : List Execution) → Sorted es → All TakesTime es → overlaps es ≡ any_overlap es
unfolding overlaps any_overlap overlaps_any overlap
overlaps-Sorted [] s h = refl
overlaps-Sorted (a ∷ []) s h = refl
overlaps-Sorted (a ∷ b ∷ es) ((ab, bs), (sb, se)) (ta, (tb, ts)) =
    let rest = overlaps-Sorted (b ∷ es) (sb, se) (tb, ts) in
    elim (Bool-cases (ltb b.start a.end)) [
      | inl over ↦ ground arith
      | inr apart ↦ ground (arith, rest, overlaps_any-first a b.start es sb apart)
    ]

-- Where every run takes time: sorting the runs of a job by their start and comparing each with
-- the one before it finds an overlap exactly if some two of its runs overlap.
pub overlaps-sort : (es : List Execution) → All TakesTime es → overlaps (sort es) ≡ any_overlap es
overlaps-sort es h =
    overlaps-Sorted (sort es) (sort-Sorted es) (All-sort TakesTime es h) ∙ any_overlap-sort es
