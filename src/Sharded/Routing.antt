-- ===== src/Sharded/Routing.antt =====
-- redisstream/sharded.go: the way of jobs to a partition, and of the answers back.
use dist_tasks_go.Base.{
  ℕ, suc, ◌-◌, ◌<◌, ◌≡◌, ◌≢◌, refl, sym, ◌∙◌, ap, Option, none, some, List, [], ◌∷◌, arith, ◌==◌,
  ==_iff, eq_iff, if◌then◌else◌, length,
}
use dist_tasks_go.Queue.Job.{Job, Error, other}
use dist_tasks_go.Sharded.{
  Hash, route, part_of, tag_job, merge, group, head_or, rest_of, pop_at, partitions, on_group,
  per_partition,
}

-- A job goes to a partition that is there, and two jobs of one key to the same one.
pub route-lt :
    (H : Hash) (parts next : ℕ) (job : Job) → 0 < parts → (route H parts next job).0 < parts
unfolding route
route-lt H parts next job h = grind arith

-- Two jobs with the same idempotency key, not the empty one, go to the same partition, whatever
-- the cursor.
route-same_key :
    (H : Hash) (parts next next' : ℕ) (job job' : Job)
    → job.idempotency_key ≢ ""
    → job.idempotency_key ≡ job'.idempotency_key
    → (route H parts next job).0 ≡ (route H parts next' job').0
unfolding route
route-same_key H parts next next' job job' keyed same =
    rw (← same) (ground (arith, eq_iff job.idempotency_key ""))

-- A job that was claimed from a partition is routed back to it.
pub part_of-tag : (parts p : ℕ) (job : Job) → p < parts → part_of parts (tag_job p job) ≡ some p
unfolding part_of
part_of-tag parts p job h = ground arith

-- How many jobs go to partition r.
abbrev times : ℕ → List (Option ℕ) → ℕ
times r [] = 0
times r (none ∷ ps) = times r ps
times r (some p ∷ ps) = if p == r then suc (times r ps) else times r ps

length-group {ℓ} :
    {A : Type ℓ} (r : ℕ) (ps : List (Option ℕ)) (xs : List A)
    → length xs ≡ length ps
    → length (group r ps xs) ≡ times r ps
unfolding group
length-group r [] xs h = refl
length-group r (p ∷ ps) [] h = absurd (omega arith)
length-group r (none ∷ ps) (x ∷ xs) h = length-group r ps xs (omega arith)
length-group r (some p ∷ ps) (x ∷ xs) h = ground (arith, length-group r ps xs (omega arith))

length-partitions : (parts : ℕ) (js : List Job) → length (partitions parts js) ≡ length js
length-partitions parts [] = refl
length-partitions parts (j ∷ js) = ap suc (length-partitions parts js)

length-merge {ℓ} :
    {A : Type ℓ} (a : A) (ps : List (Option ℕ)) (q : ℕ → List A) → length (merge a ps q) ≡ length ps
unfolding merge
length-merge a [] q = refl
length-merge a (none ∷ ps) q = ap suc (length-merge a ps q)
length-merge a (some p ∷ ps) q = ap suc (length-merge a ps (pop_at p q))

length-rest_of {ℓ} : {A : Type ℓ} (xs : List A) → length (rest_of xs) ≡ length xs - 1
length-rest_of [] = refl
length-rest_of (x ∷ xs) = omega arith

nil_of {ℓ} : {A : Type ℓ} (xs : List A) → length xs ≡ 0 → [] ≡ xs
nil_of [] h = refl
nil_of (x ∷ xs) h = absurd (omega arith)

head_rest {ℓ} : {A : Type ℓ} (a : A) (xs : List A) → 0 < length xs → head_or a xs ∷ rest_of xs ≡ xs
head_rest a [] h = absurd (omega arith)
head_rest a (x ∷ xs) h = refl

length-pop_at {ℓ} :
    {A : Type ℓ} (p : ℕ) (ps : List (Option ℕ)) (q : ℕ → List A)
    → ((r : ℕ) → length (q r) ≡ times r (some p ∷ ps))
    → (r : ℕ) → length (pop_at p q r) ≡ times r ps
length-pop_at p ps q h r = ground (arith, h r, length-rest_of (q r))

group-merge {ℓ} :
    {A : Type ℓ} (a : A) (ps : List (Option ℕ)) (q : ℕ → List A)
    → ((r : ℕ) → length (q r) ≡ times r ps)
    → (r : ℕ) → group r ps (merge a ps q) ≡ q r
unfolding merge group
group-merge a [] q h r = nil_of (q r) (h r)
group-merge a (none ∷ ps) q h r = group-merge a ps q h r
group-merge a (some p ∷ ps) q h r = ground (
  arith,
  ==_iff p r,
  h r,
  head_rest a (q r),
  group-merge a ps (pop_at p q) (length-pop_at p ps q h) r,
)

module _ {P : Type 0} (parts : ℕ) (call : ℕ → List Job → P → List (Option Error) × P)
    (complete : (p : ℕ) (js : List Job) (s : P) → length (call p js s).0 ≡ length js) where
  length-on_group :
      (p : ℕ) (js : List Job) (s : P) → length (on_group [] (call p) js s).0 ≡ length js
  length-on_group p [] s = refl
  length-on_group p (j ∷ js) s = complete p (j ∷ js) s

  -- Where each partition answers with one error for each of its jobs: per_partition has one error
  -- for each job, and those of the jobs of a partition are, in order, what the one call of that
  -- partition answered.
  pub per_partition-group :
      (jobs : List Job) (s : ℕ → P)
      → let r = per_partition parts call jobs s in
        let ps = partitions parts jobs in
        (length r.0 ≡ length jobs)
        × ((p : ℕ) → group p ps r.0 ≡ (on_group [] (call p) (group p ps jobs) (s p)).0)
  unfolding per_partition
  per_partition-group jobs s =
      let ps = partitions parts jobs in
      (
        length-merge _ ps (λ p. (on_group [] (call p) (group p ps jobs) (s p)).0)
            ∙ length-partitions parts jobs,
        group-merge (some (other "unknown partition")) ps
            (λ p. (on_group [] (call p) (group p ps jobs) (s p)).0)
            (λ p.
              length-on_group p (group p ps jobs) (s p)
              ∙ length-group p ps jobs (sym (length-partitions parts jobs))),
      )
