-- ===== src/Sharded/Sweep.antt =====
-- redisstream/sharded.go: the sweeps of Claim and RecoverExpired over the partitions.
use dist_tasks_go.Base.{
  ℕ, zero, suc, ◌+◌, ◌-◌, ◌%◌, ◌≤◌, ◌<◌, ◌≡◌, refl, Option, none, some, List, [], ◌∷◌, ◌++◌, arith,
  ltb, Bool-cases, inl, inr, length, length-append, All, All-append,
}
use dist_tasks_go.Queue.Job.{Job, Error}
use dist_tasks_go.Sharded.{part_of, tag, after_part, sweep}
use dist_tasks_go.Sharded.Routing.{part_of-tag}

pub length-tag : (p : ℕ) (js : List Job) → length (tag p js) ≡ length js
unfolding tag
length-tag p [] = refl
length-tag p (j ∷ js) = omega (arith, length-tag p js)

module _ {S : Type 0} (parts : ℕ) (lease_from : ℕ → ℕ → S → List Job × Option Error × S) where
  module _ (bounded : (p n : ℕ) (s : S) → length (lease_from p n s).0 ≤ n) where
    length-after_part :
        (p limit : ℕ) (jobs : List Job) (r : List Job × Option Error × S)
        (rest : List Job → S → List Job × Option Error × S)
        → length jobs + length r.0 ≤ limit
        → ((js : List Job) (s : S) → length js ≤ limit → length (rest js s).0 ≤ limit)
        → length (after_part parts lease_from p jobs r rest).0 ≤ limit
    unfolding after_part
    length-after_part p limit jobs (got, some e, s) rest h k =
        omega (arith, length-append {0} jobs (tag p got), length-tag p got)
    length-after_part p limit jobs (got, none, s) rest h k =
        k (jobs ++ tag p got) s
          (omega (arith, length-append {0} jobs (tag p got), length-tag p got))

    -- Where each partition leases at most what it is asked for: a sweep that begins with at most
    -- `limit` jobs ends with at most `limit`, also when it fails on the way.
    length-sweep :
        (n i limit : ℕ) (jobs : List Job) (s : S)
        → length jobs ≤ limit
        → length (sweep parts lease_from n i limit jobs s).0 ≤ limit
    unfolding sweep
    length-sweep zero i limit jobs s h = h
    length-sweep (suc n) i limit jobs s h = elim (Bool-cases (ltb (length jobs) limit)) [
      | inl room ↦ rw room (
          length-after_part (i % parts) limit jobs (lease_from (i % parts) (limit - length jobs) s)
            (λ js t. sweep parts lease_from n (suc i) limit js t)
            (omega (arith, bounded (i % parts) (limit - length jobs) s))
            (λ js t le. length-sweep n (suc i) limit js t le))
      | inr full ↦ rw full h
    ]

  -- A job whose lease names a partition that is there.
  abbrev pub IsRouted : Job → Type 0
  IsRouted j = (p : ℕ) × (part_of parts j ≡ some p) × (p < parts)

  tag-IsRouted : (p : ℕ) (js : List Job) → p < parts → All IsRouted (tag p js)
  unfolding tag
  tag-IsRouted p [] h = tt
  tag-IsRouted p (j ∷ js) h = ((p, part_of-tag parts p j h, h), tag-IsRouted p js h)

  after_part-IsRouted :
      (p : ℕ) (jobs : List Job) (r : List Job × Option Error × S)
      (rest : List Job → S → List Job × Option Error × S)
      → p < parts
      → All IsRouted jobs
      → ((js : List Job) (s : S) → All IsRouted js → All IsRouted (rest js s).0)
      → All IsRouted (after_part parts lease_from p jobs r rest).0
  unfolding after_part
  after_part-IsRouted p jobs (got, some e, s) rest h a k =
      All-append IsRouted jobs (tag p got) a (tag-IsRouted p got h)
  after_part-IsRouted p jobs (got, none, s) rest h a k =
      k (jobs ++ tag p got) s (All-append IsRouted jobs (tag p got) a (tag-IsRouted p got h))

  -- With at least one partition, a sweep that begins with jobs whose leases lead to a partition
  -- ends with such jobs only.
  pub sweep-IsRouted :
      (n i limit : ℕ) (jobs : List Job) (s : S)
      → 0 < parts
      → All IsRouted jobs
      → All IsRouted (sweep parts lease_from n i limit jobs s).0
  unfolding sweep
  sweep-IsRouted zero i limit jobs s h a = a
  sweep-IsRouted (suc n) i limit jobs s h a = elim (Bool-cases (ltb (length jobs) limit)) [
    | inl room ↦ rw room (
        after_part-IsRouted (i % parts) jobs (lease_from (i % parts) (limit - length jobs) s)
          (λ js t. sweep parts lease_from n (suc i) limit js t) (grind arith) a
          (λ js t r. sweep-IsRouted n (suc i) limit js t h r))
    | inr full ↦ rw full a
  ]
