-- ===== src/Sharded.antt =====
-- redisstream/sharded.go: a queue over several partitions. A partition is a store, of which this module
-- takes the methods; the hash of a key is a parameter.
pub mod Connections
pub mod Routing
pub mod Sweep
pub mod Layout
pub mod Upkeep
pub mod Poll
pub mod Close
use dist_tasks_go.Base.{
  ℕ, zero, suc, ◌+◌, ◌-◌, ◌%◌, ◌/◌, ◌^◌, String, Bool, true, false, not, ◌||◌, Option, none, some,
  List, [], ◌∷◌, ◌++◌, map, ℤ, pos, negsuc, leb_ℤ, ltb_ℤ, ltb, leb, ◌==◌, str_eq, if◌then◌else◌,
  length, take, drop, min, get_elem?,
}
use dist_tasks_go.Queue.Job.{
  Job, Lease, Error, other, wrapped, lease_lost, is_lease_lost, Result, ok, err,
}

-- h.Sum32 of FNV-1a, which hash/fnv implements.
pub record Hash : Type 0 where
  pub sum32 : String → ℕ

-- The partition of a job, and the round-robin cursor after it (a uint64).
unfoldable pub route : Hash → ℕ → ℕ → Job → ℕ × ℕ
route H parts next job =
    if str_eq job.idempotency_key ""
    then ((next + 1) % 2 ^ 64 % parts, (next + 1) % 2 ^ 64)
    else (H.sum32 job.idempotency_key % 2 ^ 32 % parts, next)

-- partOf: the partition that the lease names, if there is one.
unfoldable pub part_of : ℕ → Job → Option ℕ
part_of parts job = elim job.lease.partition [
  | pos p ↦ if ltb p parts then some p else none
  | negsuc n ↦ none
]

abbrev pub tag_job : ℕ → Job → Job
tag_job p job = record job { lease = record job.lease { partition = pos p } }

unfoldable pub tag : ℕ → List Job → List Job
tag p [] = []
tag p (j ∷ js) = tag_job p j ∷ tag p js

-- takeBuffered: the first jobs of the buffer, and the rest.
unfoldable pub take_buffered : ℕ → List Job → List Job × List Job
take_buffered limit buffered = (take limit buffered, drop limit buffered)

module _ {S : Type 0} (parts : ℕ) (lease_from : ℕ → ℕ → S → List Job × Option Error × S) where
  -- The loop over the partitions from `start + i`, for n more of them, while there is room. A call that
  -- fails ends it, with what was leased. `lease_from` is claimReady or RecoverExpired of a partition.
  after_part :
      ℕ
      → List Job
      → List Job × Option Error × S
      → (List Job → S → List Job × Option Error × S)
      → List Job × Option Error × S
  unfolding tag
  after_part p jobs (got, some e, s) rest = (jobs ++ tag p got, some (wrapped "partition" e), s)
  after_part p jobs (got, none, s) rest = rest (jobs ++ tag p got) s

  unfoldable pub sweep : ℕ → ℕ → ℕ → List Job → S → List Job × Option Error × S
  unfolding after_part
  sweep zero i limit jobs s = (jobs, none, s)
  sweep (suc n) i limit jobs s =
      let p = i % parts in
      let more =
        after_part p jobs (lease_from p (limit - length jobs) s)
          (λ jobs' s'. sweep n (suc i) limit jobs' s') in
      if ltb (length jobs) limit then more else (jobs, none, s)

-- The answers of several partitions, put back in the order of the jobs: each job takes the next answer
-- of its partition, and the fallback where there is none.
abbrev pub head_or {ℓ} : {A : Type ℓ} → A → List A → A
head_or a [] = a
head_or a (x ∷ xs) = x

abbrev pub rest_of {ℓ} : {A : Type ℓ} → List A → List A
rest_of [] = []
rest_of (x ∷ xs) = xs

abbrev pub pop_at {ℓ} : {A : Type ℓ} → ℕ → (ℕ → List A) → ℕ → List A
pop_at p q r = if p == r then rest_of (q r) else q r

unfoldable pub merge {ℓ} : {A : Type ℓ} → A → List (Option ℕ) → (ℕ → List A) → List A
merge a [] q = []
merge a (none ∷ ps) q = a ∷ merge a ps q
merge a (some p ∷ ps) q = head_or a (q p) ∷ merge a ps (pop_at p q)

-- The jobs of partition r, in order.
unfoldable pub group {ℓ} : {A : Type ℓ} → ℕ → List (Option ℕ) → List A → List A
group r [] xs = []
group r (p ∷ ps) [] = []
group r (none ∷ ps) (x ∷ xs) = group r ps xs
group r (some p ∷ ps) (x ∷ xs) = if p == r then x ∷ group r ps xs else group r ps xs

abbrev pub partitions : ℕ → List Job → List (Option ℕ)
partitions parts [] = []
partitions parts (j ∷ js) = part_of parts j ∷ partitions parts js

-- A partition is called with its group of jobs, and only where there is one.
abbrev pub on_group {ℓ} :
    {A : Type ℓ} {P : Type 0} → A → (List Job → P → A × P) → List Job → P → A × P
on_group a call [] s = (a, s)
on_group a call (j ∷ js) s = call (j ∷ js) s

-- The partitions hold no data in common: each has a state of its own, and the calls of perPartition,
-- which run in parallel, do not meet.
module _ {P : Type 0} (parts : ℕ) (call : ℕ → List Job → P → List (Option Error) × P) where
  unfoldable pub per_partition : List Job → (ℕ → P) → List (Option Error) × (ℕ → P)
  unfolding merge group
  per_partition jobs s =
      let ps = partitions parts jobs in
      let answers = λ (p : ℕ). on_group [] (call p) (group p ps jobs) (s p) in
      (merge (some (other "unknown partition")) ps (λ p. (answers p).0), λ p. (answers p).1)

-- The routes of a batch, in order, with the cursor.
unfoldable pub routes : Hash → ℕ → ℕ → List Job → List (Option ℕ) × ℕ
unfolding route
routes H parts next [] = ([], next)
routes H parts next (j ∷ js) =
    let r = route H parts next j in let rest = routes H parts r.1 js in (some r.0 ∷ rest.0, rest.1)

-- The IDs that a partition stored; a partition that failed stored none.
abbrev ids_of : Result (List String) → List String
ids_of (ok ids) = ids
ids_of (err e) = []

-- The error of the first partition that failed, in the order in which they end.
abbrev first_error : (ℕ → Result (List String)) → List ℕ → Option Error
first_error answer [] = none
first_error answer (p ∷ ps) = elim (answer p) [
  | ok ids ↦ first_error answer ps
  | err e ↦ some (wrapped "partition" e)
]

-- EnqueueBatch, for jobs that have their IDs, with the partitions in the order in which they end: the
-- IDs by job, empty where the partition failed, and the first error.
unfoldable pub enqueue_batch :
    {P : Type 0}
    → Hash
    → ℕ
    → (ℕ → List Job → P → Result (List String) × P)
    → List ℕ
    → ℕ
    → List Job
    → (ℕ → P)
    → List String × Option Error × ℕ × (ℕ → P)
unfolding routes merge group
enqueue_batch H parts call ends next jobs s =
    let r = routes H parts next jobs in
    let answers = λ (p : ℕ). on_group (ok []) (call p) (group p r.0 jobs) (s p) in
    (
      merge "" r.0 (λ p. ids_of (answers p).0),
      first_error (λ p. (answers p).0) ends,
      r.1,
      λ p. (answers p).1,
    )

-- A call that settles or renews one job goes to the partition of its lease.
unfoldable pub settle_in :
    {P : Type 0} → ℕ → (ℕ → Job → P → Option Error × P) → Job → (ℕ → P) → Option Error × (ℕ → P)
settle_in parts one job s = elim (part_of parts job) [
  | none ↦ (some (other "unknown partition"), s)
  | some p ↦ let r = one p job (s p) in (r.0, λ q. if p == q then r.1 else s q)
]

-- ExtendBatch renews the buffered jobs too, and drops those whose lease is lost.
abbrev pub keep_held : List Job → List (Option Error) → List Job
keep_held [] es = []
keep_held (j ∷ js) [] = j ∷ keep_held js []
keep_held (j ∷ js) (none ∷ es) = j ∷ keep_held js es
keep_held (j ∷ js) (some e ∷ es) = if is_lease_lost e then keep_held js es else j ∷ keep_held js es

unfoldable pub extend_batch :
    {P : Type 0}
    → ℕ
    → (ℕ → List Job → P → List (Option Error) × P)
    → List Job
    → List Job
    → (ℕ → P)
    → List (Option Error) × List Job × (ℕ → P)
unfolding per_partition
extend_batch parts call jobs buffered s =
    let r = per_partition parts call (jobs ++ buffered) s in
    (take (length jobs) r.0, keep_held buffered (drop (length jobs) r.0), r.1)

-- What a Claim and the long polls share.
pub record Shared (S : Type 0) : Type 0 where
  pub claim_next : ℕ
  pub buffered : List Job
  pub store : S

module _ {S : Type 0} (parts : ℕ) (lease_from : ℕ → ℕ → S → List Job × Option Error × S) where
  -- Claim up to the wait: what the polls buffered, and then a sweep. The cursor, an int in the sweep,
  -- is taken to be below 2^63.
  unfoldable pub claim_ready : ℕ → Shared S → List Job × Option Error × Shared S
  unfolding sweep take_buffered
  claim_ready limit c =
      let taken = take_buffered limit c.buffered in
      let next = (c.claim_next + 1) % 2 ^ 64 in
      let r = sweep parts lease_from parts next limit taken.0 c.store in
      (r.0, r.1, record { claim_next = next; buffered = taken.1; store = r.2 })

  -- RecoverExpired: a sweep from where the last one of Claim began.
  unfoldable pub recover_expired : ℕ → Shared S → List Job × Option Error × Shared S
  unfolding sweep
  recover_expired limit c =
      let r = sweep parts lease_from parts c.claim_next limit [] c.store in
      (r.0, r.1, record c { store = r.2 })
