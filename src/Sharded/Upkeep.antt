-- ===== src/Sharded/Upkeep.antt =====
-- redisstream/sharded.go: Enqueue, AckBatch, Deregister and Stats over the partitions.
use dist_tasks_go.Base.{
  ℕ, zero, suc, String, Option, none, some, List, [], ◌∷◌, pos, ◌+ℤ◌, int64, ◌==◌, if◌then◌else◌,
}
use dist_tasks_go.Queue.Job.{Job, Error, wrapped, Result, ok, err}
use dist_tasks_go.Store.Claim.{Stats}
use dist_tasks_go.Sharded.{Hash, route, per_partition}

-- One partition changes, the others stay.
abbrev update : {P : Type 0} → ℕ → P → (ℕ → P) → ℕ → P
update p a s q = if p == q then a else s q

-- A job goes to its partition; the cursor moves on if it has no key.
unfoldable pub enqueue :
    {P : Type 0}
    → Hash
    → ℕ
    → (ℕ → Job → P → Result String × P)
    → ℕ
    → Job
    → (ℕ → P)
    → Result String × ℕ × (ℕ → P)
unfolding route
enqueue H parts one next job s =
    let r = route H parts next job in let a = one r.0 job (s r.0) in (a.0, r.1, update r.0 a.1 s)

unfoldable pub ack_batch :
    {P : Type 0}
    → ℕ
    → (ℕ → List Job → P → List (Option Error) × P)
    → List Job
    → (ℕ → P)
    → List (Option Error) × (ℕ → P)
unfolding per_partition
ack_batch parts call jobs s = per_partition parts call jobs s

abbrev or_stop {ℓ} : {S : Type ℓ} → Option Error → S → Option Error × S → Option Error × S
or_stop none s rest = rest
or_stop (some e) s rest = (some (wrapped "partition" e), s)

-- The partitions from p on, n of them, up to the first that fails.
unfoldable pub deregister :
    {P : Type 0} → (ℕ → P → Option Error × P) → ℕ → ℕ → (ℕ → P) → Option Error × (ℕ → P)
deregister part zero p s = (none, s)
deregister part (suc n) p s =
    let r = part p (s p) in
    let s' = update p r.1 s in let rest = deregister part n (suc p) s' in or_stop r.0 s' rest

abbrev add_stats : Stats → Stats → Stats
add_stats a b = record {
  stream_length = int64 (a.stream_length +ℤ b.stream_length);
  in_flight = int64 (a.in_flight +ℤ b.in_flight);
  dead_letter_depth = int64 (a.dead_letter_depth +ℤ b.dead_letter_depth);
  retry_scheduled = int64 (a.retry_scheduled +ℤ b.retry_scheduled);
}

abbrev pub no_stats : Stats
no_stats = record {
  stream_length = pos 0;
  in_flight = pos 0;
  dead_letter_depth = pos 0;
  retry_scheduled = pos 0;
}

-- Stats from what the partitions answer, in their order, on top of a total.
unfoldable pub stats : Stats → List (Result Stats) → Result Stats
stats total [] = ok total
stats total (err e ∷ rs) = err (wrapped "partition" e)
stats total (ok st ∷ rs) = stats (add_stats total st) rs
