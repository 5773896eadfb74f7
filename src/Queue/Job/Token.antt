-- ===== src/Queue/Job/Token.antt =====
-- queue/job.go: FencingToken as a number.
use Prim.Native.Nat.{bit_or}
use dist_tasks_go.Base.{
  ◌⊎◌, ◌<ℤ◌, ◌↔◌, ℕ, ◌+◌, ◌*◌, ◌%◌, ◌^◌, ◌<◌, ◌≡◌, arith, pos, word64, signed64,
}
use dist_tasks_go.Base.Bits.{bit_or_disjoint}
use dist_tasks_go.Queue.Job.{Job, fencing_token}

-- A run whose counters fit: fewer than 2^31 attempts, and a delivery count below 2^32.
pub record Fits (j : Job) (a t : ℕ) : Type 0 where
  pub attempt_eq : j.attempt ≡ pos a
  pub token_eq : j.lease.token ≡ pos t
  pub attempt_small : a < 2 ^ 31
  pub token_small : t < 2 ^ 32

fields_signed :
    (a t : ℕ) → a < 2 ^ 31 → t < 2 ^ 32 → signed64 (a * 2 ^ 32 + t) ≡ pos (a * 2 ^ 32 + t)
unfolding signed64
fields_signed a t p q = ground arith

words :
    (a t : ℕ)
    → a < 2 ^ 31
    → t < 2 ^ 32
    → bit_or (word64 (pos a) * 2 ^ 32 % 2 ^ 64) (word64 (pos t)) ≡ a * 2 ^ 32 + t
unfolding word64
words a t p q = ground (arith, bit_or_disjoint 32 a t)

-- With an attempt below 2^31 and a delivery count below 2^32, the fencing token is the attempt
-- times 2^32 plus the count.
pub fencing_token_value : (j : Job) (a t : ℕ) → Fits j a t → fencing_token j ≡ pos (a * 2 ^ 32 + t)
unfolding fencing_token
fencing_token_value j a t f =
    rw (f.attempt_eq, f.token_eq, words a t f.attempt_small f.token_small)
      (fields_signed a t f.attempt_small f.token_small)

-- A later attempt, or a later delivery of the same attempt.
abbrev pub Later : ℕ → ℕ → ℕ → ℕ → Type 0
Later a t b u = (a < b) ⊎ ((a ≡ b) × (t < u))

token_lt :
    (a t b u : ℕ) → t < 2 ^ 32 → u < 2 ^ 32 → (a * 2 ^ 32 + t < b * 2 ^ 32 + u) ↔ Later a t b u
token_lt a t b u h k = ground arith

-- For two runs with attempts below 2^31 and delivery counts below 2^32: the fencing token of the
-- first is below that of the second exactly when the second is of a later attempt, or of the same
-- attempt and a later delivery.
pub fencing_token-lt :
    (i j : Job) (a t b u : ℕ)
    → Fits i a t
    → Fits j b u
    → (fencing_token i <ℤ fencing_token j) ↔ Later a t b u
fencing_token-lt i j a t b u f g =
    rw (fencing_token_value i a t f, fencing_token_value j b u g)
      (ground (arith, token_lt a t b u f.token_small g.token_small))
