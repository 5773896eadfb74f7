-- ===== src/Queue/Job.antt =====
-- queue/job.go and queue/errors.go: jobs, leases, errors, and the fencing token of a run.
-- A time is a number of nanoseconds since the Unix epoch; a payload is its text.
pub mod Token
use Prim.Native.Nat.{bit_or}
use dist_tasks_go.Base.{
  ℕ, ◌*◌, ◌%◌, ◌^◌, String, Bool, true, false, ◌||◌, Option, none, some, ℤ, pos, ◌+ℤ◌, leb_ℤ,
  word64, signed64, int64, str_eq, if◌then◌else◌,
}

-- The sentinel errors; `wrapped` is fmt.Errorf with %w, `other` an error of another package.
pub data Error : Type 0 where
  not_implemented unknown_task invalid_job lease_lost shutdown canceled deadline_exceeded : Error
  wrapped : String → Error → Error
  other : String → Error

-- A Go function that returns a value and an error, of which one counts.
pub data Result {ℓ} (A : Type ℓ) : Type ℓ where
  ok : A → Result A
  err : Error → Result A

-- errors.Is (err, ErrLeaseLost)
unfoldable pub is_lease_lost : Error → Bool
is_lease_lost lease_lost = true
is_lease_lost (wrapped msg e) = is_lease_lost e
is_lease_lost _ = false

-- errors.Is (err, ErrUnknownTask)
unfoldable pub is_unknown_task : Error → Bool
is_unknown_task unknown_task = true
is_unknown_task (wrapped msg e) = is_unknown_task e
is_unknown_task _ = false

pub record Lease : Type 0 where
  pub message_id : String
  pub owner : String
  pub token : ℤ
  pub partition : ℤ

pub record Job : Type 0 where
  pub id : String
  pub task : String
  pub payload : String
  pub attempt : ℤ
  pub max_attempts : ℤ
  pub trace_parent : String
  pub created_at : ℤ
  pub available_at : ℤ
  pub idempotency_key : String
  pub lease : Lease

pub record EnqueueOptions : Type 0 where
  pub max_attempts : ℤ
  pub delay : ℤ
  pub idempotency_key : String

pub record JobResult : Type 0 where
  pub retryable : Bool
  pub err : Option Error

unfoldable pub new_retryable_error : Error → JobResult
new_retryable_error e = record { retryable = true; err = some e }

unfoldable pub new_permanent_error : Error → JobResult
new_permanent_error e = record { retryable = false; err = some e }

abbrev pub no_lease : Lease
no_lease = record { message_id = ""; owner = ""; token = pos 0; partition = pos 0 }

-- int64 (j.Attempt) << 32 | j.Lease.Token
unfoldable pub fencing_token : Job → ℤ
fencing_token j = signed64 (bit_or (word64 j.attempt * 2 ^ 32 % 2 ^ 64) (word64 j.lease.token))

-- No error is `none`.
unfoldable pub validate : Job → Option Error
validate j =
    if str_eq j.task "" || str_eq j.payload ""
    then some invalid_job
    else if leb_ℤ j.max_attempts (pos 0)
    then some invalid_job
    else none

unfoldable pub exhausted : Job → Bool
exhausted j = leb_ℤ j.max_attempts (int64 (j.attempt +ℤ pos 1))
