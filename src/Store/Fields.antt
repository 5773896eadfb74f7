-- ===== src/Store/Fields.antt =====
-- redisstream/store.go: how a job is stored as fields, and read back. Numbers and times as text, and
-- the JSON of a set of fields, are the work of other packages: a parameter.
pub mod RoundTrip
use dist_tasks_go.Base.{
  ℕ, String, ◌≡◌, Bool, true, false, ◌&&◌, Option, none, some, List, [], ◌∷◌, ℤ, pos, negsuc, leb_ℤ,
  ltb_ℤ, int64, str_eq, if◌then◌else◌,
}
use dist_tasks_go.Queue.Job.{Job, Lease, Error, other, Result, ok, err}
use dist_tasks_go.Redis.{Redis, Fields}

unfoldable pub lookup : String → Fields → Option String
lookup k [] = none
lookup k ((j, v) ∷ m) = if str_eq j k then some v else lookup k m

-- The instants of the years 0 to 9999, which RFC 3339 can write.
abbrev pub in_years : ℤ → Bool
in_years t =
    leb_ℤ (negsuc 62_167_219_199_999_999_999) t && ltb_ℤ t (pos 253_402_300_800_000_000_000)

-- strconv.Itoa and Atoi, Time.Format and time.Parse with RFC3339Nano, json.Marshal of the fields
-- with cjson.decode, strconv.FormatInt, and the text of an error.
pub record Codec (R : Redis) : Type 0 where
  pub itoa : ℤ → String
  pub atoi : String → Option ℤ
  pub format_time : ℤ → String
  pub parse_time : String → Option ℤ
  pub marshal : Fields → String
  pub error_text : Error → String
  pub atoi-itoa : (n : ℤ) → int64 n ≡ n → atoi (itoa n) ≡ some n
  pub parse-format : (t : ℤ) → in_years t ≡ true → parse_time (format_time t) ≡ some t
  pub decode-marshal :
      (f : Fields)
      → (f' : Fields) × (R.cjson_decode (marshal f) ≡ some f')
        × ((k : String) → lookup k f' ≡ lookup k f)

infixl 5 ◌>>=◌
abbrev ◌>>=◌ {ℓ κ} : {A : Type ℓ} {B : Type κ} → Result A → (A → Result B) → Result B
ok a >>= f = f a
err e >>= f = err e

abbrev or_fail {ℓ} : {A : Type ℓ} → Option A → Result A
or_fail none = err (other "invalid field")
or_fail (some a) = ok a

abbrev or_empty : Option String → String
or_empty none = ""
or_empty (some s) = s

module _ {R : Redis} (C : Codec R) where
  unfoldable pub job_fields : Job → Fields
  job_fields job =
      ("id", job.id)
      ∷ ("task", job.task)
      ∷ ("payload", job.payload)
      ∷ ("attempt", C.itoa job.attempt)
      ∷ ("maxAttempts", C.itoa job.max_attempts)
      ∷ ("traceparent", job.trace_parent)
      ∷ ("createdAt", C.format_time job.created_at)
      ∷ ("availableAt", C.format_time job.available_at)
      ∷ []

  unfoldable pub str : String → Fields → Result String
  str name vals = or_fail (lookup name vals)

  unfoldable pub num : String → Fields → Result ℤ
  unfolding str
  num name vals = do s ← str name vals; or_fail (C.atoi s)

  unfoldable pub ts : String → Fields → Result ℤ
  unfolding str
  ts name vals = do s ← str name vals; or_fail (C.parse_time s)

  -- An entry with no ID of its own has the ID of the message.
  abbrev stable_id : String → Option String → String
  stable_id msg_id none = msg_id
  stable_id msg_id (some id) = if str_eq id "" then msg_id else id

  unfoldable pub parse_job : String → Fields → Lease → Result Job
  unfolding str num ts
  parse_job msg_id vals lease = do
    task ← str "task" vals
    payload ← str "payload" vals
    attempt ← num "attempt" vals
    max_attempts ← num "maxAttempts" vals
    created_at ← ts "createdAt" vals
    available_at ← ts "availableAt" vals
    ok (record {
      id = stable_id msg_id (lookup "id" vals);
      task = task;
      payload = payload;
      attempt = attempt;
      max_attempts = max_attempts;
      trace_parent = or_empty (lookup "traceparent" vals);
      created_at = created_at;
      available_at = available_at;
      idempotency_key = "";
      lease = lease;
    })
