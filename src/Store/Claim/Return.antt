-- ===== src/Store/Claim/Return.antt =====
-- redisstream/store.go: a retried job, from Retry over the promotion to parseJob.
use dist_tasks_go.Base.{
  int64, ◌+ℤ◌, String, ◌≡◌, ◌∙◌, true, false, Option, none, some, List, [], ◌∷◌, ◌++◌, map, ℤ, pos,
  str_eq, eq_iff, length, All, Bool-cases, inl, inr, ◌⊎◌,
}
use dist_tasks_go.Queue.Job.{Job, Lease, ok}
use dist_tasks_go.Redis.{Redis, Entry, Fields}
use dist_tasks_go.Store.Fields.{Codec, job_fields, parse_job, lookup}
use dist_tasks_go.Store.Fields.RoundTrip.{IsStorable, parse-job_fields}
use dist_tasks_go.Store.Scripts.{owns}
use dist_tasks_go.Store.Scripts.Promotion.{contains, due_fields, IsJson, promote-Moved}
use dist_tasks_go.Store.Client.{Store, delivered, retry, retried, call, unix_milli}
use dist_tasks_go.Store.Client.Settle.{retry_held}
use dist_tasks_go.Store.Claim.{promote_retries}

-- Some element has the property.
abbrev pub Any {ℓ} : {A : Type ℓ} → (A → Type 0) → List A → Type 0
Any P [] = ⊥
Any P (x ∷ xs) = P x ⊎ Any P xs

Any-append_right {ℓ} : {A : Type ℓ} (P : A → Type 0) (xs ys : List A) → Any P ys → Any P (xs ++ ys)
Any-append_right P [] ys h = h
Any-append_right P (x ∷ xs) ys h = inr (Any-append_right P xs ys h)

Any-fields :
    (P : Fields → Type 0) (es : List Entry) → Any P (map (λ e. e.1) es) → Any (λ e. P e.1) es
Any-fields P [] h = h
Any-fields P (e ∷ es) (inl p) = inl p
Any-fields P (e ∷ es) (inr h) = inr (Any-fields P es h)

Any-imp {ℓ} :
    {A : Type ℓ} (P Q : A → Type 0) (xs : List A) → ((x : A) → P x → Q x) → Any P xs → Any Q xs
Any-imp P Q [] f h = h
Any-imp P Q (x ∷ xs) f (inl p) = inl (f x p)
Any-imp P Q (x ∷ xs) f (inr h) = inr (Any-imp P Q xs f h)

module _ {R : Redis} (C : Codec R) (b : Store) where
  open R use {Db, hash, score, stream, due}
  open b use {config, retry_data}

  -- What a due ID has in the hash is among what its promotion appends.
  Any-due :
      (P : Fields → Type 0) (get : String → Option String) (id json : String) (f : Fields)
      (ids : List String)
      → contains id ids ≡ true
      → get id ≡ some json
      → R.cjson_decode json ≡ some f
      → P f
      → Any P (due_fields R config.retry_key retry_data config.stream get ids)
  Any-due P get id json f [] h e r p = cc
  Any-due P get id json f (i ∷ is) h e r p = elim (Bool-cases (str_eq i id)) [
    | inl same ↦ rw ((eq_iff i id).0 same, e, r) (inl p)
    | inr other ↦ Any-append_right P _ _ (Any-due P get id json f is (rw other at h) e r p)
  ]

  -- The job that parseJob makes of a retried one.
  abbrev pub returned : Job → Lease → Job
  returned job lease = record job {
    attempt = int64 (job.attempt +ℤ pos 1);
    idempotency_key = "";
    lease = lease;
  }

  abbrev pub Returns : Job → Entry → Type 0
  Returns job x = (lease : Lease) → parse_job C x.0 x.1 lease ≡ ok (returned job lease)

  fields-Returns :
      (job : Job) (id : String) (f : Fields)
      → str_eq job.id "" ≡ false
      → IsStorable C (retried C b job)
      → ((k : String) → lookup k f ≡ lookup k (job_fields C (retried C b job)))
      → Returns job (id, f)
  unfolding retried
  fields-Returns job id f named fits same lease =
      parse-job_fields C (retried C b job) id lease f fits same ∙ rw named

  -- Where the server is reached and answers, for a job with an ID, whose lease is held and whose
  -- numbers and times can be stored, and where it is due after its retry and the hash entries of
  -- the due IDs are JSON: the promotion that follows takes it from the schedule and appends an
  -- entry that is read back as this job, with its attempt counted, without its idempotency key,
  -- and with the lease of the new delivery.
  pub retried_job-Returns :
      (job : Job) (next now : ℤ) (d : Db)
      → owns R config.stream config.group job.lease d ≡ true
      → str_eq job.id "" ≡ false
      → IsStorable C (retried C b job)
      → let d' = (retry C b delivered job next d).1 in
        let ids = due d' config.retry_key (unix_milli now) (pos 100) in
        contains job.id ids ≡ true
        → All (λ id. IsJson R config.retry_key retry_data config.stream (hash d' retry_data id)) ids
        → (e : Db) × (promote_retries C b delivered now (pos 100) d' ≡ (ok (length ids), e))
          × (score e config.retry_key job.id ≡ none)
          × (added : List Entry) × (stream e config.stream ≡ stream d' config.stream ++ added)
          × Any (Returns job) added
  unfolding promote_retries call
  retried_job-Returns job next now d held named fits is_due json =
      let d' = (retry C b delivered job next d).1 in
      let ids = due d' config.retry_key (unix_milli now) (pos 100) in
      let (e, eq, moved) =
        promote-Moved R config.retry_key retry_data config.stream (unix_milli now) (pos 100) d'
          json in
      let (_, _, _, stored) = retry_held C b job next d held in
      let (f, decodes, same) = C.decode-marshal (job_fields C (retried C b job)) in
      (
        e,
        rw eq,
        rw (moved.scores job.id, is_due),
        moved.added,
        moved.appended,
        Any-imp (λ x. (id : String) → Returns job (id, x.1)) (Returns job) moved.added
            (λ x p. p x.0)
            (Any-fields (λ g. (id : String) → Returns job (id, g)) moved.added
              (rw moved.all_due (
                Any-due (λ g. (id : String) → Returns job (id, g)) (hash d' retry_data) job.id
                  (C.marshal (job_fields C (retried C b job))) f ids is_due stored decodes
                  (λ id. fields-Returns job id f named fits same)))),
      )
