-- ===== src/Store/Claim/Held.antt =====
-- redisstream/store.go: the jobs that a claim or a recovery hands out, once the malformed ones are in
-- quarantine.
use Prim.Native.String.{◌++◌ as append}
use dist_tasks_go.Base.{
  ℕ, ◌≤◌, String, ◌≡◌, refl, ◌⊎◌, inl, inr, true, false, Option, some, List, [], ◌∷◌, pos, str_eq,
  eq_iff, arith, length, All, Bool-cases,
}
use dist_tasks_go.Queue.Job.{Job, Lease, Error, Result, ok, err}
use dist_tasks_go.Redis.{Redis, Fields}
use dist_tasks_go.Store.Scripts.{owns, dead_letter_script}
use dist_tasks_go.Store.Scripts.Fencing.{dead_letter_settles, fenced_stale}
use dist_tasks_go.Store.Fields.{Codec, parse_job, str, num, ts}
use dist_tasks_go.Store.Client.{Net, delivered, refused, lost, Store, call, fenced}
use dist_tasks_go.Store.Claim.{quarantine, parse_or_quarantine, parse_entries, others}

module _ {R : Redis} (C : Codec R) (b : Store) where
  open R use {Db, pending}
  open b use {config}

  parse_job-lease :
      (id : String) (vals : Fields) (lease : Lease) (j : Job)
      → parse_job C id vals lease ≡ ok j
      → j.lease ≡ lease
  unfolding parse_job str num ts
  parse_job-lease id vals lease j h = ground arith

  abbrev Owned : Lease → Db → Type 0
  Owned lease d = owns R config.stream config.group lease d ≡ true

  -- Dead-lettering one delivery leaves the others to their owners.
  module _ (apart : str_eq config.dead_letter config.stream ≡ false) where
    dead_letter-others :
        (lease other : Lease) (fields : Fields) (d : Db)
        → str_eq lease.message_id other.message_id ≡ false
        → Owned other d
        → Owned other
            (dead_letter_script R config.stream config.group config.dead_letter lease fields d).1
    dead_letter-others lease other fields d ne h =
        elim (Bool-cases (owns R config.stream config.group lease d)) [
          | inl mine ↦
              let (_, settled, _) =
                dead_letter_settles R config.stream config.group config.dead_letter lease fields d
                  apart mine in
              unfold owns in rw (settled.deliveries other.message_id, ne) h
          | inr stale ↦
              let (_, _, _, same) =
                fenced_stale R config.stream config.group "" "" config.dead_letter lease (pos 0) ""
                  "" fields d stale in
              rw same h
        ]

    module _ (each : String → Net) (worker : String) (look : String → Option (Fields × ℕ)) where
      abbrev lease_for : String × Fields × ℕ → Lease
      lease_for x = record { message_id = x.0; owner = worker; token = pos x.2; partition = pos 0 }

      abbrev parsed : String × Fields × ℕ → Result Job
      parsed x = parse_job C x.0 x.1 (lease_for x)

      -- The fields and the count of an entry go with its ID.
      abbrev Known : String × Fields × ℕ → Type 0
      Known x = look x.0 ≡ some (x.1, x.2)

      abbrev Malformed : String × Fields × ℕ → Type 0
      Malformed x = (e : Error) × (parsed x ≡ err e)

      parsed-cases : (x : String × Fields × ℕ) → ((j : Job) × (parsed x ≡ ok j)) ⊎ Malformed x
      parsed-cases x = go (parsed x) refl
        where
          go : (r : Result Job) → parsed x ≡ r → ((j : Job) × (parsed x ≡ ok j)) ⊎ Malformed x
          go (ok j) e = inl (j, e)
          go (err e') e = inr (e', e)

      apart_ids :
          (i k : String) (f v : Fields) (n m : ℕ) (e : Error) (j : Job)
          → Known (i, f, n)
          → Known (k, v, m)
          → parsed (i, f, n) ≡ err e
          → parsed (k, v, m) ≡ ok j
          → str_eq i k ≡ false
      apart_ids i k f v n m e j p q bad good = elim (Bool-cases (str_eq i k)) [
        | inr ne ↦ ne
        | inl same ↦ absurd (clash ((eq_iff i k).0 same))
      ]
        where
          clash : i ≡ k → ⊥
          clash eq = cc

      fenced-Owned :
          (net : Net) (lease other : Lease) (fields : Fields) (d : Db)
          → str_eq lease.message_id other.message_id ≡ false
          → Owned other d
          → Owned other
              (fenced net
                (dead_letter_script R config.stream config.group config.dead_letter lease fields)
                d).1
      unfolding fenced call
      fenced-Owned delivered lease other fields d ne h =
          dead_letter-others lease other fields d ne h
      fenced-Owned (refused e) lease other fields d ne h = h
      fenced-Owned (lost e) lease other fields d ne h = dead_letter-others lease other fields d ne h

      -- Handling one entry leaves the well-formed ones held.
      entry-Owned :
          (y x : String × Fields × ℕ) (j : Job) (d : Db)
          → Known y
          → Known x
          → parsed x ≡ ok j
          → Owned (lease_for x) d
          → Owned (lease_for x) (parse_or_quarantine C b (each y.0) y.0 y.1 (lease_for y) d).1
      unfolding parse_or_quarantine quarantine
      entry-Owned y x j d p q good h = elim (parsed-cases y) [
        | inl (i, fine) ↦ rw fine h
        | inr (e, bad) ↦ rw bad (
            fenced-Owned (each y.0) (lease_for y) (lease_for x)
              (("reason", append "malformed entry: " (C.error_text e)) ∷ others y.1) d
              (apart_ids y.0 x.0 y.1 x.1 y.2 x.2 e j p q bad good) h)
      ]

      rest-Owned :
          (es : List (String × Fields × ℕ)) (x : String × Fields × ℕ) (j : Job) (d : Db)
          → All Known es
          → Known x
          → parsed x ≡ ok j
          → Owned (lease_for x) d
          → Owned (lease_for x) (parse_entries C b each worker es d).1
      unfolding parse_entries
      rest-Owned [] x j d ps q good h = h
      rest-Owned (y ∷ es) x j d (p, ps) q good h =
          rest-Owned es x j _ ps q good (entry-Owned y x j d p q good h)

      abbrev pub HeldOrMalformed : Db → String × Fields × ℕ → Type 0
      HeldOrMalformed d x = Malformed x ⊎ Owned (lease_for x) d

      still :
          (y : String × Fields × ℕ) (es : List (String × Fields × ℕ)) (d : Db)
          → Known y
          → All Known es
          → All (HeldOrMalformed d) es
          → All (HeldOrMalformed (parse_or_quarantine C b (each y.0) y.0 y.1 (lease_for y) d).1) es
      still y [] d p ps hs = tt
      still y (x ∷ es) d p (q, ps) (h, hs) = (
        elim (parsed-cases x) [
          | inr bad ↦ inl bad
          | inl (j, good) ↦ elim h [
            | inl (e, bad) ↦ inl (e, bad)
            | inr mine ↦ inr (entry-Owned y x j d p q good mine)
          ]
        ],
        still y es d p ps hs,
      )

      held_now :
          (x : String × Fields × ℕ) (j : Job) (d : Db)
          → parsed x ≡ ok j
          → HeldOrMalformed d x
          → Owned (lease_for x) d
      held_now x j d good (inr mine) = mine
      held_now x j d good (inl (e, bad)) = cc

      abbrev Held : List (String × Fields × ℕ) → Db → Type 0
      Held es d =
          let r = parse_entries C b each worker es d in
          All (λ j. Owned j.lease r.1) r.0 × (length r.0 ≤ length es)

      parsed-Held :
          (x : String × Fields × ℕ) (es : List (String × Fields × ℕ)) (j : Job) (d : Db)
          → parsed x ≡ ok j
          → Owned (lease_for x) (parse_entries C b each worker es d).1
          → Held es d
          → Held (x ∷ es) d
      unfolding parse_entries parse_or_quarantine quarantine
      parsed-Held x es j d good mine (rest, len) =
          rw good
            ((rw (parse_job-lease x.0 x.1 (lease_for x) j good) mine, rest), omega (arith, len))

      quarantined-Held :
          (x : String × Fields × ℕ) (es : List (String × Fields × ℕ)) (e : Error) (d : Db)
          → parsed x ≡ err e
          → Held es (parse_or_quarantine C b (each x.0) x.0 x.1 (lease_for x) d).1
          → Held (x ∷ es) d
      unfolding parse_entries parse_or_quarantine quarantine
      quarantined-Held x es e d bad h =
          let (rest, len) = rw bad at h in rw bad (rest, omega (arith, len))

      pub parse_entries-Held :
          (es : List (String × Fields × ℕ)) (d : Db)
          → All Known es
          → All (HeldOrMalformed d) es
          → Held es d
      parse_entries-Held [] d ps hs = unfold parse_entries in (tt, omega arith)
      parse_entries-Held (x ∷ es) d (p, ps) (h, hs) = elim (parsed-cases x) [
        | inl (j, good) ↦
            parsed-Held x es j d good (rest-Owned es x j d ps p good (held_now x j d good h))
              (parse_entries-Held es d ps hs)
        | inr (e, bad) ↦
            quarantined-Held x es e d bad (parse_entries-Held es _ ps (still x es d p ps hs))
      ]
