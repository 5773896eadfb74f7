-- ===== src/Store/Claim/Kept.antt =====
-- redisstream/store.go: an entry that can be read stays in the stream while the entries of a reply are
-- parsed, and the malformed ones go into quarantine.
pub mod Calls
use dist_tasks_go.Base.{
  ℕ, String, ◌≡◌, refl, ◌⊎◌, Bool, true, false, Option, none, some, List, [], ◌∷◌, ℤ, pos, str_eq,
  if◌then◌else◌, All, inl, inr, leb_ℤ,
}
use dist_tasks_go.Queue.Job.{Job, Lease, Error, Result, ok, err}
use dist_tasks_go.Redis.{Redis, Fields, Entry, xadd}
use dist_tasks_go.Redis.Script.{Script, after, run}
use dist_tasks_go.Store.Scripts.{dead_letter_script, claim_script, recover_script, promote}
use dist_tasks_go.Store.Scripts.Stays.{
  Stays, exec-Stays, settle-Stays, if_owned-Stays, promote-Stays, prune-Stays,
}
use dist_tasks_go.Store.Fields.{Codec, parse_job}
use dist_tasks_go.Store.Client.{
  Net, delivered, refused, lost, Store, call, fenced, unix_milli, milliseconds,
}
use dist_tasks_go.Store.Claim.{
  parse_or_quarantine, parse_entries, with_token, parse_claimed, claim_ready, Block, served,
  nothing, abandoned, failed, claim_blocking, recovered, recover_expired,
}
use dist_tasks_go.Store.Scripts.Found.{Agrees, AllAgree, recover-Agree, read-Agree}

Result-cases : {A : Type 0} (r : Result A) → ((a : A) × (r ≡ ok a)) ⊎ ((e : Error) × (r ≡ err e))
Result-cases (ok a) = inl (a, refl)
Result-cases (err e) = inr (e, refl)

module _ {R : Redis} (C : Codec R) (b : Store) (i : String) (f : Fields) where
  open R use {Db, exec}
  open b use {config, retry_data}

  abbrev Kept : Db → Type 0
  Kept d = Stays R config.stream i f d

  pub call-Kept :
      {A : Type 0} (net : Net) (m : Script Db A) (d : Db)
      → Kept d
      → Kept (m d).1
      → Kept (call net m d).1
  unfolding call
  call-Kept delivered m d e h = h
  call-Kept (refused x) m d e h = e
  call-Kept (lost x) m d e h = h

  dead_letter-Kept :
      (net : Net) (l : Lease) (g : Fields) (d : Db)
      → str_eq l.message_id i ≡ false
      → Kept d
      → Kept
          (fenced net (dead_letter_script R config.stream config.group config.dead_letter l g) d).1
  unfolding fenced dead_letter_script
  dead_letter-Kept net l g d h e = call-Kept net _ d e (
      if_owned-Stays R config.stream i f config.stream config.group l _ d
        (settle-Stays R config.stream i f config.stream config.group l.message_id
          (exec (xadd config.dead_letter g) d) h
          (exec-Stays R config.stream i f (xadd config.dead_letter g) d refl e))
        e)

  module _ (readable : (l : Lease) → (j : Job) × (parse_job C i f l ≡ ok j)) where
    parsed-Kept :
        (net : Net) (id : String) (vals : Fields) (l : Lease) (d : Db)
        → l.message_id ≡ id
        → Agrees R config.stream i f id vals
        → Kept d
        → Kept (parse_or_quarantine C b net id vals l d).1
    unfolding parse_or_quarantine
    parsed-Kept net id vals l d same (inr (is_i, is_f)) e =
        let (j, eq) = readable l in rw (is_i, is_f, eq) e
    parsed-Kept net id vals l d same (inl other) e = elim (Result-cases (parse_job C id vals l)) [
      | inl (j, eq) ↦ rw eq e
      | inr (x, eq) ↦ rw eq (dead_letter-Kept net l _ d (rw same other) e)
    ]

    pub entries-Kept :
        (each : String → Net) (worker : String) (es : List (String × Fields × ℕ)) (d : Db)
        → AllAgree R config.stream i f es
        → Kept d
        → Kept (parse_entries C b each worker es d).1
    unfolding parse_entries
    entries-Kept each worker [] d h e = e
    entries-Kept each worker ((id, vals, token) ∷ es) d (h, hs) e =
        let lease : Lease = record {
          message_id = id;
          owner = worker;
          token = pos token;
          partition = pos 0;
        } in
        let first = parse_or_quarantine C b (each id) id vals lease d in
        entries-Kept each worker es first.1 hs (parsed-Kept (each id) id vals lease d refl h e)
