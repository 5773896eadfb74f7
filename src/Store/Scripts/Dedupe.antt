-- ===== src/Store/Scripts/Dedupe.antt =====
-- redisstream/scripts.go: the dedupe keys of enqueueOnceScript.
use mathlib.Core.Bool.{false≢true}
use dist_tasks_go.Base.{
  String, ◌≡◌, ◌⊎◌, sym, ◌∙◌, true, false, none, some, [], ◌∷◌, ◌++◌, ℤ, pos, ltb_ℤ, eq_refl,
  Option-cases, Bool-cases, inl, inr,
}
use dist_tasks_go.Redis.{Redis, Fields, set_px, xadd, hset, zadd}
use dist_tasks_go.Store.Scripts.{enqueue_once_script}

module _ (R : Redis) (key s z h : String) where
  open R use {
    Db, exec, stream, hash, score, text, next_id, cjson_decode, stream_exec, hash_exec, score_exec,
    text_exec, ttl, ttl_exec,
  }

  -- A key in use.
  pub enqueue_once_used :
      (id json used : String) (window run_at : ℤ) (d : Db)
      → text d key ≡ some used
      → enqueue_once_script R key s z h id window run_at json d ≡ (some used, d)
  unfolding enqueue_once_script
  enqueue_once_used id json used window run_at d e = rw e

  -- A new key, for a job that is due and for one that is not.
  pub enqueue_once_new :
      (id json : String) (window run_at : ℤ) (f : Fields) (d : Db)
      → text d key ≡ none
      → cjson_decode json ≡ some f
      → ltb_ℤ (pos 0) window ≡ true
      → (d' : Db) × (enqueue_once_script R key s z h id window run_at json d ≡ (some id, d'))
        × (text d' key ≡ some id)
        × (ttl d' key ≡ some window)
        × ((ltb_ℤ (pos 0) run_at ≡ false)
            → (stream d' s ≡ stream d s ++ (next_id (exec (set_px key id window) d) s, f) ∷ [])
              × ((m : String) → (score d' z m ≡ score d z m) × (hash d' h m ≡ hash d h m)))
        × ((ltb_ℤ (pos 0) run_at ≡ true)
            → (stream d' s ≡ stream d s)
              × (score d' z id ≡ some run_at)
              × (hash d' h id ≡ some json))
  unfolding enqueue_once_script
  enqueue_once_new id json window run_at f d e decodes expires =
      elim (Bool-cases (ltb_ℤ (pos 0) run_at)) [
        | inl later ↦ (
          exec (zadd z run_at id) (exec (hset h id json) (exec (set_px key id window) d)),
          rw e (rw (expires, later)),
          simp (text_exec, eq_refl),
          simp (ttl_exec, eq_refl),
          (λ bad. absurd (false≢true (sym bad ∙ later))),
          λ _. (simp stream_exec, simp (score_exec, eq_refl), simp (hash_exec, eq_refl)),
        )
        | inr soon ↦ (
          exec (xadd s f) (exec (set_px key id window) d),
          rw e (rw (expires, soon, decodes)),
          simp (text_exec, eq_refl),
          simp (ttl_exec, eq_refl),
          (λ _. (simp (stream_exec, eq_refl), λ m. (simp score_exec, simp hash_exec))),
          λ bad. absurd (false≢true (sym soon ∙ bad)),
        )
      ]

  -- Where the job's JSON can be decoded and the window is positive: an enqueue with a dedupe key answers
  -- with an ID; the key was in use before, or expires after the window; and every second enqueue with this
  -- key, whatever it carries, in a database where the key still has its value, answers with the same ID
  -- and changes nothing.
  pub enqueue_once_twice :
      (id json : String) (window run_at : ℤ) (f : Fields) (d : Db)
      → cjson_decode json ≡ some f
      → ltb_ℤ (pos 0) window ≡ true
      → (r : String) × (d' : Db) × (enqueue_once_script R key s z h id window run_at json d
          ≡ (some r, d'))
        × ((text d key ≡ some r) ⊎ (ttl d' key ≡ some window))
        × ((e : Db) (id' json' : String) (window' run_at' : ℤ)
            → text e key ≡ text d' key
            → enqueue_once_script R key s z h id' window' run_at' json' e ≡ (some r, e))
  enqueue_once_twice id json window run_at f d decodes expires = elim (Option-cases (text d key)) [
    | inl new ↦
        let (d', first, kept, lasts, soon, later) =
          enqueue_once_new id json window run_at f d new decodes expires in
        (
          id,
          d',
          first,
          inr lasts,
          λ e id' json' w t still. enqueue_once_used id' json' id w t e (still ∙ kept),
        )
    | inr (used, is) ↦ (
      used,
      d,
      enqueue_once_used id json used window run_at d is,
      inl is,
      λ e id' json' w t still. enqueue_once_used id' json' used w t e (still ∙ is),
    )
  ]
