-- ===== src/Store/Scripts/Stays.antt =====
-- redisstream/scripts.go: an entry of the stream stays until its own delivery is settled.
use dist_tasks_go.Base.{
  ℕ, suc, String, ◌≡◌, refl, Bool, true, false, not, Option, none, some, List, [], ◌∷◌, ℤ, pos,
  str_eq, All, Bool-cases, inl, inr, arith, leb_ℤ, ◌&&◌, ◌==◌, ltb_ℤ,
}
use dist_tasks_go.Queue.Job.{Lease}
use dist_tasks_go.Redis.{
  Redis, Command, Fields, entry, xadd, xack, xdel, xclaim_justid, delconsumer, hset, hdel, zadd,
  zrem, set_px,
}
use dist_tasks_go.Redis.Streams.{entry-remove, entry-append_some}
use dist_tasks_go.Redis.Script.{Script, after}
use dist_tasks_go.Store.Scripts.{
  do_, owns, settle, if_owned, each_owned, xadd_decoded, xadd_json, xadd_known, promote_one,
  promote_ids, promote, deregister_script, prune_each, prune_consumers_script, store_new,
  set_expiring, enqueue_new, enqueue_known, enqueue_once_script,
}

module _ (R : Redis) (s i : String) (f : Fields) where
  open R use {Db, exec, stream, stream_exec, cjson_decode, hash, due, held_by, consumers, text}

  -- The entry i is in the stream s, with the fields f.
  abbrev pub Stays : Db → Type 0
  Stays d = entry i (stream d s) ≡ some f

  -- A command that deletes no entry i.
  abbrev pub spares : Command → Bool
  spares (xdel k j) = not (str_eq j i)
  spares _ = true

  pub exec-Stays : (c : Command) (d : Db) → spares c ≡ true → Stays d → Stays (exec c d)
  exec-Stays (xadd k g) d h e = elim (Bool-cases (str_eq k s)) [
    | inl here ↦ rw (stream_exec (xadd k g) d s, here) (entry-append_some i _ (stream d s) f e)
    | inr there ↦ rw (stream_exec (xadd k g) d s, there) e
  ]
  exec-Stays (xdel k j) d h e =
      let other : str_eq j i ≡ false = ground arith in
      elim (Bool-cases (str_eq k s)) [
        | inl here ↦ rw (stream_exec (xdel k j) d s, here, entry-remove j i (stream d s), other) e
        | inr there ↦ rw (stream_exec (xdel k j) d s, there) e
      ]
  exec-Stays (xack k g j) d h e = rw (stream_exec (xack k g j) d s) e
  exec-Stays (xclaim_justid k g o j) d h e = rw (stream_exec (xclaim_justid k g o j) d s) e
  exec-Stays (delconsumer k g o) d h e = rw (stream_exec (delconsumer k g o) d s) e
  exec-Stays (hset k j v) d h e = rw (stream_exec (hset k j v) d s) e
  exec-Stays (hdel k j) d h e = rw (stream_exec (hdel k j) d s) e
  exec-Stays (zadd k t j) d h e = rw (stream_exec (zadd k t j) d s) e
  exec-Stays (zrem k j) d h e = rw (stream_exec (zrem k j) d s) e
  exec-Stays (set_px k v t) d h e = rw (stream_exec (set_px k v t) d s) e

  -- A script that goes on with another.
  pub after-Stays :
      {A B : Type 0} (r : Option A × Db) (rest : A → Script Db B)
      → Stays r.1
      → ((a : A) (d : Db) → Stays d → Stays (rest a d).1)
      → Stays (after r rest).1
  after-Stays (none, d) rest e h = e
  after-Stays (some a, d) rest e h = h a d e

  pub settle-Stays :
      (k g j : String) (d : Db) → str_eq j i ≡ false → Stays d → Stays (settle R k g j d)
  unfolding settle
  settle-Stays k g j d h e =
      exec-Stays (xdel k j) (exec (xack k g j) d) (rw h) (exec-Stays (xack k g j) d refl e)

  -- A script of the owner does what its action does, or nothing.
  pub if_owned-Stays :
      (k g : String) (l : Lease) (action : Db → Db) (d : Db)
      → Stays (action d)
      → Stays d
      → Stays (if_owned R k g l action d).1
  unfolding if_owned
  if_owned-Stays k g l action d h e = elim (Bool-cases (owns R k g l d)) [
    | inl mine ↦ rw mine h
    | inr gone ↦ rw gone e
  ]

  pub each_owned-Stays :
      (k g : String) (action : Lease → Db → Db) (ls : List Lease) (d : Db)
      → All (λ l. (d : Db) → Stays d → Stays (action l d)) ls
      → Stays d
      → Stays (each_owned R k g action ls d).1
  unfolding each_owned
  each_owned-Stays k g action [] d h e = e
  each_owned-Stays k g action (l ∷ ls) d (h, hs) e = elim (Bool-cases (owns R k g l d)) [
    | inl mine ↦ rw mine (
        after-Stays (each_owned R k g action ls (action l d)) _
          (each_owned-Stays k g action ls (action l d) hs (h d e)) λ rest d' e'. e')
    | inr gone ↦ rw gone (
        after-Stays (each_owned R k g action ls d) _ (each_owned-Stays k g action ls d hs e)
          λ rest d' e'. e')
  ]

  xadd_decoded-Stays :
      (k : String) (g : Option Fields) (d : Db) → Stays d → Stays (xadd_decoded R k g d).1
  unfolding xadd_decoded
  xadd_decoded-Stays k none d e = e
  xadd_decoded-Stays k (some g) d e = exec-Stays (xadd k g) d refl e

  pub xadd_json-Stays : (k json : String) (d : Db) → Stays d → Stays (xadd_json R k json d).1
  unfolding xadd_json
  xadd_json-Stays k json d e = xadd_decoded-Stays k (cjson_decode json) d e

  xadd_known-Stays :
      (k : String) (json : Option String) (d : Db) → Stays d → Stays (xadd_known R k json d).1
  unfolding xadd_known
  xadd_known-Stays k none d e = e
  xadd_known-Stays k (some json) d e = xadd_json-Stays k json d e

  promote_one-Stays : (z h k id : String) (d : Db) → Stays d → Stays (promote_one R z h k id d).1
  unfolding promote_one
  promote_one-Stays z h k id d e =
      after-Stays (xadd_known R k (hash d h id) d) _ (xadd_known-Stays k (hash d h id) d e)
        λ a d' e'.
          exec-Stays (zrem z id) (exec (hdel h id) d') refl (exec-Stays (hdel h id) d' refl e')

  promote_ids-Stays :
      (z h k : String) (ids : List String) (d : Db) → Stays d → Stays (promote_ids R z h k ids d).1
  unfolding promote_ids
  promote_ids-Stays z h k [] d e = e
  promote_ids-Stays z h k (id ∷ ids) d e =
      after-Stays (promote_one R z h k id d) _ (promote_one-Stays z h k id d e)
        λ a d' e'. promote_ids-Stays z h k ids d' e'

  pub promote-Stays :
      (z h k : String) (now limit : ℤ) (d : Db) → Stays d → Stays (promote R z h k now limit d).1
  unfolding promote
  promote-Stays z h k now limit d e =
      after-Stays (promote_ids R z h k (due d z now limit) d) _
        (promote_ids-Stays z h k (due d z now limit) d e) λ a d' e'. e'

  pub deregister-Stays : (k g c : String) (d : Db) → Stays d → Stays (deregister_script R k g c d).1
  unfolding deregister_script do_
  deregister-Stays k g c d e = elim (Bool-cases (held_by d k g c)) [
    | inl busy ↦ rw busy e
    | inr free ↦ rw free (exec-Stays (delconsumer k g c) d refl e)
  ]

  prune_each-Stays :
      (k g : String) (ms : ℤ) (cs : List (String × ℕ × ℤ)) (n : ℕ) (d : Db)
      → Stays d
      → Stays (prune_each R k g ms cs n d).1
  unfolding prune_each do_
  prune_each-Stays k g ms [] n d e = e
  prune_each-Stays k g ms ((name, held, idle) ∷ cs) n d e =
      elim (Bool-cases (held == 0 && leb_ℤ ms idle)) [
        | inl stale ↦ rw stale (
            prune_each-Stays k g ms cs (suc n) (exec (delconsumer k g name) d)
              (exec-Stays (delconsumer k g name) d refl e))
        | inr alive ↦ rw alive (prune_each-Stays k g ms cs n d e)
      ]

  pub prune-Stays :
      (k g : String) (ms : ℤ) (d : Db) → Stays d → Stays (prune_consumers_script R k g ms d).1
  unfolding prune_consumers_script
  prune-Stays k g ms d e = prune_each-Stays k g ms (consumers d k g) 0 d e

  store_new-Stays :
      (k z h id : String) (at : ℤ) (json : String) (d : Db)
      → Stays d
      → Stays (store_new R k z h id at json d).1
  unfolding store_new do_
  store_new-Stays k z h id at json d e = elim (Bool-cases (ltb_ℤ (pos 0) at)) [
    | inl later ↦ rw later (
        exec-Stays (zadd z at id) (exec (hset h id json) d) refl
          (exec-Stays (hset h id json) d refl e))
    | inr soon ↦ rw soon (xadd_json-Stays k json d e)
  ]

  enqueue_known-Stays :
      (known : Option String) (key k z h id : String) (window at : ℤ) (json : String) (d : Db)
      → Stays d
      → Stays (enqueue_known R known key k z h id window at json d).1
  unfolding enqueue_known enqueue_new set_expiring do_
  enqueue_known-Stays (some used) key k z h id window at json d e = e
  enqueue_known-Stays none key k z h id window at json d e =
      elim (Bool-cases (ltb_ℤ (pos 0) window)) [
        | inr never ↦ rw never e
        | inl expires ↦ rw expires (
            after-Stays (store_new R k z h id at json (exec (set_px key id window) d)) _
              (store_new-Stays k z h id at json (exec (set_px key id window) d)
                (exec-Stays (set_px key id window) d refl e))
              λ a d' e'. e')
      ]

  pub enqueue_once-Stays :
      (key k z h id : String) (window at : ℤ) (json : String) (d : Db)
      → Stays d
      → Stays (enqueue_once_script R key k z h id window at json d).1
  unfolding enqueue_once_script
  enqueue_once-Stays key k z h id window at json d e =
      enqueue_known-Stays (text d key) key k z h id window at json d e
