-- ===== src/Store/Scripts/Promotion.antt =====
-- redisstream/scripts.go: promoteLua, from the schedule to the stream.
use mathlib.Core.List.{append_assoc, append-nil, map-append}
use dist_tasks_go.Base.{
  String, ◌≡◌, refl, sym, ◌∙◌, ap, subst, Bool, ◌||◌, false, Option, none, some, List, [], ◌∷◌,
  ◌++◌, map, arith, ℤ, str_eq, eq_refl, if◌then◌else◌, length, All,
}
use dist_tasks_go.Redis.{Redis, Entry, Fields, Distinct, xadd, hdel, zrem}
use dist_tasks_go.Store.Scripts.{
  promote_one, promote_ids, promote, xadd_json, xadd_known, xadd_decoded,
}

abbrev listed {ℓ} : {A : Type ℓ} → Option A → List A
listed none = []
listed (some a) = a ∷ []

abbrev pub contains : String → List String → Bool
contains m [] = false
contains m (i ∷ is) = str_eq i m || contains m is

module _ (R : Redis) (z h s : String) where
  open R use {
    Db, exec, stream, pending, hash, score, text, next_id, cjson_decode, stream_exec, pending_exec,
    hash_exec, score_exec, due, due_distinct,
  }

  -- The fields of a scheduled job that its hash entry holds.
  abbrev decoded : Option String → List Fields
  decoded none = []
  decoded (some json) = listed (cjson_decode json)

  -- What promoting these IDs puts on the stream.
  abbrev pub due_fields : (String → Option String) → List String → List Fields
  due_fields get [] = []
  due_fields get (id ∷ ids) = decoded (get id) ++ due_fields get ids

  -- The hash holds JSON, as the store wrote it.
  abbrev pub IsJson : Option String → Type 0
  IsJson none = Unit {0}
  IsJson (some json) = (f : Fields) × (cjson_decode json ≡ some f)

  pub record Moved (ids : List String) (d d' : Db) : Type 0 where
    pub added : List Entry
    pub appended : stream d' s ≡ stream d s ++ added
    pub all_due : map (λ e. e.1) added ≡ due_fields (hash d h) ids
    pub scores : (m : String) → score d' z m ≡ (if contains m ids then none else score d z m)
    pub hashes : (m : String) → hash d' h m ≡ (if contains m ids then none else hash d h m)
    pub deliveries : (k g i : String) → pending d' k g i ≡ pending d k g i

  one-Moved :
      (id : String) (d : Db) (o : Option String)
      → hash d h id ≡ o
      → IsJson o
      → (d' : Db) × (promote_one R z h s id d ≡ (some tt, d')) × Moved (id ∷ []) d d'
  unfolding promote_one xadd_json
  one-Moved id d none e j = (
    exec (zrem z id) (exec (hdel h id) d),
    rw e,
    record {
      added = [];
      appended = simp (stream_exec, append-nil);
      all_due = rw e;
      scores = λ m. simp (score_exec, eq_refl) (ground arith);
      hashes = λ m. simp (hash_exec, eq_refl) (ground arith);
      deliveries = λ k g i. simp pending_exec;
    },
  )
  one-Moved id d (some json) e (f, good) = (
    exec (zrem z id) (exec (hdel h id) (exec (xadd s f) d)),
    rw e (rw (good, xadd_known, xadd_decoded)),
    record {
      added = (next_id d s, f) ∷ [];
      appended = simp (stream_exec, eq_refl);
      all_due = rw e (ap (λ o. listed o ++ []) (sym good));
      scores = λ m. simp (score_exec, eq_refl) (ground arith);
      hashes = λ m. simp (hash_exec, eq_refl) (ground arith);
      deliveries = λ k g i. simp pending_exec;
    },
  )

  -- The rest of the IDs see the same hash entries.
  due_fields_same :
      (get get' : String → Option String) (ids : List String)
      → All (λ i. get i ≡ get' i) ids
      → due_fields get ids ≡ due_fields get' ids
  due_fields_same get get' [] e = refl
  due_fields_same get get' (i ∷ ids) (e, es) = rw (e, due_fields_same get get' ids es)

  one_apart :
      (id i : String) (d e : Db)
      → str_eq id i ≡ false
      → Moved (id ∷ []) d e
      → hash e h i ≡ hash d h i
  one_apart id i d e ne p = ground (arith, p.hashes i)

  apart_same :
      (id : String) (ids : List String) (d e : Db)
      → All (λ y. str_eq id y ≡ false) ids
      → Moved (id ∷ []) d e
      → All (λ i. hash e h i ≡ hash d h i) ids
  apart_same id [] d e a p = tt
  apart_same id (i ∷ ids) d e (ne, a) p = (one_apart id i d e ne p, apart_same id ids d e a p)

  still-IsJson :
      (d e : Db) (ids : List String)
      → All (λ i. hash e h i ≡ hash d h i) ids
      → All (λ i. IsJson (hash d h i)) ids
      → All (λ i. IsJson (hash e h i)) ids
  still-IsJson d e [] same j = tt
  still-IsJson d e (i ∷ ids) (same, sames) (j, js) =
      (subst IsJson (sym same) j, still-IsJson d e ids sames js)

  Moved-cons :
      (id : String) (ids : List String) (d e f : Db)
      → All (λ y. str_eq id y ≡ false) ids
      → Moved (id ∷ []) d e
      → Moved ids e f
      → Moved (id ∷ ids) d f
  Moved-cons id ids d e f apart p q = record {
    added = p.added ++ q.added;
    appended = q.appended ∙ (rw (p.appended) (append_assoc (stream d s) p.added q.added));
    all_due =
        map-append (λ x. x.1) p.added q.added
        ∙ rw (p.all_due, q.all_due, append-nil)
            (ap (λ x. decoded (hash d h id) ++ x)
              (due_fields_same (hash e h) (hash d h) ids (apart_same id ids d e apart p)));
    scores = λ m. ground (arith, p.scores m, q.scores m);
    hashes = λ m. ground (arith, p.hashes m, q.hashes m);
    deliveries = λ k g i. q.deliveries k g i ∙ p.deliveries k g i;
  }

  ids-Moved :
      (ids : List String) (d : Db)
      → Distinct ids
      → All (λ id. IsJson (hash d h id)) ids
      → (d' : Db) × (promote_ids R z h s ids d ≡ (some tt, d')) × Moved ids d d'
  unfolding promote_ids
  ids-Moved [] d u j = (
    d,
    refl,
    record {
      added = [];
      appended = sym (append-nil (stream d s));
      all_due = refl;
      scores = λ m. refl;
      hashes = λ m. refl;
      deliveries = λ k g i. refl;
    },
  )
  ids-Moved (id ∷ ids) d (apart, u) (j, js) =
      let (e, eq, one) = one-Moved id d (hash d h id) refl j in
      let (f, eqs, rest) =
        ids-Moved ids e u (still-IsJson d e ids (apart_same id ids d e apart one) js) in
      (f, rw eq eqs, Moved-cons id ids d e f apart one rest)

  -- Where the hash entries of the due IDs are JSON: promotion answers with the number of due IDs,
  -- appends the fields of each of them to the stream in their order, takes exactly these IDs from
  -- the schedule and the hash, and leaves all deliveries as they are.
  pub promote-Moved :
      (now limit : ℤ) (d : Db)
      → All (λ id. IsJson (hash d h id)) (due d z now limit)
      → (d' : Db) × (promote R z h s now limit d ≡ (some (length (due d z now limit)), d'))
        × Moved (due d z now limit) d d'
  unfolding promote
  promote-Moved now limit d j =
      let (d', eq, moved) = ids-Moved (due d z now limit) d (due_distinct d z now limit) j in
      (d', rw eq, moved)
