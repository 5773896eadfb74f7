-- ===== src/Redis.antt =====
-- The Redis server, which the repository only calls: a parameter. `Redis` has the reads and the
-- commands that the store and its Lua scripts use, with what the Redis documentation says of them.
-- The effect of a command on what a client can read back is given by the `…_after` functions.
pub mod Script
pub mod Streams
use dist_tasks_go.Base.{
  ℕ, suc, ◌≤◌, ◌<◌, String, ◌≡◌, ◌⊎◌, Bool, true, false, not, ◌&&◌, Option, none, some, List, [],
  ◌∷◌, ◌++◌, ℤ, pos, ◌≤ℤ◌, str_eq, if◌then◌else◌, length, All,
}

pub record Pending : Type 0 where
  pub owner : String
  pub deliveries : ℕ
  pub idle : ℤ

abbrev pub Fields : Type 0
Fields = List (String × String)

abbrev pub Entry : Type 0
Entry = String × Fields

pub data Command : Type 0 where
  xadd : String → Fields → Command
  xack : String → String → String → Command
  xdel : String → String → Command
  -- XCLAIM stream group owner 0 id JUSTID
  xclaim_justid : String → String → String → String → Command
  delconsumer : String → String → String → Command
  hset : String → String → String → Command
  hdel : String → String → Command
  zadd : String → ℤ → String → Command
  zrem : String → String → Command
  set_px : String → String → ℤ → Command

-- The entry with an ID, and whether there is one.
unfoldable pub entry : String → List Entry → Option Fields
entry i [] = none
entry i ((j, f) ∷ es) = if str_eq j i then some f else entry i es

abbrev pub is_some {ℓ} : {A : Type ℓ} → Option A → Bool
is_some none = false
is_some (some a) = true

unfoldable pub has : String → List Entry → Bool
unfolding entry
has i es = is_some (entry i es)

unfoldable pub remove : String → List Entry → List Entry
remove i [] = []
remove i ((j, f) ∷ es) = if str_eq j i then remove i es else (j, f) ∷ remove i es

-- `new` is the ID that the server gives to an added entry.
abbrev pub stream_after : Command → String → String → List Entry → List Entry
stream_after (xadd s f) k new es = if str_eq s k then es ++ (new, f) ∷ [] else es
stream_after (xdel s i) k new es = if str_eq s k then remove i es else es
stream_after _ k new es = es

abbrev pub renewed : String → Option Pending → Option Pending
renewed owner none = none
renewed owner (some p) = some (record p { owner = owner; idle = pos 0 })

abbrev pub forgotten : String → Option Pending → Option Pending
forgotten consumer none = none
forgotten consumer (some p) = if str_eq p.owner consumer then none else some p

-- `stored` says that the stream has the entry: XCLAIM drops a delivery whose entry is gone.
abbrev pub pending_after :
    Command → String → String → String → Bool → Option Pending → Option Pending
pending_after (xack s h j) k g i stored p =
    if str_eq s k && str_eq h g && str_eq j i then none else p
pending_after (xclaim_justid s h owner j) k g i stored p =
    if str_eq s k && str_eq h g && str_eq j i then (if stored then renewed owner p else none) else p
pending_after (delconsumer s h consumer) k g i stored p =
    if str_eq s k && str_eq h g then forgotten consumer p else p
pending_after _ k g i stored p = p

abbrev pub hash_after : Command → String → String → Option String → Option String
hash_after (hset h j v) k f old = if str_eq h k && str_eq j f then some v else old
hash_after (hdel h j) k f old = if str_eq h k && str_eq j f then none else old
hash_after _ k f old = old

abbrev pub score_after : Command → String → String → Option ℤ → Option ℤ
score_after (zadd z s j) k m old = if str_eq z k && str_eq j m then some s else old
score_after (zrem z j) k m old = if str_eq z k && str_eq j m then none else old
score_after _ k m old = old

abbrev pub ttl_after : Command → String → Option ℤ → Option ℤ
ttl_after (set_px t v ms) k old = if str_eq t k then some ms else old
ttl_after _ k old = old

abbrev pub text_after : Command → String → Option String → Option String
text_after (set_px t v ms) k old = if str_eq t k then some v else old
text_after _ k old = old

-- XREADGROUP makes a delivery of its own, XAUTOCLAIM takes one over and counts it.
abbrev pub first_delivery : String → Pending
first_delivery consumer = record { owner = consumer; deliveries = 1; idle = pos 0 }

abbrev pub taken_over : String → Pending → Pending
taken_over consumer p = record { owner = consumer; deliveries = suc p.deliveries; idle = pos 0 }

-- No text stands twice in the list.
abbrev pub Distinct : List String → Type 0
Distinct [] = Unit {0}
Distinct (x ∷ xs) = All (λ y. str_eq x y ≡ false) xs × Distinct xs

pub record Redis : Type 1 where
  pub Db : Type 0
  pub exec : Command → Db → Db
  -- XRANGE - +; XPENDING for one ID; HGET; ZSCORE; GET; PTTL of a key that expires; the next ID of XADD *; JSON in Lua.
  pub stream : Db → String → List Entry
  pub pending : Db → String → String → String → Option Pending
  pub hash : Db → String → String → Option String
  pub score : Db → String → String → Option ℤ
  pub text : Db → String → Option String
  pub ttl : Db → String → Option ℤ
  pub next_id : Db → String → String
  pub cjson_decode : String → Option Fields
  -- ZRANGEBYSCORE key -inf now LIMIT 0 limit; XPENDING for one consumer; XINFO CONSUMERS as name,
  -- pending and idle.
  pub due : Db → String → ℤ → ℤ → List String
  pub held_by : Db → String → String → String → Bool
  pub consumers : Db → String → String → List (String × ℕ × ℤ)
  -- The count of XPENDING, and ZCARD.
  pub pending_count : Db → String → String → ℤ
  pub zcard : Db → String → ℤ
  -- stream group consumer count, and stream group consumer min-idle cursor count: of a group that
  -- exists, as NewWithClient has made it, and a cursor that is 0-0 or one that the server has given.
  pub xreadgroup : String → String → String → ℤ → Db → List Entry × Db
  pub xautoclaim : String → String → String → ℤ → String → ℤ → Db → (String × List Entry) × Db
  -- What the commands do.
  pub stream_exec :
      (c : Command) (d : Db) (k : String)
      → stream (exec c d) k ≡ stream_after c k (next_id d k) (stream d k)
  pub pending_exec :
      (c : Command) (d : Db) (k g i : String)
      → pending (exec c d) k g i ≡ pending_after c k g i (has i (stream d k)) (pending d k g i)
  pub hash_exec :
      (c : Command) (d : Db) (k f : String) → hash (exec c d) k f ≡ hash_after c k f (hash d k f)
  pub score_exec :
      (c : Command) (d : Db) (k m : String) → score (exec c d) k m ≡ score_after c k m (score d k m)
  pub text_exec :
      (c : Command) (d : Db) (k : String) → text (exec c d) k ≡ text_after c k (text d k)
  pub ttl_exec : (c : Command) (d : Db) (k : String) → ttl (exec c d) k ≡ ttl_after c k (ttl d k)
  -- XREADGROUP delivers entries that nobody holds, at most `count` of them, for the first time.
  pub read_count :
      (s g c : String) (n : ℕ) (d : Db) → length (xreadgroup s g c (pos (suc n)) d).0 ≤ suc n
  pub read_entries :
      (s g c : String) (n : ℤ) (d : Db)
      → All
          (λ e. (pending d s g e.0 ≡ none) × (entry e.0 (stream d s) ≡ some e.1))
          (xreadgroup s g c n d).0
  pub read_pending :
      (s g c : String) (n : ℤ) (d : Db) (i : String)
      → pending (xreadgroup s g c n d).1 s g i
        ≡ (if has i (xreadgroup s g c n d).0 then some (first_delivery c) else pending d s g i)
  pub read_stream :
      (s g c : String) (n : ℤ) (d : Db) (k : String)
      → stream (xreadgroup s g c n d).1 k ≡ stream d k
  -- XAUTOCLAIM takes over deliveries that were idle for long enough, at most `count` of them.
  pub autoclaim_count :
      (s g c : String) (ms : ℤ) (cur : String) (n : ℕ) (d : Db)
      → length (xautoclaim s g c ms cur (pos (suc n)) d).0.1 ≤ suc n
  pub autoclaim_entries :
      (s g c : String) (ms : ℤ) (cur : String) (n : ℤ) (d : Db)
      → All
          (λ e.
            (p : Pending) × (pending d s g e.0 ≡ some p)
            × (ms ≤ℤ p.idle)
            × (entry e.0 (stream d s) ≡ some e.1)
            × (pending (xautoclaim s g c ms cur n d).1 s g e.0 ≡ some (taken_over c p)))
          (xautoclaim s g c ms cur n d).0.1
  -- A delivery that was not idle for long enough stays, if its entry does.
  pub autoclaim_young :
      (s g c : String) (ms : ℤ) (cur : String) (n : ℤ) (d : Db) (i : String) (p : Pending)
      → pending d s g i ≡ some p
      → has i (stream d s) ≡ true
      → ¬ (ms ≤ℤ p.idle)
      → pending (xautoclaim s g c ms cur n d).1 s g i ≡ some p
  -- Any delivery stays, or is dropped with its entry gone, or is taken over.
  pub autoclaim_others :
      (s g c : String) (ms : ℤ) (cur : String) (n : ℤ) (d : Db) (i : String)
      → let now = pending (xautoclaim s g c ms cur n d).1 s g i in
        (now ≡ pending d s g i) ⊎ ((now ≡ none) ⊎ ((p : Pending) × (now ≡ some (taken_over c p))))
  pub autoclaim_stream :
      (s g c : String) (ms : ℤ) (cur : String) (n : ℤ) (d : Db) (k : String)
      → stream (xautoclaim s g c ms cur n d).1 k ≡ stream d k
  -- ZRANGEBYSCORE gives members whose score is due, and at most `limit`.
  pub due_scores :
      (d : Db) (z : String) (now limit : ℤ)
      → All (λ m. (s : ℤ) × (score d z m ≡ some s) × (s ≤ℤ now)) (due d z now limit)
  pub due_distinct : (d : Db) (z : String) (now limit : ℤ) → Distinct (due d z now limit)
  pub due_count :
      (d : Db) (z : String) (now : ℤ) (limit : ℕ) → length (due d z now (pos limit)) ≤ limit
