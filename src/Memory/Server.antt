-- ===== src/Memory/Server.antt =====
-- The server in memory as an instance of the Redis that the development takes as a parameter.
use dist_tasks_go.Base.{
  ℕ, suc, ◌≤◌, String, ◌≡◌, refl, ◌⊎◌, true, false, ◌&&◌, Option, none, some, [], ℤ, pos, ◌≤ℤ◌,
  str_eq, eq_refl, pos_part, if◌then◌else◌, length, All,
}
use dist_tasks_go.Redis.{
  Redis, Command, Pending, Fields, entry, has, first_delivery, taken_over, pending_after,
  hash_after, score_after, ttl_after, text_after, Distinct, stream_after,
}
use dist_tasks_go.Memory.{
  MemDb, nth_id, mem_exec, is_due, limit_of, new_entries, old_entries, mem_xreadgroup,
  mem_xautoclaim, is_free, is_old, mem_due, mem_parse,
}
use dist_tasks_go.Memory.Picking.{
  length-pick, pick-All, All-imp, is_due-le, length-pick_due, pick_due-due, pick_due-Distinct,
  free-none, taken-young, taken-any, autoclaimed,
}

unfoldable pub decoded : String → Option Fields
decoded t = some (mem_parse t).2

pub exec_streams :
    (c : Command) (d : MemDb) (k : String)
    → (mem_exec c d).streams k ≡ stream_after c k (nth_id d.made) (d.streams k)
unfolding mem_exec
exec_streams c d k = refl

pub exec_deliveries :
    (c : Command) (d : MemDb) (k g i : String)
    → (mem_exec c d).deliveries k g i
      ≡ pending_after c k g i (has i (d.streams k)) (d.deliveries k g i)
unfolding mem_exec
exec_deliveries c d k g i = refl

pub exec_hashes :
    (c : Command) (d : MemDb) (k f : String)
    → (mem_exec c d).hashes k f ≡ hash_after c k f (d.hashes k f)
unfolding mem_exec
exec_hashes c d k f = refl

pub exec_scores :
    (c : Command) (d : MemDb) (k m : String)
    → (mem_exec c d).scores k m ≡ score_after c k m (d.scores k m)
unfolding mem_exec
exec_scores c d k m = refl

pub exec_ttls :
    (c : Command) (d : MemDb) (k : String) → (mem_exec c d).ttls k ≡ ttl_after c k (d.ttls k)
unfolding mem_exec
exec_ttls c d k = refl

pub exec_texts :
    (c : Command) (d : MemDb) (k : String) → (mem_exec c d).texts k ≡ text_after c k (d.texts k)
unfolding mem_exec
exec_texts c d k = refl

pub length-xreadgroup :
    (s g c : String) (n : ℕ) (d : MemDb) → length (mem_xreadgroup s g c (pos (suc n)) d).0 ≤ suc n
unfolding mem_xreadgroup
length-xreadgroup s g c n d =
    length-pick (λ i. is_free (d.deliveries s g i)) (d.streams s) (suc n) (d.streams s)

pub xreadgroup_entries :
    (s g c : String) (n : ℤ) (d : MemDb)
    → All
        (λ e. (d.deliveries s g e.0 ≡ none) × (entry e.0 (d.streams s) ≡ some e.1))
        (mem_xreadgroup s g c n d).0
unfolding mem_xreadgroup
xreadgroup_entries s g c n d =
    All-imp (new_entries s g n d)
      (λ e. (is_free (d.deliveries s g e.0) ≡ true) × (entry e.0 (d.streams s) ≡ some e.1))
      (λ e. (d.deliveries s g e.0 ≡ none) × (entry e.0 (d.streams s) ≡ some e.1))
      (λ e (free, there). (free-none (d.deliveries s g e.0) free, there))
      (pick-All (λ i. is_free (d.deliveries s g i)) (d.streams s) (pos_part n) (d.streams s))

pub xreadgroup_deliveries :
    (s g c : String) (n : ℤ) (d : MemDb) (i : String)
    → (mem_xreadgroup s g c n d).1.deliveries s g i
      ≡ (if has i (mem_xreadgroup s g c n d).0 then some (first_delivery c) else d.deliveries s g i)
unfolding mem_xreadgroup
xreadgroup_deliveries s g c n d i = rw (eq_refl s, eq_refl g) refl

pub xreadgroup_streams :
    (s g c : String) (n : ℤ) (d : MemDb) (k : String)
    → (mem_xreadgroup s g c n d).1.streams k ≡ d.streams k
unfolding mem_xreadgroup
xreadgroup_streams s g c n d k = refl

pub length-xautoclaim :
    (s g c : String) (ms : ℤ) (cur : String) (n : ℕ) (d : MemDb)
    → length (mem_xautoclaim s g c ms cur (pos (suc n)) d).0.1 ≤ suc n
unfolding mem_xautoclaim
length-xautoclaim s g c ms cur n d =
    length-pick (λ i. is_old ms (d.deliveries s g i)) (d.streams s) (suc n) (d.streams s)

pub xautoclaim_young :
    (s g c : String) (ms : ℤ) (cur : String) (n : ℤ) (d : MemDb) (i : String) (p : Pending)
    → d.deliveries s g i ≡ some p
    → has i (d.streams s) ≡ true
    → ¬ (ms ≤ℤ p.idle)
    → (mem_xautoclaim s g c ms cur n d).1.deliveries s g i ≡ some p
unfolding mem_xautoclaim
xautoclaim_young s g c ms cur n d i p held there young =
    rw held (taken-young (str_eq s s && str_eq g g && has i (old_entries s g ms n d)) c ms p young)

pub xautoclaim_others :
    (s g c : String) (ms : ℤ) (cur : String) (n : ℤ) (d : MemDb) (i : String)
    → let now = (mem_xautoclaim s g c ms cur n d).1.deliveries s g i in
      (now ≡ d.deliveries s g i) ⊎ ((now ≡ none) ⊎ ((p : Pending) × (now ≡ some (taken_over c p))))
unfolding mem_xautoclaim
xautoclaim_others s g c ms cur n d i =
    taken-any (str_eq s s && str_eq g g && has i (old_entries s g ms n d)) c ms (d.deliveries s g i)

pub xautoclaim_streams :
    (s g c : String) (ms : ℤ) (cur : String) (n : ℤ) (d : MemDb) (k : String)
    → (mem_xautoclaim s g c ms cur n d).1.streams k ≡ d.streams k
unfolding mem_xautoclaim
xautoclaim_streams s g c ms cur n d k = refl

pub mem_due-le :
    (d : MemDb) (z : String) (now limit : ℤ)
    → All (λ m. (s : ℤ) × (d.scores z m ≡ some s) × (s ≤ℤ now)) (mem_due d z now limit)
unfolding mem_due
mem_due-le d z now limit =
    All-imp (mem_due d z now limit) (λ m. is_due now (d.scores z m) ≡ true)
      (λ m. (s : ℤ) × (d.scores z m ≡ some s) × (s ≤ℤ now)) (λ m h. is_due-le now (d.scores z m) h)
      (pick_due-due (d.scores z) now (limit_of limit (d.members z)) [] (d.members z))

pub mem_due-Distinct : (d : MemDb) (z : String) (now limit : ℤ) → Distinct (mem_due d z now limit)
unfolding mem_due
mem_due-Distinct d z now limit =
    pick_due-Distinct (d.scores z) now (limit_of limit (d.members z)) [] (d.members z)

pub length-mem_due :
    (d : MemDb) (z : String) (now : ℤ) (limit : ℕ) → length (mem_due d z now (pos limit)) ≤ limit
unfolding mem_due
length-mem_due d z now limit = length-pick_due (d.scores z) now limit [] (d.members z)

abbrev pub mem_redis : Redis
mem_redis = record {
  Db = MemDb;
  exec = mem_exec;
  stream = λ d. d.streams;
  pending = λ d. d.deliveries;
  hash = λ d. d.hashes;
  score = λ d. d.scores;
  text = λ d. d.texts;
  ttl = λ d. d.ttls;
  next_id = λ d k. nth_id d.made;
  cjson_decode = decoded;
  due = mem_due;
  held_by = λ d s g c. false;
  consumers = λ d s g. [];
  pending_count = λ d s g. pos 0;
  zcard = λ d z. pos (length (d.members z));
  xreadgroup = mem_xreadgroup;
  xautoclaim = mem_xautoclaim;
  stream_exec = exec_streams;
  pending_exec = exec_deliveries;
  hash_exec = exec_hashes;
  score_exec = exec_scores;
  text_exec = exec_texts;
  ttl_exec = exec_ttls;
  read_count = length-xreadgroup;
  read_entries = xreadgroup_entries;
  read_pending = xreadgroup_deliveries;
  read_stream = xreadgroup_streams;
  autoclaim_count = length-xautoclaim;
  autoclaim_entries = autoclaimed;
  autoclaim_young = xautoclaim_young;
  autoclaim_others = xautoclaim_others;
  autoclaim_stream = xautoclaim_streams;
  due_scores = mem_due-le;
  due_distinct = mem_due-Distinct;
  due_count = length-mem_due;
}
