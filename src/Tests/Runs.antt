-- ===== src/Tests/Runs.antt =====
-- The scripts and the downstream at concrete inputs.
use dist_tasks_go.Base.{
  ℕ, ◌≤◌, ◌+ℤ◌, String, ◌≡◌, refl, true, some, List, [], ◌∷◌, pos, ◌<ℤ◌, All, length, arith,
}
use dist_tasks_go.Redis.{Fields}
use dist_tasks_go.Memory.{MemDb, mem_marshal, mem_parse}
use dist_tasks_go.Memory.Server.{mem_redis, decoded}
use dist_tasks_go.Memory.Tools.{mem_counters, empty_db}
use dist_tasks_go.Store.Scripts.{owns, recover_script}
use dist_tasks_go.Store.Scripts.Delivery.{Won, lease_of, recover-Won}
use dist_tasks_go.Downstream.{Keys}
use dist_tasks_go.Downstream.Layout.{keys_of, keys_of-Apart, effects_applied_once}
use dist_tasks_go.Downstream.Once.{Apart, Call, begins, applies, serve, times_applied}
use dist_tasks_go.Tests.Setup.{some_fields, delivered_db}

five : pos 0 <ℤ pos 5
five = omega arith

recover-Won_example :
    (r : String × List (String × Fields × ℕ)) × (end : MemDb) × (recover_script mem_redis "s" "g"
        "v"
        (pos 5)
        (pos 4)
        "0-0"
        delivered_db
      ≡ (some r, end))
    × (length r.1 ≤ 4)
    × All
        (λ out.
          Won mem_redis "s" "g" "v" (pos 5) five delivered_db end out
          × (owns mem_redis "s" "g" (lease_of mem_redis "s" "g" "v" (pos 5) five out) end ≡ true))
        r.1
recover-Won_example = recover-Won mem_redis "s" "g" "v" (pos 5) five 3 "0-0" delivered_db

pub due_json : (f : Fields) × (decoded (mem_marshal some_fields) ≡ some f)
unfolding decoded
due_json = ((mem_parse (mem_marshal some_fields)).2, refl)

abbrev pub hashes : Keys
hashes = record { fence = "f"; outcomes = "o"; applied = "a"; effects = "e" }

pub hashes-Apart : Apart hashes
hashes-Apart = record {
  fence_outcomes = refl;
  effects_fence = refl;
  applied_fence = refl;
  fence_applied = refl;
  outcomes_applied = refl;
  effects_applied = refl;
  outcomes_effects = refl;
  fence_effects = refl;
  applied_effects = refl;
}

abbrev two_runs : List Call
two_runs =
    begins "7" (pos 1)
    ∷ applies "7" (pos 1) "42"
    ∷ applies "7" (pos 2) "42"
    ∷ applies "8" (pos 1) "43"
    ∷ []

effects_applied_once_example :
    let keys = keys_of "run:" in
    let times = times_applied mem_counters keys (keys_of-Apart "run:") "7" two_runs empty_db in
    (times ≤ 1)
    × ((serve mem_counters keys (keys_of-Apart "run:") two_runs empty_db).counts keys.effects "42"
        ≡ empty_db.counts keys.effects "42" +ℤ pos times)
effects_applied_once_example =
    effects_applied_once mem_counters "run:" "7" "42" two_runs empty_db (refl, (refl, (refl, tt)))
