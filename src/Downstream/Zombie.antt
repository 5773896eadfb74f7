-- ===== src/Downstream/Zombie.antt =====
-- cmd/chaos/downstream.go with queue/job.go: the runs of a job, told apart by their fencing tokens.
use dist_tasks_go.Base.{ℕ, ◌+◌, ◌*◌, ◌^◌, ◌<◌, ◌≤◌, String, List, ◌≡◌, true, some, pos, ◌≤ℤ◌, arith}
use dist_tasks_go.Queue.Job.{Job, fencing_token}
use dist_tasks_go.Queue.Job.Token.{Fits, Later, fencing_token_value, fencing_token-lt}
use dist_tasks_go.Redis.{Redis}
use dist_tasks_go.Downstream.{Counters, Keys, fenced, seen, begin, apply, is_exact}
use dist_tasks_go.Downstream.Once.{Apart, Call, serve}
use dist_tasks_go.Downstream.Superseded.{IsExact, superseded_run}

-- Tokens of attempts below 2^20 are exact as doubles.
exact_token : (j : Job) (a t : ℕ) → Fits j a t → a < 2 ^ 20 → is_exact (fencing_token j) ≡ true
exact_token j a t f h =
    rw (fencing_token_value j a t f) (exact (a * 2 ^ 32 + t) (omega (arith, f.token_small)))
  where
    exact : (n : ℕ) → n ≤ 2 ^ 53 → is_exact (pos n) ≡ true
    exact n le = ground arith

module _ {R : Redis} (N : Counters R) (keys : Keys) (apart : Apart keys) where
  -- Where the four hashes are different keys, for two runs of one job with attempts below 2^31,
  -- the newer one's below 2^20, and delivery counts below 2^32, the newer one of a later attempt
  -- or a later delivery, with a token that is at least the highest seen: once the newer run has
  -- begun, and after any further calls of any runs whose tokens are exact as doubles, the older
  -- run's apply is turned away, and leaves the fences, the applied jobs and the counted effects
  -- as they are.
  pub zombie_fenced :
      (old new : Job) (n : String) (a t b u : ℕ) (cs : List Call) (d : R.Db)
      → old.id ≡ new.id
      → Fits old a t
      → Fits new b u
      → Later a t b u
      → b < 2 ^ 20
      → seen N keys new.id d ≤ℤ fencing_token new
      → IsExact cs
      → let e = serve N keys apart cs (begin N keys new d).1 in
        let r = apply N keys old n e in
        (r.0 ≡ some fenced)
        × ((i : String) → R.hash r.1 keys.fence i ≡ R.hash e keys.fence i)
        × ((i : String) → R.hash r.1 keys.applied i ≡ R.hash e keys.applied i)
        × ((m : String) → N.count r.1 keys.effects m ≡ N.count e keys.effects m)
  unfolding apply begin fencing_token
  zombie_fenced old new n a t b u cs d same f g later small current all = rw same (
      superseded_run N keys apart new.id n (fencing_token old) (fencing_token new) cs d
        (exact_token new b u g small) current ((fencing_token-lt old new a t b u f g).1 later) all)
