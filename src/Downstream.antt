-- ===== src/Downstream.antt =====
-- cmd/chaos/downstream.go: the system in which the jobs' side effects land. It fences by the highest
-- token seen for a job, and applies each job once. The commands on counters, HSETNX, and numbers as
-- text in Lua are a parameter beside the Redis server.
pub mod Once
pub mod Effects
pub mod Superseded
pub mod Landed
pub mod Layout
pub mod Zombie
use dist_tasks_go.Base.{
  ℕ, ◌^◌, String, ◌≡◌, Bool, true, false, Option, none, some, List, [], ◌∷◌, ◌&&◌, ℤ, pos, negsuc,
  ◌+ℤ◌, ltb_ℤ, leb_ℤ, str_eq, if◌then◌else◌,
}
use dist_tasks_go.Queue.Job.{Job, fencing_token}
use dist_tasks_go.Redis.{Redis, hset, is_some}
use dist_tasks_go.Redis.Script.{Script, ◌>>=◌, ◌>>◌, pure, read, write, run}

-- A double holds every integer up to 2^53.
abbrev pub is_exact : ℤ → Bool
is_exact n = leb_ℤ (negsuc (2 ^ 53)) n && leb_ℤ n (pos (2 ^ 53))

pub record Counters (R : Redis) : Type 0 where
  pub number : ℤ → String
  pub tonumber : String → ℤ
  pub hincrby : String → String → ℤ → R.Db → R.Db
  pub count : R.Db → String → String → ℤ
  pub hsetnx : String → String → String → R.Db → Bool × R.Db
  pub tonumber-number : (n : ℤ) → is_exact n ≡ true → tonumber (number n) ≡ n
  pub hsetnx_lem :
      (k f v : String) (d : R.Db)
      → hsetnx k f v d
        ≡ (if is_some (R.hash d k f) then (false, d) else (true, R.exec (hset k f v) d))
  pub count-hincrby :
      (k f : String) (n : ℤ) (d : R.Db) (k' f' : String)
      → count (hincrby k f n d) k' f'
        ≡ (if str_eq k k' && str_eq f f' then count d k' f' +ℤ n else count d k' f')
  pub hash-hincrby :
      (k f : String) (n : ℤ) (d : R.Db) (k' f' : String)
      → str_eq k k' ≡ false
      → R.hash (hincrby k f n d) k' f' ≡ R.hash d k' f'
  -- HSET on another hash.
  pub count-hset :
      (k f v : String) (d : R.Db) (k' f' : String)
      → str_eq k k' ≡ false
      → count (R.exec (hset k f v) d) k' f' ≡ count d k' f'

pub data Outcome : Type 0 where
  fenced deduped applied : Outcome

-- The four hashes: fence, outcomes, applied, effects.
pub record Keys : Type 0 where
  pub fence : String
  pub outcomes : String
  pub applied : String
  pub effects : String

abbrev pub or_minus_one : Option String → (String → ℤ) → ℤ
or_minus_one none f = negsuc 0
or_minus_one (some s) f = f s

module _ {R : Redis} (N : Counters R) (keys : Keys) where
  open R use {Db, exec, hash}

  unfoldable pub seen : String → Db → ℤ
  seen id d = or_minus_one (hash d keys.fence id) N.tonumber

  unfoldable pub pass_fence : String → ℤ → Script Db Bool
  unfolding seen
  pass_fence id token = do
    highest ← read (seen id)
    if ltb_ℤ token highest
        then (do write (N.hincrby keys.outcomes "fenced" (pos 1)); pure false)
        else (do write (exec (hset keys.fence id (N.number token))); pure true)

  unfoldable pub begin_script : String → ℤ → Script Db Bool
  unfolding pass_fence
  begin_script id token = pass_fence id token

  apply_first : String → Bool → Script Db Outcome
  apply_first n false = do write (N.hincrby keys.outcomes "deduped" (pos 1)); pure deduped
  apply_first n true = do
    write (N.hincrby keys.effects n (pos 1))
    write (N.hincrby keys.outcomes "applied" (pos 1))
    pure applied

  pub apply_passed : String → String → Bool → Script Db Outcome
  unfolding apply_first
  apply_passed id n false = pure fenced
  apply_passed id n true = do first ← run (N.hsetnx keys.applied id n); apply_first n first

  unfoldable pub apply_script : String → ℤ → String → Script Db Outcome
  unfolding pass_fence apply_passed
  apply_script id token n = do passed ← pass_fence id token; apply_passed id n passed

  unfoldable pub begin : Job → Script Db Bool
  unfolding begin_script
  begin job = begin_script job.id (fencing_token job)

  -- `n` is the number of the payload, as text.
  unfoldable pub apply : Job → String → Script Db Outcome
  unfolding apply_script
  apply job n = apply_script job.id (fencing_token job) n
