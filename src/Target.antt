-- ===== src/Target.antt =====
-- internal/redisutil/redisutil.go: the Redis that a tool runs against, and how the queue is laid out on
-- it. The clients, DeletePrefix and CPUSeconds are left out.
pub mod Keys
pub mod Child
use Prim.Native.String.{◌++◌ as append, slice, len}
use text.Mathlib.Text.{starts_with}
use dist_tasks_go.Base.{
  ℕ, ◌-◌, String, Bool, true, false, not, ◌&&◌, Option, none, some, List, [], ◌∷◌, ℤ, pos, leb_ℤ,
  ltb_ℤ, eq_ℤ, str_eq, if◌then◌else◌, map,
}
use dist_tasks_go.Queue.Job.{Error, Result, ok, err}
use dist_tasks_go.Store.Client.{Config, Store, new_with_client}
use dist_tasks_go.Sharded.Layout.{ShardedConfig, new_sharded}

pub record Target : Type 0 where
  pub addr : String
  pub cluster : String
  pub partitions : ℤ

unfoldable pub normalized : Target → Target
normalized t =
    if not (str_eq t.cluster "") && leb_ℤ t.partitions (pos 0)
    then record t { partitions = pos 16 }
    else t

-- The values of RegisterFlags before a flag is read.
abbrev pub default_target : Target
default_target = record { addr = "localhost:6379"; cluster = ""; partitions = pos 0 }

-- strings.TrimSuffix (prefix, ":")
unfoldable pub trim_colon : String → String
trim_colon s = if str_eq (slice s (len s - 1) (len s)) ":" then slice s 0 (len s - 1) else s

-- The numbers of package strconv: Itoa, and what the flag package reads with ParseInt.
pub record Numbers : Type 0 where
  pub itoa : ℤ → String
  pub parse_int : String → Option ℤ

module _ (N : Numbers) where
  -- The flags that recreate a target, by name and value.
  unfoldable pub args : Target → List (String × String)
  unfolding normalized
  args t =
      ("redis", t.addr)
      ∷ ("cluster", t.cluster)
      ∷ ("partitions", N.itoa (normalized t).partitions)
      ∷ []

  set_partitions : Target → Option ℤ → Option Target
  set_partitions t none = none
  set_partitions t (some n) = some (record t { partitions = n })

  -- The flags of RegisterFlags, one of them read.
  unfoldable pub set_flag : String → String → Target → Option Target
  unfolding set_partitions
  set_flag name value t =
      if str_eq name "redis"
      then some (record t { addr = value })
      else if str_eq name "cluster"
      then some (record t { cluster = value })
      else if str_eq name "partitions"
      then set_partitions t (N.parse_int value)
      else none

  after_flag : Option Target → (Target → Option Target) → Option Target
  after_flag none rest = none
  after_flag (some t) rest = rest t

  unfoldable pub read_flags : List (String × String) → Target → Option Target
  unfolding after_flag set_flag
  read_flags [] t = some t
  read_flags ((name, value) ∷ flags) t = after_flag (set_flag name value t) (read_flags flags)

  -- String.
  unfoldable pub describe : Target → String
  unfolding normalized
  describe t0 =
      let t = normalized t0 in
      if not (str_eq t.cluster "")
      then append "Redis Cluster at "
          (append t.cluster (append ", " (append (N.itoa t.partitions) " partitions")))
      else if ltb_ℤ (pos 0) t.partitions
      then append "Redis at "
          (append t.addr (append ", " (append (N.itoa t.partitions) " partitions")))
      else append "Redis at " (append t.addr ", unsharded")

-- strings.Split (cluster, ",") is a parameter.
unfoldable pub seeds : (String → List String) → Target → List String
seeds split t = if not (str_eq t.cluster "") then split t.cluster else t.addr ∷ []

abbrev pub one_store : Result Store → Result (List Store)
one_store (err e) = err e
one_store (ok s) = ok (s ∷ [])

-- The configuration of the one stream of a queue without partitions.
unfoldable pub single_config : String → ℤ → Config
single_config prefix idle = record {
  stream = append prefix "jobs";
  group = append prefix "workers";
  retry_key = append prefix "retry";
  dead_letter = append prefix "dead";
  dedupe_prefix = append prefix "dedupe:";
  dedupe_window = pos 0;
  consumer_idle_timeout = idle;
}

unfoldable pub sharded_config : Target → String → ℤ → ShardedConfig
unfolding trim_colon
sharded_config t prefix idle = record {
  partitions = t.partitions;
  prefix = trim_colon prefix;
  dedupe_window = pos 0;
  consumer_idle_timeout = idle;
}

-- Open, the stores it makes: one, or one for each partition. `number` is the text of a number, and
-- `created` the error of each XGROUP CREATE.
unfoldable pub open_stores :
    (ℕ → String) → (ℕ → Option Error) → Target → String → ℤ → Result (List Store)
unfolding normalized new_with_client new_sharded single_config sharded_config
open_stores number created t0 prefix idle =
    let t = normalized t0 in
    if eq_ℤ t.partitions (pos 0)
    then one_store (new_with_client (single_config prefix idle) (created 0))
    else new_sharded number created (sharded_config t prefix idle)

-- The configurations that Open returns beside the backend.
abbrev pub configs_of : List Store → List Config
configs_of [] = []
configs_of (s ∷ ss) = s.config ∷ configs_of ss
