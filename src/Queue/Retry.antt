-- ===== src/Queue/Retry.antt =====
-- queue/retry.go: the delay before a retry. A duration is an int64 of nanoseconds. Floating point is
-- a parameter: the type, the operations of the source on it, and the draw of rand.Float64.
pub mod Delay
use dist_tasks_go.Base.{
  ℕ, zero, suc, ◌-◌, ◌*◌, Bool, ℤ, pos, pos_part, ◌+ℤ◌, ltb_ℤ, leb_ℤ, min_ℤ, int64, if◌then◌else◌,
}
use dist_tasks_go.Queue.Job.{Job, exhausted}

-- float64 and rand.Float64.
pub record Floats : Type 1 where
  pub Float : Type 0
  pub zero : Float
  pub one : Float
  pub of_int : ℤ → Float
  pub trunc : Float → ℤ
  pub ltb : Float → Float → Bool
  pub min : Float → Float → Float
  pub max : Float → Float → Float
  pub add : Float → Float → Float
  pub sub : Float → Float → Float
  pub mul : Float → Float → Float
  pub draw : Float

abbrev pub second : ℕ
second = 1_000_000_000

-- `delay *= 2`, at most n times, while the delay is below the maximum.
unfoldable pub double_until : ℕ → ℤ → ℤ → ℤ
double_until zero max delay = delay
double_until (suc n) max delay =
    let rest = double_until n max (int64 (delay +ℤ delay)) in
    if ltb_ℤ delay max then rest else delay

-- A zero duration stands for a default.
abbrev pub or_default : ℤ → ℤ → ℤ
or_default (pos zero) d = d
or_default z d = z

-- NextDelay up to the jitter. The loop counts from 1, so it runs at most attempt - 1 times.
unfoldable pub capped_delay : ℤ → ℤ → ℤ → ℤ
unfolding double_until
capped_delay base max attempt =
    let n = if ltb_ℤ attempt (pos 1) then 1 else pos_part attempt in
    let b = or_default base (pos second) in
    let m = or_default max (pos (30 * second)) in min_ℤ (double_until (n - 1) m b) m

unfoldable pub should_dead_letter : Job → Bool
should_dead_letter = exhausted

module _ (F : Floats) where
  open F use {Float, draw}

  pub record RetryPolicy : Type 0 where
    pub base_delay : ℤ
    pub max_delay : ℤ
    pub jitter : Float

  -- The last `jitter` fraction of a delay, drawn at random.
  unfoldable pub jittered : Float → ℤ → ℤ
  jittered j delay =
      let spread = F.mul (F.of_int delay) j in
      F.trunc (F.add (F.sub (F.of_int delay) spread) (F.mul draw spread))

  unfoldable pub next_delay : RetryPolicy → ℤ → ℤ
  next_delay p attempt =
      let delay = capped_delay p.base_delay p.max_delay attempt in
      let j = F.min (F.max p.jitter F.zero) F.one in
      if F.ltb F.zero j then jittered j delay else delay
