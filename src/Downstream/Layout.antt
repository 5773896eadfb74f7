-- ===== src/Downstream/Layout.antt =====
-- cmd/chaos/downstream.go: the keys of a run's downstream, for any prefix.
use Prim.Native.String.{◌++◌ as append}
use mathlib.Core.Bool.{false≢true}
use text.Mathlib.TextLemmas.{append_cancel_left}
use dist_tasks_go.Base.{
  ◌≤◌, ◌+ℤ◌, pos, String, ◌≡◌, sym, ◌∙◌, false, List, refl, str_eq, eq_iff, Bool-cases, inl, inr,
}
use dist_tasks_go.Redis.{Redis}
use dist_tasks_go.Downstream.{Counters, Keys}
use dist_tasks_go.Downstream.Once.{Apart, Call, serve, times_applied, times_applied-le_one}
use dist_tasks_go.Downstream.Effects.{Belongs, count-serve}

unfoldable pub keys_of : String → Keys
keys_of prefix = record {
  fence = append prefix "{ds}:fence";
  outcomes = append prefix "{ds}:outcomes";
  applied = append prefix "{ds}:applied";
  effects = append prefix "{ds}:effects";
}

-- Two keys with the same prefix differ as their ends do.
pub other_end :
    (prefix a b : String) → str_eq a b ≡ false → str_eq (append prefix a) (append prefix b) ≡ false
other_end prefix a b h = elim (Bool-cases (str_eq (append prefix a) (append prefix b))) [
  | inr apart ↦ apart
  | inl same ↦ absurd (
      false≢true (
        sym h
        ∙ (eq_iff a b).1
            (append_cancel_left prefix a b ((eq_iff (append prefix a) (append prefix b)).0 same))))
]

pub keys_of-Apart : (prefix : String) → Apart (keys_of prefix)
unfolding keys_of
keys_of-Apart prefix = record {
  fence_outcomes = other_end prefix "{ds}:outcomes" "{ds}:fence" refl;
  effects_fence = other_end prefix "{ds}:effects" "{ds}:fence" refl;
  applied_fence = other_end prefix "{ds}:applied" "{ds}:fence" refl;
  fence_applied = other_end prefix "{ds}:fence" "{ds}:applied" refl;
  outcomes_applied = other_end prefix "{ds}:outcomes" "{ds}:applied" refl;
  effects_applied = other_end prefix "{ds}:effects" "{ds}:applied" refl;
  fence_effects = other_end prefix "{ds}:fence" "{ds}:effects" refl;
  applied_effects = other_end prefix "{ds}:applied" "{ds}:effects" refl;
  outcomes_effects = other_end prefix "{ds}:outcomes" "{ds}:effects" refl;
}

module _ {R : Redis} (N : Counters R) (prefix : String) where
  -- For the downstream's keys under any prefix, and runs that begin and apply in any order and
  -- with any tokens, where a payload belongs to one job: at most one apply answers that it
  -- applied the effect of the job, and the payload's effects, as they are counted in the
  -- database, grow by just that number.
  pub effects_applied_once :
      (job n : String) (cs : List Call) (d : R.Db)
      → Belongs job n cs
      → let keys = keys_of prefix in
        let times = times_applied N keys (keys_of-Apart prefix) job cs d in
        (times ≤ 1)
        × (N.count (serve N keys (keys_of-Apart prefix) cs d) keys.effects n
            ≡ N.count d keys.effects n +ℤ pos times)
  effects_applied_once job n cs d own =
      let keys = keys_of prefix in
      let apart = keys_of-Apart prefix in
      (times_applied-le_one N keys apart job cs d, count-serve N keys apart job n cs d own)
