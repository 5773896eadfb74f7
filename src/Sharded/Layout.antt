-- ===== src/Sharded/Layout.antt =====
-- redisstream/sharded.go: NewSharded, the configuration of each partition's store. The connections
-- are left out. `number` is the text of a number.
pub mod Apart
use Prim.Native.String.{◌++◌ as append}
use mathlib.Core.Bool.{false≢true}
use text.Mathlib.TextLemmas.{append-eq-nil_iff}
use dist_tasks_go.Base.{
  ℕ, zero, suc, String, ◌≡◌, refl, sym, ◌∙◌, ap, Bool, true, false, Option, none, List, [], ◌∷◌, ℤ,
  pos, leb_ℤ, pos_part, str_eq, eq_iff, if◌then◌else◌, length, All, Bool-cases, inl, inr,
}
use dist_tasks_go.Queue.Job.{Error, Result, ok, err, wrapped}
use dist_tasks_go.Store.Client.{Config, Store, with_defaults, new_with_client, fresh_store}
use dist_tasks_go.Downstream.Layout.{other_end}

pub record ShardedConfig : Type 0 where
  pub partitions : ℤ
  pub prefix : String
  pub dedupe_window : ℤ
  pub consumer_idle_timeout : ℤ

unfoldable pub with_layout : ShardedConfig → ShardedConfig
with_layout c = record c {
  partitions = if leb_ℤ c.partitions (pos 0) then pos 16 else c.partitions;
  prefix = if str_eq c.prefix "" then "dtq" else c.prefix;
}

module _ (number : ℕ → String) where
  abbrev pub tag_of : String → ℕ → String
  tag_of prefix p = append prefix (append ":{p" (append (number p) "}:"))

  unfoldable pub part_config : ShardedConfig → ℕ → Config
  part_config c p = record {
    stream = append (tag_of c.prefix p) "jobs";
    group = append c.prefix ":workers";
    retry_key = append (tag_of c.prefix p) "retry";
    dead_letter = append (tag_of c.prefix p) "dead";
    dedupe_prefix = append (tag_of c.prefix p) "dedupe:";
    dedupe_window = c.dedupe_window;
    consumer_idle_timeout = c.consumer_idle_timeout;
  }

  cons_part : Result Store → Result (List Store) → Result (List Store)
  cons_part (err e) rest = err (wrapped "partition" e)
  cons_part (ok s) (err e) = err e
  cons_part (ok s) (ok ss) = ok (s ∷ ss)

  -- The partitions from one on, `n` of them; `created` is the error of each XGROUP CREATE.
  unfoldable pub new_parts : (ℕ → Option Error) → ShardedConfig → ℕ → ℕ → Result (List Store)
  unfolding cons_part part_config
  new_parts created c p zero = ok []
  new_parts created c p (suc n) =
      cons_part (new_with_client (part_config c p) (created p)) (new_parts created c (suc p) n)

  unfoldable pub new_sharded : (ℕ → Option Error) → ShardedConfig → Result (List Store)
  unfolding new_parts with_layout
  new_sharded created c = let d = with_layout c in new_parts created d 0 (pos_part d.partitions)

  -- The streams, the schedule and the dead letters of a store are different keys.
  pub record IsLaidOut (s : Store) : Type 0 where
    pub dead_stream : str_eq s.config.dead_letter s.config.stream ≡ false
    pub retry_stream : str_eq s.config.retry_key s.config.stream ≡ false
    pub retry_dead : str_eq s.config.retry_key s.config.dead_letter ≡ false

  pub kept : (t a : String) → str_eq a "" ≡ false → str_eq (append t a) "" ≡ false
  kept t a h = elim (Bool-cases (str_eq (append t a) "")) [
    | inr apart ↦ apart
    | inl same ↦ absurd (
        false≢true (
          sym h
          ∙ (eq_iff a "").1
              ((append-eq-nil_iff {p = t} {q = a}).0 ((eq_iff (append t a) "").0 same)).1))
  ]

  part-IsLaidOut :
      (c : ShardedConfig) (p : ℕ) → IsLaidOut (fresh_store (with_defaults (part_config c p)))
  unfolding with_defaults part_config
  part-IsLaidOut c p =
      let t = tag_of c.prefix p in
      rw (kept t "jobs" refl, kept t "dead" refl, kept t "retry" refl)
        (record {
          dead_stream = other_end t "dead" "jobs" refl;
          retry_stream = other_end t "retry" "jobs" refl;
          retry_dead = other_end t "retry" "dead" refl;
        })

  new_parts-IsLaidOut :
      (created : ℕ → Option Error) (c : ShardedConfig) (p n : ℕ)
      → ((q : ℕ) → created q ≡ none)
      → (ss : List Store) × (new_parts created c p n ≡ ok ss) × (length ss ≡ n) × All IsLaidOut ss
  unfolding new_parts new_with_client
  new_parts-IsLaidOut created c p zero fine = ([], refl, refl, tt)
  new_parts-IsLaidOut created c p (suc n) fine =
      let (ss, eq, len, good) = new_parts-IsLaidOut created c (suc p) n fine in
      (
        fresh_store (with_defaults (part_config c p)) ∷ ss,
        rw (fine p, eq) refl,
        ap suc len,
        (part-IsLaidOut c p, good),
      )

  -- Where every group can be created: NewSharded opens as many partitions as the configuration asks
  -- for, 16 where that is none, and in each of them the stream, the schedule and the dead letters are
  -- different keys.
  pub new_sharded-IsLaidOut :
      (created : ℕ → Option Error) (c : ShardedConfig)
      → ((q : ℕ) → created q ≡ none)
      → (ss : List Store) × (new_sharded created c ≡ ok ss)
        × (length ss ≡ (if leb_ℤ c.partitions (pos 0) then 16 else pos_part c.partitions))
        × All IsLaidOut ss
  unfolding new_sharded with_layout
  new_sharded-IsLaidOut created c fine =
      let (ss, eq, len, good) =
        new_parts-IsLaidOut created (with_layout c) 0 (pos_part (with_layout c).partitions) fine in
      (ss, eq, len ∙ same (leb_ℤ c.partitions (pos 0)), good)
    where
      same :
          (t : Bool)
          → pos_part (if t then pos 16 else c.partitions)
            ≡ (if t then 16 else pos_part c.partitions)
      same true = refl
      same false = refl
