-- ===== src/Target/Keys.antt =====
-- internal/redisutil/redisutil.go: the keys of the queue that Open opens, which DeletePrefix finds by
-- their prefix.
use Prim.Native.String.{◌++◌ as append, len}
use text.Mathlib.Text.{starts_with}
use text.Mathlib.TextLemmas.{append_assoc, append-nil}
use text.Mathlib.TextPositions.{
  starts_with-append, len-append, slice-append_left, slice-append_right,
}
use dist_tasks_go.Base.{
  ℕ, zero, suc, ◌-◌, String, ◌≡◌, refl, sym, ap, true, false, Option, none, List, [], ◌∷◌, ℤ, pos,
  leb_ℤ, eq_ℤ, str_eq, if◌then◌else◌, All, Bool-cases, inl, inr, arith, pos_part, length,
}
use dist_tasks_go.Queue.Job.{Error, ok}
use dist_tasks_go.Store.Client.{Config, Store, with_defaults, new_with_client, fresh_store}
use dist_tasks_go.Sharded.Layout.{
  ShardedConfig, tag_of, part_config, new_parts, new_sharded, with_layout, kept,
}
use dist_tasks_go.Target.{
  Target, normalized, trim_colon, single_config, sharded_config, open_stores,
}

-- Every key that a store uses starts with the prefix; a dedupe key is the dedupe prefix and more.
pub record IsUnder (prefix : String) (s : Store) : Type 0 where
  pub stream : starts_with s.config.stream prefix ≡ true
  pub retry_key : starts_with s.config.retry_key prefix ≡ true
  pub retry_data : starts_with s.retry_data prefix ≡ true
  pub dead_letter : starts_with s.config.dead_letter prefix ≡ true
  pub dedupe : (key : String) → starts_with (append s.config.dedupe_prefix key) prefix ≡ true

trim_colon-append : (run : String) → trim_colon (append run ":") ≡ run
unfolding trim_colon
trim_colon-append run =
    let short : len (append run ":") - 1 ≡ len run = omega (arith, len-append run ":") in
    rw (short, len-append run ":", slice-append_right run ":") (slice-append_left run ":")

more_under : (prefix a b : String) → starts_with (append (append prefix a) b) prefix ≡ true
more_under prefix a b = rw (append_assoc prefix a b) (starts_with-append prefix (append a b))

twice_under :
    (prefix a b c : String) → starts_with (append (append (append prefix a) b) c) prefix ≡ true
twice_under prefix a b c = rw (append_assoc prefix a b) (more_under prefix (append a b) c)

-- The keys that are made from one base.
abbrev based : String → String → ℤ → ℤ → Config
based base group window idle = record {
  stream = append base "jobs";
  group = group;
  retry_key = append base "retry";
  dead_letter = append base "dead";
  dedupe_prefix = append base "dedupe:";
  dedupe_window = window;
  consumer_idle_timeout = idle;
}

module _ (number : ℕ → String) where
  based-IsUnder :
      (prefix base more group : String) (window idle : ℤ)
      → base ≡ append prefix more
      → IsUnder prefix (fresh_store (with_defaults (based base group window idle)))
  unfolding with_defaults
  based-IsUnder prefix base more group window idle e =
      rw
        (
          kept number base "jobs" refl,
          kept number base "dead" refl,
          kept number base "retry" refl,
          kept number base "dedupe:" refl,
          e,
        )
        (record {
          stream = more_under prefix more "jobs";
          retry_key = more_under prefix more "retry";
          retry_data = twice_under prefix more "retry" ":jobs";
          dead_letter = more_under prefix more "dead";
          dedupe = λ key. twice_under prefix more "dedupe:" key;
        })

  tag_under :
      (run : String) (p : ℕ)
      → tag_of number run p ≡ append (append run ":") (append "{p" (append (number p) "}:"))
  tag_under run p =
      rw (append_assoc run ":" (append "{p" (append (number p) "}:")))
        (ap (append run) (append_assoc ":" "{p" (append (number p) "}:")))

  parts-IsUnder :
      (created : ℕ → Option Error) (run : String) (window idle parts : ℤ) (p n : ℕ)
      → ((q : ℕ) → created q ≡ none)
      → let c : ShardedConfig = record {
        partitions = parts;
        prefix = run;
        dedupe_window = window;
        consumer_idle_timeout = idle;
      } in
        (ss : List Store) × (new_parts number created c p n ≡ ok ss)
        × (length ss ≡ n)
        × All (IsUnder (append run ":")) ss
  unfolding new_parts new_with_client part_config
  parts-IsUnder created run window idle parts p zero fine = ([], refl, refl, tt)
  parts-IsUnder created run window idle parts p (suc n) fine =
      let (ss, eq, len, good) = parts-IsUnder created run window idle parts (suc p) n fine in
      (
        fresh_store
              (with_defaults (based (tag_of number run p) (append run ":workers") window idle))
            ∷ ss,
        rw (fine p, eq) refl,
        ap suc len,
        (
          based-IsUnder (append run ":") (tag_of number run p)
              (append "{p" (append (number p) "}:")) (append run ":workers") window idle
              (tag_under run p),
          good,
        ),
      )

  -- How many stores a target has.
  abbrev pub stores_of : Target → ℕ
  stores_of t =
      if eq_ℤ (normalized t).partitions (pos 0)
      then 1
      else if leb_ℤ (normalized t).partitions (pos 0)
      then 16
      else pos_part (normalized t).partitions

  -- Where every group can be created, and the prefix is a name, which is not empty, and a colon:
  -- Open opens the one store of a target without partitions, else one for each partition, 16
  -- where their number is negative, and every key of each of them starts with the prefix: the
  -- stream, the schedule, its jobs, the dead letters and all dedupe keys.
  pub open_stores-IsUnder :
      (created : ℕ → Option Error) (t : Target) (run : String) (idle : ℤ)
      → ((q : ℕ) → created q ≡ none)
      → str_eq run "" ≡ false
      → (ss : List Store) × (open_stores number created t (append run ":") idle ≡ ok ss)
        × (length ss ≡ stores_of t)
        × All (IsUnder (append run ":")) ss
  unfolding open_stores single_config sharded_config new_with_client new_sharded with_layout
  open_stores-IsUnder created t run idle fine named =
      elim (Bool-cases (eq_ℤ (normalized t).partitions (pos 0))) [
        | inl one ↦
            rw (one, fine 0)
              (
                _ ∷ [],
                refl,
                refl,
                (
                  based-IsUnder (append run ":") (append run ":") ""
                      (append (append run ":") "workers") (pos 0) idle
                      (sym (append-nil (append run ":"))),
                  tt,
                ),
              )
        | inr many ↦ rw (many, trim_colon-append run, named) (several (normalized t).partitions)
      ]
    where
      several :
          (n : ℤ)
          → let c : ShardedConfig = record {
            partitions = if leb_ℤ n (pos 0) then pos 16 else n;
            prefix = run;
            dedupe_window = pos 0;
            consumer_idle_timeout = idle;
          } in
            (ss : List Store) × (new_parts number created c 0 (pos_part c.partitions) ≡ ok ss)
            × (length ss ≡ (if leb_ℤ n (pos 0) then 16 else pos_part n))
            × All (IsUnder (append run ":")) ss
      several n = elim (Bool-cases (leb_ℤ n (pos 0))) [
        | inl default ↦ rw default (parts-IsUnder created run (pos 0) idle (pos 16) 0 16 fine)
        | inr given ↦ rw given (parts-IsUnder created run (pos 0) idle n 0 (pos_part n) fine)
      ]
