-- ===== src/Sharded/Layout/Apart.antt =====
-- redisstream/sharded.go: the keys of different partitions, which NewSharded tells apart by their tags.
use Prim.Native.Char.{Char}
use Prim.Native.String.{[], ◌∷◌, ◌++◌}
use text.Mathlib.TextLemmas.{
  nil-append, cons-append, append_assoc, append_cancel_left, head-eq_of_cons-eq, tail-eq_of_cons-eq,
}
use dist_tasks_go.Base.{ℕ, String, ◌≡◌, ◌≢◌, refl, sym, ap, ◌∙◌}
use dist_tasks_go.Store.Client.{Config, with_defaults}
use dist_tasks_go.Sharded.Layout.{ShardedConfig, tag_of, part_config, kept}

-- The character is not in the text.
abbrev pub Without : Char → String → Type 0
Without c [] = Unit {0}
Without c (x ∷ s) = (x ≢ c) × Without c s

-- Two texts that go on after a character which neither has are the same if what they make is.
up_to_same :
    (c : Char) (x y u v : String) → Without c x → Without c y → x ++ (c ∷ u) ≡ y ++ (c ∷ v) → x ≡ y
up_to_same c [] [] u v h k e = refl
up_to_same c [] (b ∷ y) u v h (k, ks) e =
    absurd (k (sym (head-eq_of_cons-eq (sym (nil-append (c ∷ u)) ∙ e ∙ cons-append b y (c ∷ v)))))
up_to_same c (a ∷ x) [] u v (h, hs) k e =
    absurd (h (head-eq_of_cons-eq (sym (cons-append a x (c ∷ u)) ∙ e ∙ nil-append (c ∷ v))))
up_to_same c (a ∷ x) (b ∷ y) u v (h, hs) (k, ks) e =
    let same = sym (cons-append a x (c ∷ u)) ∙ e ∙ cons-append b y (c ∷ v) in
    let rest = up_to_same c x y u v hs ks (tail-eq_of_cons-eq same) in
    rw (head-eq_of_cons-eq same, rest) refl

-- A key that a store uses.
pub data IsKey (c : Config) : String → Type 0 where
  is_stream : IsKey c c.stream
  is_retry_key : IsKey c c.retry_key
  is_retry_data : IsKey c (c.retry_key ++ ":jobs")
  is_dead_letter : IsKey c c.dead_letter
  is_dedupe : (key : String) → IsKey c (c.dedupe_prefix ++ key)

abbrev pub brace : Char
brace = "}"

module _ (number : ℕ → String) where
  tag_split :
      (prefix : String) (p : ℕ) (rest : String)
      → tag_of number prefix p ++ rest ≡ prefix ++ (":{p" ++ (number p ++ (brace ∷ (":" ++ rest))))
  tag_split prefix p rest =
      append_assoc prefix (":{p" ++ (number p ++ "}:")) rest
      ∙ ap (λ t. prefix ++ t)
          (append_assoc ":{p" (number p ++ "}:") rest
            ∙ ap (λ t. ":{p" ++ t)
                (append_assoc (number p) "}:" rest
                  ∙ ap (λ t. number p ++ t) (cons-append brace ":" rest)))

  key_tagged :
      (c : ShardedConfig) (p : ℕ) (k : String)
      → IsKey (with_defaults (part_config number c p)) k
      → (rest : String) × (k ≡ tag_of number c.prefix p ++ rest)
  unfolding part_config with_defaults
  key_tagged c p k is_stream =
      ("jobs", rw (kept number (tag_of number c.prefix p) "jobs" refl) refl)
  key_tagged c p k is_retry_key =
      ("retry", rw (kept number (tag_of number c.prefix p) "retry" refl) refl)
  key_tagged c p k is_retry_data = (
    "retry" ++ ":jobs",
    rw (kept number (tag_of number c.prefix p) "retry" refl)
        (append_assoc (tag_of number c.prefix p) "retry" ":jobs"),
  )
  key_tagged c p k is_dead_letter =
      ("dead", rw (kept number (tag_of number c.prefix p) "dead" refl) refl)
  key_tagged c p k (is_dedupe key) = (
    "dedupe:" ++ key,
    rw (kept number (tag_of number c.prefix p) "dedupe:" refl)
        (append_assoc (tag_of number c.prefix p) "dedupe:" key),
  )

  -- Where the texts of numbers are different for different numbers and have no closing brace: no
  -- key of one partition is a key of another: not its stream, its schedule, its jobs, its dead
  -- letters or a dedupe key, whatever the idempotency keys of the jobs.
  pub IsKey-apart :
      (c : ShardedConfig) (p q : ℕ) (k : String)
      → (number p ≡ number q → p ≡ q)
      → Without brace (number p)
      → Without brace (number q)
      → p ≢ q
      → IsKey (with_defaults (part_config number c p)) k
      → ¬ IsKey (with_defaults (part_config number c q)) k
  IsKey-apart c p q k injective h hs apart one two =
      let (a, e) = key_tagged c p k one in
      let (b, e') = key_tagged c q k two in
      let same = sym (tag_split c.prefix p a) ∙ sym e ∙ e' ∙ tag_split c.prefix q b in
      let rests = append_cancel_left ":{p" _ _ (append_cancel_left c.prefix _ _ same) in
      apart (injective (up_to_same brace (number p) (number q) (":" ++ a) (":" ++ b) h hs rests))
