-- ===== src/Store/Scripts/FirstDelivery.antt =====
-- redisstream/scripts.go: what claimScript hands out.
use dist_tasks_go.Base.{
  ℕ, suc, ◌≤◌, String, ◌≡◌, sym, ◌∙◌, true, none, some, List, [], ◌∷◌, arith, ℤ, pos, length, All,
  eq_refl,
}
use dist_tasks_go.Queue.Job.{Lease}
use dist_tasks_go.Redis.{Redis, Entry, Fields, entry, has}
use dist_tasks_go.Store.Scripts.Promotion.{IsJson, promote-Moved}
use dist_tasks_go.Store.Scripts.{holds, owns, claim_script}

module _ (R : Redis) where
  open R use {Db, pending, hash, due, xreadgroup, read_pending, read_count, read_entries}

  -- A first delivery has count 1.
  has_here : (i : String) (es : List Entry) (f : Fields) → has i ((i, f) ∷ es) ≡ true
  unfolding has
  has_here i es f = ground (arith, eq_refl i)

  has_later :
      (i j : String) (es : List Entry) (f : Fields) → has i es ≡ true → has i ((j, f) ∷ es) ≡ true
  unfolding has
  has_later i j es f h = ground arith

  abbrev pub first_lease : String → String → Lease
  first_lease consumer id = record {
    message_id = id;
    owner = consumer;
    token = pos 1;
    partition = pos 0;
  }

  owned_first :
      (s g consumer : String) (n : ℤ) (d : Db) (es : List Entry)
      → All (λ x. has x.0 (xreadgroup s g consumer n d).0 ≡ true) es
      → All (λ x. owns R s g (first_lease consumer x.0) (xreadgroup s g consumer n d).1 ≡ true) es
  unfolding owns
  owned_first s g consumer n d [] h = tt
  owned_first s g consumer n d (x ∷ es) (h, hs) = (
    rw (read_pending s g consumer n d x.0, h) (unfold holds in ground (arith, eq_refl consumer)),
    owned_first s g consumer n d es hs,
  )

  every_had :
      (es all : List Entry)
      → ((i : String) → has i es ≡ true → has i all ≡ true)
      → All (λ x. has x.0 all ≡ true) es
  every_had [] all h = tt
  every_had ((i, f) ∷ es) all h =
      (h i (has_here i es f), every_had es all (λ j m. h j (has_later j i es f m)))

  -- Each entry was nobody's, and is the consumer's with token 1 when the script ends.
  abbrev pub FirstDelivered : String → String → String → Db → Db → Entry → Type 0
  FirstDelivered s g consumer d e x =
      (owns R s g (first_lease consumer x.0) e ≡ true)
      × (pending d s g x.0 ≡ none)
      × (entry x.0 (R.stream e s) ≡ some x.1)

  first_delivered :
      (s g consumer : String) (d m e : Db) (es : List Entry)
      → ((i : String) → pending m s g i ≡ pending d s g i)
      → R.stream e s ≡ R.stream m s
      → All (λ x. owns R s g (first_lease consumer x.0) e ≡ true) es
      → All (λ x. (pending m s g x.0 ≡ none) × (entry x.0 (R.stream m s) ≡ some x.1)) es
      → All (FirstDelivered s g consumer d e) es
  first_delivered s g consumer d m e [] same kept p q = tt
  first_delivered s g consumer d m e (x ∷ es) same kept (p, ps) (q, qs) = (
    (p, sym (same x.0) ∙ q.0, rw kept q.1),
    first_delivered s g consumer d m e es same kept ps qs,
  )

  -- Where the hash entries of the due IDs are JSON: the claim script answers with at most as many
  -- entries as it is asked for, and each of them was nobody's before and is the consumer's with
  -- token 1 when the script ends, with the fields that the stream has for it.
  pub claim-FirstDelivered :
      (s z h g consumer : String) (n : ℕ) (now : ℤ) (d : Db)
      → All (λ id. IsJson R z h s (hash d h id)) (due d z now (pos 100))
      → (es : List Entry) × (e : Db) × (claim_script R s z h g consumer (pos (suc n)) now d
          ≡ (some es, e))
        × (length es ≤ suc n)
        × All (FirstDelivered s g consumer d e) es
  unfolding claim_script
  claim-FirstDelivered s z h g consumer n now d json =
      let (m, eq, moved) = promote-Moved R z h s now (pos 100) d json in
      let got = xreadgroup s g consumer (pos (suc n)) m in
      (
        got.0,
        got.1,
        rw eq,
        read_count s g consumer n m,
        first_delivered s g consumer d m got.1 got.0 (λ i. moved.deliveries s g i)
            (R.read_stream s g consumer (pos (suc n)) m s)
            (owned_first s g consumer (pos (suc n)) m got.0 (every_had got.0 got.0 (λ i t. t)))
            (read_entries s g consumer (pos (suc n)) m),
      )
