-- ===== src/Queue/Retry/Delay.antt =====
-- queue/retry.go: NextDelay as a formula, and where it leaves the range of an int64.
use native.Mathlib.Nat.{pow-suc, one-le-pow}
use dist_tasks_go.Base.{
  ℕ, true, zero, suc, ◌*◌, ◌^◌, ◌≤◌, ◌<◌, min, ◌≡◌, ap, arith, ℤ, pos, ◌+ℤ◌, ◌≤ℤ◌, ◌<ℤ◌, min_ℤ,
  int64, Bool-cases, inl, inr,
}
use dist_tasks_go.Queue.Retry.{
  double_until, capped_delay, Floats, RetryPolicy, next_delay, jittered,
}

doubled : (d : ℕ) → d < 2 ^ 62 → int64 (pos d +ℤ pos d) ≡ pos (2 * d)
unfolding int64 ◌+ℤ◌
doubled d h = ground arith

-- A product by a power of two, one factor at a time.
mul-pow-suc : (d n : ℕ) → d * 2 ^ suc n ≡ 2 * d * 2 ^ n
mul-pow-suc d n = omega (arith, ap (λ (t : ℕ). d * t) (pow-suc 2 n))

mul-pow-ge : (d n : ℕ) → d ≤ d * 2 ^ n
mul-pow-ge d n = grind (arith, one-le-pow n 2)

-- The loop reaches d * 2^n unless the maximum stops it, and never leaves int64 below 2^62.
double_until-min :
    (n d m : ℕ)
    → m ≤ 2 ^ 62
    → min_ℤ (double_until n (pos m) (pos d)) (pos m) ≡ pos (min (d * 2 ^ n) m)
unfolding double_until
double_until-min zero d m h = ground arith
double_until-min (suc n) d m h =
    ground (arith, doubled d, double_until-min n (2 * d) m h, mul-pow-suc d n, mul-pow-ge d (suc n))

-- With positive durations and a maximum of at most 2^62 ns, the delay before jitter of attempt n
-- + 1 is the base times 2^n, or the maximum where that is less.
pub capped_delay-min :
    (b m n : ℕ)
    → 0 < b
    → 0 < m
    → m ≤ 2 ^ 62
    → capped_delay (pos b) (pos m) (pos (suc n)) ≡ pos (min (b * 2 ^ n) m)
unfolding capped_delay
capped_delay-min zero m n p q h = absurd (omega arith)
capped_delay-min (suc b) zero n p q h = absurd (omega arith)
capped_delay-min (suc b) (suc m) n p q h = ground (arith, double_until-min n (suc b) (suc m) h)

-- An attempt below 1 counts as 1, and zero durations stand for 1 s and 30 s.
pub capped_delay_default : (a : ℤ) → a ≤ℤ pos 1 → capped_delay (pos 0) (pos 0) a ≡ pos 1_000_000_000
unfolding capped_delay double_until
capped_delay_default a h = ground arith

-- What IEEE 754 says of the operations, for the order `le` of floats that are numbers: a product with a
-- factor in [0, 1] is no more than the other factor; where s is a part of an integer d of at most 2^51 and
-- r is a part of s, d - s + r, which rounds twice, is truncated to an integer between 0 and d. The draw
-- of rand.Float64 is in [0, 1).
pub record FloatLaws (F : Floats) : Type 1 where
  pub le : F.Float → F.Float → Type 0
  pub ltb-le : (x y : F.Float) → F.ltb x y ≡ true → le x y
  pub min-le : (x y : F.Float) → F.ltb F.zero (F.min x y) ≡ true → le (F.min x y) y
  pub of_int-le : (d : ℕ) → le F.zero (F.of_int (pos d))
  pub draw_positive : le F.zero F.draw
  pub draw_small : le F.draw F.one
  pub mul_positive : (x y : F.Float) → le F.zero x → le F.zero y → le F.zero (F.mul x y)
  pub mul_left : (x u : F.Float) → le F.zero x → le F.zero u → le u F.one → le (F.mul x u) x
  pub mul_right : (u x : F.Float) → le F.zero x → le F.zero u → le u F.one → le (F.mul u x) x
  pub trunc_part :
      (d : ℕ) (s r : F.Float)
      → d ≤ 2 ^ 51
      → le F.zero s
      → le s (F.of_int (pos d))
      → le F.zero r
      → le r s
      → (k : ℕ) × (F.trunc (F.add (F.sub (F.of_int (pos d)) s) r) ≡ pos k) × (k ≤ d)

module _ (F : Floats) (L : FloatLaws F) where
  -- The jitter of a factor above 0 and at most 1 stays between 0 and the delay.
  jittered-le :
      (j : F.Float) (d : ℕ)
      → L.le F.zero j
      → L.le j F.one
      → d ≤ 2 ^ 51
      → (r : ℕ) × (jittered F j (pos d) ≡ pos r) × (r ≤ d)
  unfolding jittered
  jittered-le j d lo hi small =
      let of = F.of_int (pos d) in
      let spread = F.mul of j in
      let spread_positive = L.mul_positive of j (L.of_int-le d) lo in
      L.trunc_part d spread (F.mul F.draw spread) small spread_positive
        (L.mul_left of j (L.of_int-le d) lo hi)
        (L.mul_positive F.draw spread L.draw_positive spread_positive)
        (L.mul_right F.draw spread spread_positive L.draw_positive L.draw_small)

  -- With positive durations, a maximum of at most 2^51 ns, floats that follow IEEE 754 and a draw
  -- in [0, 1): whatever the jitter, the delay of attempt n + 1 is between 0 and the base times
  -- 2^n capped at the maximum.
  pub next_delay_bounds :
      (p : RetryPolicy F) (b m n : ℕ)
      → p.base_delay ≡ pos b
      → p.max_delay ≡ pos m
      → 0 < b
      → 0 < m
      → m ≤ 2 ^ 51
      → (r : ℕ) × (next_delay F p (pos (suc n)) ≡ pos r) × (r ≤ min (b * 2 ^ n) m)
  unfolding next_delay
  next_delay_bounds p b m n eb em hb hm h =
      let j = F.min (F.max p.jitter F.zero) F.one in
      elim (Bool-cases (F.ltb F.zero j)) [
        | inl on ↦
            let (r, e, le) =
              jittered-le j (min (b * 2 ^ n) m) (L.ltb-le F.zero j on)
                (L.min-le (F.max p.jitter F.zero) F.one on) (omega arith) in
            (r, rw (eb, em, capped_delay-min b m n hb hm (omega arith), on) e, le)
        | inr off ↦ (
          min (b * 2 ^ n) m,
          rw (eb, em, capped_delay-min b m n hb hm (omega arith), off),
          omega arith,
        )
      ]

wrapped : (d : ℕ) → 2 ^ 62 ≤ d → d < 2 ^ 63 → int64 (pos d +ℤ pos d) <ℤ pos 0
unfolding int64 ◌+ℤ◌
wrapped d lo hi = ground arith

double_until_wraps :
    (k d m : ℕ)
    → 2 ^ 62 ≤ d * 2 ^ k
    → d * 2 ^ k < m
    → m < 2 ^ 63
    → double_until (suc k) (pos m) (pos d) <ℤ pos 0
unfolding double_until
double_until_wraps zero d m lo hi top = ground (arith, wrapped d)
double_until_wraps (suc k) d m lo hi top =
    ground (arith, mul-pow-suc d k, mul-pow-ge (2 * d) k, doubled d, double_until_wraps k (2 * d) m)

-- Where the base times 2^k is at least 2^62 ns and below the maximum, and the maximum below 2^63:
-- the delay before jitter of attempt k + 2 is negative.
pub capped_delay_wraps :
    (b m k : ℕ)
    → 0 < b
    → 2 ^ 62 ≤ b * 2 ^ k
    → b * 2 ^ k < m
    → m < 2 ^ 63
    → capped_delay (pos b) (pos m) (pos (suc (suc k))) <ℤ pos 0
unfolding capped_delay
capped_delay_wraps zero m k p lo hi top = absurd (omega arith)
capped_delay_wraps (suc b) zero k p lo hi top = absurd (omega arith)
capped_delay_wraps (suc b) (suc m) k p lo hi top =
    ground (arith, double_until_wraps k (suc b) (suc m))
