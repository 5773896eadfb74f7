-- ===== src/Sharded/Poll/Counting.antt =====
-- How many partitions of the first n have a flag.
use dist_tasks_go.Base.{
  ℕ, zero, suc, ◌+◌, ◌≤◌, ◌<◌, ◌≡◌, refl, Bool, true, false, arith, if◌then◌else◌,
}
use dist_tasks_go.Sharded.Poll.{set_at}

abbrev pub one_if : Bool → ℕ
one_if b = if b then 1 else 0

pub count_true : ℕ → (ℕ → Bool) → ℕ
count_true zero f = 0
count_true (suc n) f = one_if (f n) + count_true n f

pub count_true-le : (n : ℕ) (f : ℕ → Bool) → count_true n f ≤ n
unfolding count_true
count_true-le zero f = omega arith
count_true-le (suc n) f = ground (arith, count_true-le n f)

-- Clearing a flag beyond the range changes nothing, within it one less.
count_true-beyond :
    (n p : ℕ) (f : ℕ → Bool) → n ≤ p → count_true n (set_at p false f) ≡ count_true n f
unfolding count_true
count_true-beyond zero p f h = refl
count_true-beyond (suc n) p f h = ground (arith, count_true-beyond n p f)

pub count_true-clear :
    (n p : ℕ) (f : ℕ → Bool)
    → p < n
    → f p ≡ true
    → suc (count_true n (set_at p false f)) ≡ count_true n f
unfolding count_true
count_true-clear zero p f h e = absurd (omega arith)
count_true-clear (suc n) p f h e = ground (arith, count_true-clear n p f, count_true-beyond n p f)

pub count_true-clear_le :
    (n p : ℕ) (f : ℕ → Bool) → count_true n (set_at p false f) ≤ count_true n f
unfolding count_true
count_true-clear_le zero p f = omega arith
count_true-clear_le (suc n) p f = ground (arith, count_true-clear_le n p f)

pub count_true-none : (n : ℕ) → count_true n (λ p. false) ≡ 0
unfolding count_true
count_true-none zero = refl
count_true-none (suc n) = omega (arith, count_true-none n)
