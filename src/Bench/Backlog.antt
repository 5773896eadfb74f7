-- ===== src/Bench/Backlog.antt =====
-- cmd/bench/main.go: the backlog has each payload once.
use dist_tasks_go.Base.{
  ℕ, zero, suc, ◌+◌, ◌-◌, ◌≤◌, ◌<◌, min, ◌≡◌, refl, ◌&&◌, List, [], ◌∷◌, ltb, leb, ◌==◌,
  if◌then◌else◌, arith, Bool-cases, inl, inr,
}
use dist_tasks_go.Bench.{stride, strides, from_to, batches, backlog}

abbrev pub times : ℕ → List ℕ → ℕ
times x [] = 0
times x (y ∷ ys) = (if x == y then 1 else 0) + times x ys

-- How often a payload is in the lists together.
abbrev pub times_in : ℕ → List (List ℕ) → ℕ
times_in x [] = 0
times_in x (ys ∷ yss) = times x ys + times_in x yss

-- One where a ≤ x < b.
abbrev within : ℕ → ℕ → ℕ → ℕ
within x a b = if leb a x && ltb x b then 1 else 0

times-from_to : (x i k : ℕ) → times x (from_to i k) ≡ within x i (i + k)
unfolding from_to
times-from_to x i zero = ground arith
times-from_to x i (suc k) = ground (arith, times-from_to x (suc i) k)

within_join : (x a b n : ℕ) → a ≤ b → within x a (min b n) + within x b n ≡ within x a n
within_join x a b n h = ground arith

up_to : (a b n : ℕ) → a < n → a ≤ b → a + (min b n - a) ≡ min b n
up_to a b n h k = omega arith

times_in-batches :
    (x size n fuel first : ℕ)
    → 0 < size
    → n ≤ first + fuel
    → times_in x (batches size n fuel first) ≡ within x first n
unfolding batches
times_in-batches x size n zero first h e = ground arith
times_in-batches x size n (suc fuel) first h e = elim (Bool-cases (ltb first n)) [
  | inl more ↦
      rw
        (
          more,
          times-from_to x first (min (first + size) n - first),
          times_in-batches x size n fuel (first + size) h (omega (arith, e, h)),
        )
        (rw (up_to first (first + size) n (ground arith) (omega arith))
          (within_join x first (first + size) n (omega arith)))
  | inr done ↦ rw done (ground arith)
]

module _ (x step n : ℕ) where
  stride_beyond : (fuel i : ℕ) → n ≤ i → times x (stride step n fuel i) ≡ 0
  unfolding stride
  stride_beyond zero i h = refl
  stride_beyond (suc fuel) i h = ground arith

  stride_first :
      (fuel i : ℕ)
      → times x (stride step n (suc fuel) i)
        ≡ (if x == i && ltb i n then 1 else 0) + times x (stride step n fuel (i + step))
  unfolding stride
  stride_first fuel i = ground (arith, stride_beyond fuel (i + step))

  strides_spent : (p k : ℕ) → times_in x (strides step n 0 p k) ≡ 0
  unfolding strides stride
  strides_spent p zero = refl
  strides_spent p (suc k) = omega (arith, strides_spent (suc p) k)

  suc_sum : (p : ℕ) → suc p + step ≡ suc (p + step)
  suc_sum p = omega arith

  one_more :
      (p k u v : ℕ)
      → ((if x == p && ltb p n then 1 else 0) + u) + (within x (suc p) (min (suc p + k) n) + v)
        ≡ within x p (min (p + suc k) n) + (u + v)
  one_more p k u v = ground arith

  -- A round of all producers.
  strides_round :
      (fuel p k : ℕ)
      → times_in x (strides step n (suc fuel) p k)
        ≡ within x p (min (p + k) n) + times_in x (strides step n fuel (p + step) k)
  unfolding strides
  strides_round fuel p zero = ground arith
  strides_round fuel p (suc k) =
      rw (stride_first fuel p, strides_round fuel (suc p) k, suc_sum p)
        (one_more p k (times x (stride step n fuel (p + step)))
          (times_in x (strides step n fuel (suc (p + step)) k)))

  strides_all :
      (fuel p : ℕ)
      → 0 < step
      → n ≤ p + fuel
      → times_in x (strides step n fuel p step) ≡ within x p n
  strides_all zero p h e = ground (arith, strides_spent p step)
  strides_all (suc fuel) p h e =
      rw (strides_round fuel p step, strides_all fuel (p + step) h (omega (arith, e, h)))
        (within_join x p (p + step) n (omega arith))

-- With at least one producer: by single calls or in batches of any size, the benchmark enqueues
-- each payload below the number of jobs exactly once, and no other.
pub times_in-backlog :
    (x producers size jobs : ℕ)
    → 0 < producers
    → times_in x (backlog producers size jobs) ≡ (if ltb x jobs then 1 else 0)
unfolding backlog
times_in-backlog x producers size jobs h = elim (Bool-cases (leb size 1)) [
  | inl single ↦ ground (arith, strides_all x producers jobs jobs 0 h (omega arith))
  | inr batched ↦ ground (arith, times_in-batches x size jobs jobs 0)
]
