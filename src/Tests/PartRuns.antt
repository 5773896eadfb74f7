-- ===== src/Tests/PartRuns.antt =====
-- The partitions at concrete inputs.
use dist_tasks_go.Base.{
  ℕ, suc, ◌≤◌, String, ◌≡◌, ◌≢◌, refl, Option, none, List, [], ◌∷◌, arith, eq_iff, length, take,
  length-take, map,
}
use dist_tasks_go.Queue.Job.{Job, Error}
use dist_tasks_go.Sharded.{Hash, group, partitions, on_group, per_partition, tag_job}
use dist_tasks_go.Sharded.Routing.{per_partition-group}
use dist_tasks_go.Tests.Setup.{mail, mail_again}

abbrev sums : Hash
sums = record { sum32 = λ s. 7 }

keyed : ◌≢◌ {A = String} "k" ""
keyed = ground (arith, eq_iff "k" "")

-- Each partition is a list of jobs; leasing takes from one of two.
abbrev lease_from : ℕ → ℕ → List Job → List Job × Option Error × List Job
lease_from p n s = (take n s, none, s)

take-bounded : (p n : ℕ) (s : List Job) → length (lease_from p n s).0 ≤ n
take-bounded p n s = omega (arith, length-take {0} n s)

abbrev settle_all : ℕ → List Job → ℕ → List (Option Error) × ℕ
settle_all p js s = (map (λ j. none) js, suc s)

length-settle_all : (p : ℕ) (js : List Job) (s : ℕ) → length (settle_all p js s).0 ≡ length js
length-settle_all p [] s = refl
length-settle_all p (j ∷ js) s = omega (arith, length-settle_all p js s)

abbrev two : List Job
two = tag_job 1 mail ∷ tag_job 0 mail_again ∷ []

per_partition-group_example :
    let r = per_partition 2 settle_all two (λ p. 0) in
    let ps = partitions 2 two in
    (length r.0 ≡ 2)
    × ((p : ℕ) → group p ps r.0 ≡ (on_group [] (settle_all p) (group p ps two) 0).0)
per_partition-group_example = per_partition-group 2 settle_all length-settle_all two (λ p. 0)
