-- ===== src/Bench.antt =====
-- cmd/bench/main.go: how the benchmark builds its backlog. A job is known
-- by its payload. The loops of the producers get as much fuel as there are jobs.
pub mod Backlog
use dist_tasks_go.Base.{
  ℕ, zero, suc, ◌+◌, ◌-◌, min, Bool, List, [], ◌∷◌, ◌++◌, ltb, leb, if◌then◌else◌,
}

-- The loop of one producer of `enqueue`, which is at i: every step-th payload below n.
unfoldable pub stride : ℕ → ℕ → ℕ → ℕ → List ℕ
stride step n zero i = []
stride step n (suc fuel) i =
    let rest = stride step n fuel (i + step) in if ltb i n then i ∷ rest else []

-- The producers from p on, k of them.
unfoldable pub strides : ℕ → ℕ → ℕ → ℕ → ℕ → List (List ℕ)
unfolding stride
strides step n fuel p zero = []
strides step n fuel p (suc k) = stride step n fuel p ∷ strides step n fuel (suc p) k

-- The payloads from i on, k of them.
unfoldable pub from_to : ℕ → ℕ → List ℕ
from_to i zero = []
from_to i (suc k) = i ∷ from_to (suc i) k

-- The batches of `enqueueBatched` from `first` on, whichever producers take them from the channel.
unfoldable pub batches : ℕ → ℕ → ℕ → ℕ → List (List ℕ)
unfolding from_to
batches size n zero first = []
batches size n (suc fuel) first =
    let rest = batches size n fuel (first + size) in
    if ltb first n then from_to first (min (first + size) n - first) ∷ rest else []

-- What throughput enqueues: by single calls, or in batches.
unfoldable pub backlog : ℕ → ℕ → ℕ → List (List ℕ)
unfolding strides batches
backlog producers size jobs =
    if leb size 1 then strides producers jobs jobs 0 producers else batches size jobs jobs 0
