-- ===== src/Tests/ChaosRuns.antt =====
-- The chaos run's report, handler and processes at concrete inputs.
use dist_tasks_go.Base.{
  ℕ, ◌==◌, String, ◌≡◌, ◌↔◌, refl, true, false, none, List, [], ◌∷◌, pos, arith, All, int64, ◌+ℤ◌,
  str_eq, if◌then◌else◌,
}
use dist_tasks_go.Queue.Job.{Result, ok, err, invalid_job}
use dist_tasks_go.Store.Claim.{Stats}
use dist_tasks_go.Store.Client.{delivered}
use dist_tasks_go.Memory.Tools.{mem_counters, mem_itoa, empty_db}
use dist_tasks_go.Chaos.{Execution, sort, overlaps, report}
use dist_tasks_go.Chaos.Overlap.{any_overlap, overlaps-sort}
use dist_tasks_go.Chaos.Pass.{Kept, SaysEmpty, below, report_iff}
use dist_tasks_go.Chaos.Handler.{Payload, Chaos, handler}
use dist_tasks_go.Chaos.Handler.Effects.{Outcomes, handler-Outcomes}
use dist_tasks_go.Chaos.Faults.{Fault, kill, mark, pause, resume, exits, replace, start}
use dist_tasks_go.Tests.Setup.{mail}
use dist_tasks_go.Tests.Runs.{hashes, hashes-Apart}

abbrev from_to : ℕ → ℕ → Execution
from_to a b = record { start = a; end = b }

abbrev three : List Execution
three = from_to 8 9 ∷ from_to 1 5 ∷ from_to 4 6 ∷ []

overlaps-sort_example : overlaps (sort three) ≡ any_overlap three
overlaps-sort_example = overlaps-sort three (omega arith, (omega arith, (omega arith, tt)))

overlaps-three : overlaps (sort three) ≡ true
unfolding overlaps sort
overlaps-three = refl

abbrev book : List (ℕ × Execution)
book = (1, from_to 1 5) ∷ (2, from_to 4 6) ∷ (1, from_to 8 9) ∷ []

abbrev buried : List (ℕ × String)
buried = (0, "permanent failure (chaos)") ∷ []

abbrev applied_once : ℕ → ℕ
applied_once n = if n == 0 then 0 else 1

abbrev all_gone : Result Stats
all_gone = ok (record {
  stream_length = pos 0;
  in_flight = pos 0;
  dead_letter_depth = pos 1;
  retry_scheduled = pos 0;
})

report_iff_example :
    (report book buried applied_once 3 all_gone 0 ≡ 0)
    ↔ (All (Kept book buried applied_once) (below 3) × SaysEmpty all_gone × (◌≡◌ {A = ℕ} 0 0))
report_iff_example =
    report_iff book buried applied_once 3 all_gone 0
      ((omega arith, omega arith), (omega arith, omega arith), (omega arith, omega arith))

passes : report book buried applied_once 3 all_gone 0 ≡ 0
unfolding report int64 ◌+ℤ◌
passes = refl

-- The job with payload 2 is lost.
fails : report ((1, from_to 1 5) ∷ []) buried applied_once 3 all_gone 0 ≡ 1
unfolding report int64 ◌+ℤ◌
fails = refl

abbrev payload_of : String → Result Payload
payload_of s =
    if str_eq s "{}"
    then ok (record { n = pos 7; latency_ms = pos 10; permanent = false })
    else err invalid_job

abbrev quiet : Chaos mem_counters hashes payload_of mem_itoa
quiet = record { db = empty_db; ledger = [] }

handler-Outcomes_example :
    Outcomes mem_counters hashes hashes-Apart payload_of mem_itoa delivered delivered delivered none
      false
      (pos 3)
      (pos 5)
      "w"
      mail
      (payload_of "{}")
      quiet
      (handler mem_counters hashes payload_of mem_itoa delivered delivered delivered none false
        (pos 3)
        (pos 5)
        "w"
        mail
        quiet)
handler-Outcomes_example =
    handler-Outcomes mem_counters hashes hashes-Apart payload_of mem_itoa delivered delivered
      delivered none false (pos 3) (pos 5) "w" mail quiet

abbrev faults : List Fault
faults =
    pause 0
    ∷ kill 1
    ∷ mark
    ∷ exits 3 true
    ∷ replace
    ∷ exits 2 true
    ∷ resume 1
    ∷ kill 0
    ∷ exits 1 true
    ∷ mark
    ∷ []
