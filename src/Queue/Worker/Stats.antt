-- ===== src/Queue/Worker/Stats.antt =====
-- queue/worker.go: reportStats. A reading of the backend's statistics is a result, one for each tick.
use dist_tasks_go.Base.{◌≡◌, refl, Option, some, List, [], ◌∷◌}
use dist_tasks_go.Queue.Job.{Result, ok, err}
use dist_tasks_go.Store.Claim.{Stats}
use dist_tasks_go.Metrics.{Metrics, stats_observed}

unfoldable pub report_stats : List (Result Stats) → Metrics → Metrics
unfolding stats_observed
report_stats [] m = m
report_stats (ok st ∷ ticks) m = report_stats ticks (stats_observed st m)
report_stats (err e ∷ ticks) m = report_stats ticks m

-- The last reading that went well, or a default.
last_good : List (Result Stats) → Option Stats → Option Stats
last_good [] o = o
last_good (ok st ∷ ticks) o = last_good ticks (some st)
last_good (err e ∷ ticks) o = last_good ticks o

-- The gauges show the last reading that went well, and failed readings and later ticks leave the
-- table of start times as it is.
report_stats_gauges :
    (ticks : List (Result Stats)) (m : Metrics)
    → ((report_stats ticks m).gauges ≡ last_good ticks m.gauges)
      × ((report_stats ticks m).start_times ≡ m.start_times)
unfolding report_stats last_good
report_stats_gauges [] m = (refl, refl)
report_stats_gauges (ok st ∷ ticks) m = report_stats_gauges ticks (stats_observed st m)
report_stats_gauges (err e ∷ ticks) m = report_stats_gauges ticks m
