-- ===== src/Tests/AnswerRuns.antt =====
-- The worker's decisions and reports, and the jobs that are handed out, at concrete inputs.
use dist_tasks_go.Base.{
  String, ℕ, ◌+◌, ◌≤◌, ◌≡◌, refl, true, none, some, List, [], ◌∷◌, pos, ◌<ℤ◌, ◌≤ℤ◌, ◌-ℤ◌, ◌↔◌,
  if◌then◌else◌, ℤ, inl, arith, length, All, signed64, word64,
}
use dist_tasks_go.Queue.Job.{Job, ok, fencing_token, other}
use dist_tasks_go.Queue.Job.Token.{Fits, Later, fencing_token-lt}
use dist_tasks_go.Queue.Worker.{handle_one, process}
use dist_tasks_go.Queue.Worker.Reports.{ended, ends_well, GoneIf, process_accounted}
use dist_tasks_go.Queue.Backend.{Event, job_started, job_completed}
use dist_tasks_go.Metrics.{new_metrics, observe_all, on_started}
use dist_tasks_go.Metrics.Sweep.{NotBefore, hour_and_minute}
use dist_tasks_go.Metrics.Sweep.Recent.{replay, start_times_recent}
use dist_tasks_go.Memory.{MemDb, mem_due, pick_due}
use dist_tasks_go.Memory.Server.{mem_redis}
use dist_tasks_go.Memory.Tools.{mem_codec, mem_counters, empty_db, whole}
use dist_tasks_go.Store.Scripts.{owns}
use dist_tasks_go.Store.Client.{Store, delivered, refused}
use dist_tasks_go.Store.Claim.{claim_ready, recover_expired}
use dist_tasks_go.Store.Claim.Answers.{claim_ready-Held, recover_expired-Held}
use dist_tasks_go.Downstream.{fenced, seen, begin, apply}
use dist_tasks_go.Downstream.Zombie.{zombie_fenced}
use dist_tasks_go.Downstream.Once.{Call, begins, applies, serve}
use dist_tasks_go.Tests.Setup.{mail, shop, delivered_db, scheduled_db}
use dist_tasks_go.Tests.WorkerRuns.{shelf, worker, text, world}
use dist_tasks_go.Tests.Runs.{hashes, hashes-Apart, due_json}

process_accounted_example :
    let answer = (handle_one whole shelf worker text (pos 7) none mail world).0 in
    let before = observe_all (pos 9) world.events (new_metrics (pos 3)) in
    let after =
      observe_all
        (pos 9)
        (process whole shelf worker text (pos 7) none mail world).events
        (new_metrics (pos 3)) in
    (ended "send" after ≡ ended "send" before + (if ends_well answer then 1 else 0))
    × GoneIf (pos 9) mail (new_metrics (pos 3)) (ends_well answer) (after.start_times "7" "1")
process_accounted_example =
    process_accounted (pos 9) mail (new_metrics (pos 3)) whole shelf worker text (pos 7) none world

abbrev callbacks : List (ℕ × ℤ × Event)
callbacks = (5, pos 6, job_started mail) ∷ (9, pos 9, job_completed mail) ∷ []

start_times_recent_example : NotBefore (pos 20 -ℤ pos hour_and_minute) (
    (on_started (pos 20) (pos 21) mail (replay callbacks (new_metrics (pos 3)))).start_times "7"
      "1")
start_times_recent_example =
    start_times_recent 3 20 callbacks (pos 21) mail "7" "1"
      (omega arith, (omega arith, omega arith)) (omega arith)

abbrev mail_later : Job
mail_later = record mail { attempt = pos 1 }

mail-Fits : Fits mail 0 1
mail-Fits = record {
  attempt_eq = refl;
  token_eq = refl;
  attempt_small = omega arith;
  token_small = omega arith;
}

mail_later-Fits : Fits mail_later 1 1
mail_later-Fits = record {
  attempt_eq = refl;
  token_eq = refl;
  attempt_small = omega arith;
  token_small = omega arith;
}

fencing_token-lt_example : (fencing_token mail <ℤ fencing_token mail_later) ↔ Later 0 1 1 1
fencing_token-lt_example = fencing_token-lt mail mail_later 0 1 1 1 mail-Fits mail_later-Fits

seen_nothing : seen mem_counters hashes "7" empty_db ≤ℤ fencing_token mail_later
unfolding seen fencing_token signed64 word64
seen_nothing = omega arith

-- The older run begins again, and another job's effect comes in between.
abbrev between : List Call
between = begins mail.id (pos 1) ∷ applies "8" (pos 3) "1" ∷ []

zombie_fenced_example :
    let e =
      serve mem_counters hashes hashes-Apart between
        (begin mem_counters hashes mail_later empty_db).1 in
    let r = apply mem_counters hashes mail "42" e in
    (r.0 ≡ some fenced)
    × ((i : String) → r.1.hashes hashes.fence i ≡ e.hashes hashes.fence i)
    × ((i : String) → r.1.hashes hashes.applied i ≡ e.hashes hashes.applied i)
    × ((m : String) → r.1.counts hashes.effects m ≡ e.counts hashes.effects m)
zombie_fenced_example =
    zombie_fenced mem_counters hashes hashes-Apart mail mail_later "42" 0 1 1 1 between empty_db
      refl mail-Fits mail_later-Fits (inl (omega arith)) (omega arith) seen_nothing
      (refl, (refl, tt))

claim_ready-Held_example :
    (js : List Job) × (e : MemDb) × (claim_ready mem_codec shop delivered
        (λ id. delivered)
        (pos 4_000_000)
        "v"
        (pos 2)
        scheduled_db
      ≡ (ok js, e))
    × All (λ j. owns mem_redis "s" "g" j.lease e ≡ true) js
    × (length js ≤ 2)
unfolding mem_due pick_due
claim_ready-Held_example =
    claim_ready-Held mem_codec shop refl (λ id. delivered) "v" 1 (pos 4_000_000) scheduled_db
      (due_json, tt)

recover_expired-Held_example :
    (js : List Job) × (t : Store) × (e : MemDb) × (recover_expired mem_codec shop
        (refused (other "down"))
        delivered
        (λ id. delivered)
        (pos 8)
        (pos 5_000_000)
        "v"
        (pos 4)
        delivered_db
      ≡ (ok js, t, e))
    × All (λ j. owns mem_redis "s" "g" j.lease e ≡ true) js
recover_expired-Held_example =
    recover_expired-Held mem_codec shop refl (refused (other "down")) (λ id. delivered) (pos 8)
      (pos 5_000_000) "v" (pos 4) delivered_db (omega arith) refl
