-- ===== src/Tests/SessionRuns.antt =====
-- A worker over the store, at concrete inputs.
use dist_tasks_go.Base.{
  String, ◌≡◌, ◌⊎◌, refl, none, some, List, [], ◌∷◌, pos, true, ◌+ℤ◌, arith, ◌-ℤ◌,
}
use dist_tasks_go.Queue.Job.{Job, ok, other, exhausted, validate, no_lease}
use dist_tasks_go.Queue.Producer.{Request, new_job, enqueue}
use dist_tasks_go.Queue.Backend.{World, Event, job_lease_lost}
use dist_tasks_go.Queue.Worker.{handle_one, process}
use dist_tasks_go.Queue.Worker.Verdict.{verdict, silent}
use dist_tasks_go.Queue.Worker.Run.{RunEvent, cancel, leave_loop, poll, finish, start, run}
use dist_tasks_go.Queue.Worker.Run.Drain.{Inv}
use dist_tasks_go.Redis.{entry, has}
use dist_tasks_go.Memory.{MemDb, mem_xautoclaim, pick}
use dist_tasks_go.Memory.Server.{mem_redis}
use dist_tasks_go.Memory.Tools.{mem_codec, whole}
use dist_tasks_go.Store.Scripts.{recover_script, owns}
use dist_tasks_go.Store.Client.{delivered, lost}
use dist_tasks_go.Store.Claim.{nothing}
use dist_tasks_go.Store.Backend.{Surroundings, Session, store_backend}
use dist_tasks_go.Store.Backend.Limits.{store_backend-IsBounded, store_run-Inv}
use dist_tasks_go.Store.Backend.Handled.{Becomes, handle_one-Becomes}
use dist_tasks_go.Store.Backend.Zombie.{recovered_run-job_lease_lost}
use dist_tasks_go.Store.Backend.Again.{key_of, enqueue_again}
use dist_tasks_go.Chaos.Enqueues.{Draws, enqueue_jobs}
use dist_tasks_go.Chaos.Enqueues.Retried.{chaos_enqueues_done}
use dist_tasks_go.Tests.Setup.{mail, shop, delivered_db, some_fields}
use dist_tasks_go.Tests.WorkerRuns.{worker, text, with_task}

-- Everything goes well, and nobody else is there.
abbrev calm : Surroundings MemDb
calm = record {
  now = λ n. pos 5_000_000;
  net = λ n. delivered;
  pruned = λ n. delivered;
  each = λ n id. delivered;
  block = λ n. nothing;
  fresh = λ n k. "9";
  others = λ n d. d;
  meanwhile = λ n d. d;
}

abbrev opening : Session MemDb
opening = record { store = shop; db = delivered_db; calls = 0 }

abbrev shift : World (Session MemDb)
shift = record { backend = opening; events = [] }

abbrev day : List (RunEvent (Session MemDb))
day = poll (pos 7) ∷ cancel ∷ finish 0 opening ∷ leave_loop ∷ []

store_run-Inv_example :
    Inv whole
      (store_backend mem_codec calm)
      worker.config
      2
      (store_backend-IsBounded whole mem_codec calm worker.config)
      (run whole (store_backend mem_codec calm) worker.config 2 day (start opening))
store_run-Inv_example = store_run-Inv whole mem_codec calm worker.config 2 day opening

-- The answers get lost.
abbrev deaf : Surroundings MemDb
deaf = record calm { net = λ n. lost (other "EOF") }

handle_one-Becomes_example :
    Becomes mem_codec deaf text
      (with_task "flaky")
      opening
      (verdict whole (store_backend mem_codec deaf) worker text (pos 7) none (with_task "flaky"))
      (silent whole (store_backend mem_codec deaf) worker text (
        handle_one whole
          (store_backend mem_codec deaf)
          worker
          text
          (pos 7)
          none
          (with_task "flaky")
          shift))
handle_one-Becomes_example =
    handle_one-Becomes mem_codec deaf whole worker text (pos 7) none (with_task "flaky") shift refl

-- What v recovers while w still runs job 7.
abbrev rescue : MemDb
rescue = (recover_script mem_redis "s" "g" "v" (pos 5) (pos 4) "0-0" delivered_db).1

abbrev late : Surroundings MemDb
late = record calm { others = λ n d. rescue }

rescued :
    recover_script mem_redis "s" "g" "v" (pos 5) (pos 4) "0-0" delivered_db
    ≡ (some ("0-0", ("1", some_fields, 2) ∷ []), rescue)
unfolding recover_script mem_xautoclaim pick ◌-ℤ◌ entry has
rescued = refl

recovered_run-job_lease_lost_example :
    let after = process whole (store_backend mem_codec late) worker text (pos 7) none mail shift in
    (after.backend.db ≡ rescue)
    × (earlier : List Event) × (after.events ≡ job_lease_lost mail ∷ earlier)
recovered_run-job_lease_lost_example =
    recovered_run-job_lease_lost mem_codec late whole worker text (pos 7) none mail shift "v" "0-0"
      (pos 5) (pos 4) ("0-0", ("1", some_fields, 2) ∷ []) rescue (omega arith) refl
      (unfold owns in refl) rescued refl refl refl (unfold verdict exhausted in refl)

abbrev asking : String → Request
asking fresh = record {
  task = "send";
  options = record { max_attempts = pos 0; delay = pos 0; idempotency_key = "k" };
  draw = record { json = ok "{}"; id = fresh; now = pos 5 };
}

abbrev asked : String → Job
asked fresh = record {
  id = fresh;
  task = "send";
  payload = "{}";
  attempt = pos 0;
  max_attempts = pos 3;
  trace_parent = "";
  created_at = pos 5;
  available_at = pos 5 +ℤ pos 0;
  idempotency_key = "k";
  lease = no_lease;
}

asked_made : (fresh : String) → new_job (asking fresh) ≡ ok (asked fresh)
unfolding new_job validate
asked_made fresh = refl

enqueue_again_example :
    let first = enqueue (store_backend mem_codec calm) none (asking "1") shift in
    let again = enqueue (store_backend mem_codec calm) none (asking "2") first.1 in
    (id : String) × (first.0 ≡ ok id)
    × (again.0 ≡ ok id)
    × (again.1.backend.db ≡ first.1.backend.db)
    × ((delivered_db.texts (key_of mem_codec shop (asked "1").idempotency_key) ≡ some id)
        ⊎ (first.1.backend.db.ttls (key_of mem_codec shop (asked "1").idempotency_key)
            ≡ some (pos 5000)))
    × (again.1.backend.store ≡ shop)
    × (first.1.backend.store ≡ shop)
enqueue_again_example =
    enqueue_again mem_codec calm none none (asking "1") (asking "2") (asked "1") (asked "2") shift
      (asked_made "1") (asked_made "2") refl refl refl refl refl refl

abbrev draws : Draws
draws = record {
  first = λ i. record { json = ok "{}"; id = "1"; now = pos 5 };
  again = λ i. record { json = ok "{}"; id = "2"; now = pos 5 };
}

chaos_enqueues_done_example :
    (enqueue_jobs (λ i. "4") (store_backend mem_codec calm) draws 20 0 shift).0 ≡ true
chaos_enqueues_done_example =
    chaos_enqueues_done (λ i. "4") mem_codec calm draws 20 0 shift (λ i. "{}") (λ i. "{}")
      (λ n. refl) (λ n d. refl) refl (λ n. (refl, refl)) (λ n. (refl, refl))
