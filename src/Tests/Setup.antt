-- ===== src/Tests/Setup.antt =====
-- The inputs that the tests share.
use dist_tasks_go.Base.{◌&&◌, none, some, [], ◌∷◌, pos, str_eq, if◌then◌else◌}
use dist_tasks_go.Queue.Job.{Job, Lease}
use dist_tasks_go.Redis.{Pending, Fields}
use dist_tasks_go.Memory.{MemDb, mem_marshal}
use dist_tasks_go.Memory.Tools.{empty_db}
use dist_tasks_go.Store.Client.{Store}

abbrev pub lease_one : Lease
lease_one = record { message_id = "1"; owner = "w"; token = pos 1; partition = pos 0 }

abbrev pub mail : Job
mail = record {
  id = "7";
  task = "send";
  payload = "{}";
  attempt = pos 0;
  max_attempts = pos 3;
  trace_parent = "";
  created_at = pos 5;
  available_at = pos 9;
  idempotency_key = "";
  lease = lease_one;
}

abbrev pub mail_again : Job
mail_again = record mail { id = "8"; idempotency_key = "k" }

abbrev pub shop : Store
shop = record {
  config = record {
    stream = "s";
    group = "g";
    retry_key = "z";
    dead_letter = "dead";
    dedupe_prefix = "once:";
    dedupe_window = pos 5_000_000_000;
    consumer_idle_timeout = pos 1000;
  };
  retry_data = "h";
  recover_cursor = "0-0";
  last_prune = pos 0;
}

abbrev pub some_fields : Fields
some_fields = ("id", "8") ∷ []

abbrev pub held : Pending
held = record { owner = "w"; deliveries = 1; idle = pos 10 }

-- Job 7 is delivered to w.
abbrev pub delivered_db : MemDb
delivered_db = record empty_db {
  streams = λ k. if str_eq k "s" then ("1", some_fields) ∷ [] else [];
  deliveries = λ k g i. if str_eq k "s" && (str_eq g "g" && str_eq i "1") then some held else none;
}

-- Job 8 is due at 3.
abbrev pub scheduled_db : MemDb
scheduled_db = record empty_db {
  hashes = λ k f. if str_eq k "h" && str_eq f "8" then some (mem_marshal some_fields) else none;
  scores = λ k m. if str_eq k "z" && str_eq m "8" then some (pos 3) else none;
  members = λ k. if str_eq k "z" then "8" ∷ [] else [];
}
