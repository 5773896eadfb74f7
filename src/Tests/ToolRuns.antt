-- ===== src/Tests/ToolRuns.antt =====
-- The sockets, the tools of cmd and the log's handler, at concrete inputs.
use Prim.Native.Char.{code}
use mathlib.Core.Bool.{false≢true}
use dist_tasks_go.Base.{
  ap, eq_iff, ◌==◌, ℕ, String, ◌≡◌, refl, ◌++◌, false, none, some, List, [], ◌∷◌, pos, arith,
  length, map, All, ltb, if◌then◌else◌,
}
use dist_tasks_go.Queue.Job.{ok}
use dist_tasks_go.Store.Client.{Store}
use dist_tasks_go.Store.Warnings
use dist_tasks_go.Store.Warnings.Spaced.{Apart, warnings-Apart}
use dist_tasks_go.Store.Warnings.{load, swap, no_warnings}
use dist_tasks_go.Sharded.Connections
use dist_tasks_go.Sharded.Connections.{connect, admit, untrack, shut, without, admitted}
use dist_tasks_go.Sharded.Poll.{enter, check}
use dist_tasks_go.Sharded.Poll.Closing.{IsGone, ends}
use dist_tasks_go.Sharded.Close.{ClosableEvent, polling, connecting, opened, close, step, run}
use dist_tasks_go.Sharded.Close.Ended.{close-ends_all}
use dist_tasks_go.Target.{Target, Numbers, open_stores}
use dist_tasks_go.Target.Keys.{IsUnder, stores_of, open_stores-IsUnder}
use dist_tasks_go.Store.Client.{with_defaults}
use dist_tasks_go.Sharded.Layout.{ShardedConfig, part_config}
use dist_tasks_go.Sharded.Layout.Apart.{IsKey, is_stream, IsKey-apart}
use dist_tasks_go.Bench.{backlog}
use dist_tasks_go.Bench.Backlog.{times_in, times_in-backlog}
use dist_tasks_go.Prettylog.{Heap, Handler, attrs_of, with_group}
use dist_tasks_go.Prettylog.Sharing.{group, sibling_groups_shared}

-- The poll of partition 0 blocks and one of two sockets is back in the pool when Close comes.
abbrev before_close : List ClosableEvent
before_close =
    polling (enter "w" 1 (pos 7))
    ∷ connecting connect
    ∷ connecting (admit 0)
    ∷ connecting connect
    ∷ polling (check 0)
    ∷ connecting (admit 1)
    ∷ connecting (untrack 0)
    ∷ connecting (shut 0)
    ∷ []

close-ends_all_example :
    let t = run 2 (map polling (ends 2)) (close 2 (run 2 before_close opened)) in
    let late = Connections.step (admit t.sockets.next) (Connections.step connect t.sockets) in
    IsGone 0 t.polls
    × (t.sockets.is_open 1 ≡ false)
    × (late.is_open 1 ≡ false)
    × (late.conns ≡ [])
    × (close 2 t ≡ t)
unfolding run step Connections.step admitted without
close-ends_all_example = close-ends_all 2 before_close 0 1 (omega arith) refl refl

abbrev numbers : Numbers
numbers = record { itoa = λ n. "16"; parse_int = λ s. some (pos 16) }

abbrev cluster : Target
cluster = record { addr = ""; cluster = "h:1"; partitions = pos 0 }

open_stores-IsUnder_example :
    (ss : List Store) × (open_stores (λ n. "1") (λ q. none) cluster "bench:1:" (pos 0) ≡ ok ss)
    × (length ss ≡ stores_of (λ n. "1") cluster)
    × All (IsUnder "bench:1:") ss
open_stores-IsUnder_example =
    open_stores-IsUnder (λ n. "1") (λ q. none) cluster "bench:1" (pos 0) (λ q. refl) refl

times_in-backlog_example : times_in 7 (backlog 3 4 10) ≡ (if ltb 7 10 then 1 else 0)
times_in-backlog_example = times_in-backlog 7 3 4 10 (omega arith)

-- A handler with room for one attribute more, as append leaves it.
abbrev roomy : Handler
roomy = record { attrs = record { array = 0; size = 1; capacity = 2 } }

abbrev arrays : Heap
arrays = record { cells = λ a i. record { key = "k"; value = "v" }; next = 1 }

sibling_groups_shared_example :
    let first = with_group (λ n. n) "a" roomy arrays in
    let second = with_group (λ n. n) "b" roomy first.1 in
    (attrs_of first.0 first.1 ≡ attrs_of roomy arrays ++ group "a" ∷ [])
    × (attrs_of first.0 second.1 ≡ attrs_of roomy arrays ++ group "b" ∷ [])
sibling_groups_shared_example = sibling_groups_shared (λ n. n) "a" "b" roomy arrays (omega arith)

warnings-Apart_example :
    Apart (Warnings.run (load (pos 7) ∷ load (pos 8) ∷ swap 1 ∷ swap 0 ∷ []) no_warnings).logged
warnings-Apart_example = warnings-Apart (load (pos 7) ∷ load (pos 8) ∷ swap 1 ∷ swap 0 ∷ [])

abbrev digit : ℕ → String
digit n = if n == 0 then "0" else "1"

abbrev two_parts : ShardedConfig
two_parts = record {
  partitions = pos 2;
  prefix = "q";
  dedupe_window = pos 0;
  consumer_idle_timeout = pos 0;
}

IsKey-apart_example : ¬ IsKey (with_defaults (part_config digit two_parts 1)) "q:{p0}:jobs"
unfolding with_defaults part_config
IsKey-apart_example =
    IsKey-apart digit two_parts 0 1 "q:{p0}:jobs" (λ e. absurd (false≢true ((eq_iff "0" "1").1 e)))
      ((λ e. omega (arith, ap code e)), tt) ((λ e. omega (arith, ap code e)), tt)
      (λ e. omega (arith, e)) is_stream
