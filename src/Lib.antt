-- ===== src/Lib.antt =====
-- A task queue in Go over Redis: producers store jobs, workers lease them, run a handler, and settle
-- them; a lease that is not renewed expires, and another worker takes the job over.
--
-- Queue, with a file per part of queue/:
--   Queue/Job.antt        queue/job.go and errors.go: jobs, leases, errors, FencingToken
--   Queue/Retry.antt      queue/retry.go: NextDelay in 64-bit integers
--   Queue/Backend.antt    queue/backend.go and metrics.go: the interface between workers and stores, as
--                         a record of methods over the state of the backend
--   Queue/Producer.antt   queue/queue.go: newJob, Enqueue, EnqueueBatch
--   Queue/Worker.antt     queue/worker.go: NewWorker, Register, handleOne, process
--   Queue/Worker/Fetch, Queue/Worker/Batch, Queue/Worker/Acks, Queue/Worker/Run: fetch; heartbeat and
--                         extend; ackLoop, and Run, each as steps that come in any order
--   Queue/Worker/Stats    reportStats
--   Queue/Worker/Verdict  what handleOne decides of a job, apart from its calls and reports
--   Queue/Tracing         queue/tracing.go: a job as the carrier of its traceparent
-- Redis.antt is the Redis server, a parameter: its reads, its commands, and what its documentation says
-- of them. A Lua script is a state-passing program that may stop with an error (Redis/Script.antt).
-- Store, for redisstream/store.go and scripts.go:
--   Store/Scripts.antt    every Lua script, under the name it has in scripts.go
--   Store/Fields.antt     jobFields and parseJob; text, times and JSON are a parameter
--   Store/Client.antt     New, Ack, Extend, Retry, DeadLetter and the batches. Each call says how the
--                         network treats it: answered, not made, or made with the answer lost
--   Store/Enqueue.antt    Enqueue, EnqueueBatch, enqueueOnce, schedule
--   Store/Claim.antt      Claim, RecoverExpired, Stats and the quarantine of malformed entries; what
--                         they hand out is in Store/Claim/Held and Store/Claim/Answers, and a
--                         retried job on its way back in Store/Claim/Return
--   Store/Actions.antt    all calls of all clients of a queue, one after the other
--   Store/Warnings.antt   warnStuckBlock as the steps of its atomic operations; flatToMap
--   Store/Backend.antt    the store as a Backend, with the surroundings of each call given: its time, how
--                         it fares, and what other clients do to the database before it. On it, the
--                         worker (Store/Backend/Limits, Handled, Zombie) and the producer (Again)
-- Sharded.antt            redisstream/sharded.go: routing by key, batches by partition, sweeps, and
--                         the upkeep of all partitions (Sharded/Upkeep.antt); NewSharded is in
--                         Sharded/Layout.antt. Sharded/Poll.antt has the
--                         long polls of waitForJobs and poll as steps that come in any order,
--                         Sharded/Connections.antt the sockets that they block on, and
--                         Sharded/Close.antt Close, over both
-- Metrics.antt            prommetrics/metrics.go: counters, observations, the table of start times. The
--                         reports of a worker meet it in Queue/Worker/Reports.antt
-- Downstream.antt         cmd/chaos/downstream.go: effects fenced by token and applied once;
--                         with the tokens of jobs in Downstream/Zombie.antt, and the keys of
--                         a run in Downstream/Layout.antt
-- Chaos.antt              cmd/chaos/main.go: the tally and the verdict of a chaos run's report;
--                         Chaos/Handler the handler of its workers, on Downstream.antt; Chaos/Faults
--                         the controller's processes, as steps; Chaos/Enqueues the jobs that it
--                         enqueues, through a producer
-- Target.antt             internal/redisutil: the Redis of a tool, its flags, the stores that Open opens
-- Bench.antt              cmd/bench/main.go: how the backlog is built
-- Prettylog.antt          internal/prettylog: the log handler's attributes, with the arrays that slices
--                         share
-- Tasks.antt              examples/tasks: the demo's handlers, as cmd/worker-demo/main.go registers them;
--                         Tasks/Demo.antt what cmd/enqueue-demo/main.go enqueues
-- Memory.antt is a Redis server in memory, an instance of Redis.antt, and Tests.antt the examples on it.
--
-- Times are nanoseconds since 1970, times and durations are integers, and an int64 that can wrap does so
-- (Base/Int.antt). A map with unique keys is a function.
--
-- Bounds and fuel: recover_script scans at most 10 times, as the script does. chunks and the
-- heartbeat take as many rounds as there are jobs, which is enough since a round takes at least one.
-- The doubling of a delay runs at most attempt - 1 times. A sweep visits each partition once. The
-- producers of the benchmark get as much fuel as there are jobs, and each round takes at least one.
--
-- Not modelled: real time and goroutine scheduling (the steps of Run come in any order instead), the
-- connections to Redis, logging but for its attributes, spans of OpenTelemetry, the collectors of
-- Prometheus, the reading and printing of the chaos run, the processes and the timing of the benchmark,
-- flags and signals of the commands, DeletePrefix and CPUSeconds, JSON, and telemetry.
pub mod Base
pub mod Queue
pub mod Redis
pub mod Store
pub mod Sharded
pub mod Downstream
pub mod Chaos
pub mod Metrics
pub mod Bench
pub mod Prettylog
pub mod Target
pub mod Tasks
pub mod Memory
pub mod Tests
