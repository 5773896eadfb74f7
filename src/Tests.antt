-- ===== src/Tests.antt =====
-- The theorems at concrete inputs: a job and its delivery in a server in memory, a worker with a
-- backend that keeps its jobs in a list.
pub mod Setup
pub mod Runs
mod StoreRuns
mod SessionRuns
mod ToolRuns
pub mod WorkerRuns
mod PartRuns
mod AnswerRuns
mod PollRuns
mod ChaosRuns
