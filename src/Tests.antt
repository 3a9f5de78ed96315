-- ===== src/Tests.antt =====
-- Runs of the models at concrete inputs, and the theorems at inputs that meet their hypotheses.
mod MemoryRuns
mod QueueRuns
mod RequestRuns
mod WorkerRuns
mod StoreRuns
mod FactRuns
mod ServerRuns
