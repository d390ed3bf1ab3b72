-- ===== src/Tests.antt =====
-- Runs of the models on concrete inputs, and the theorems applied at such inputs.
mod Bench
mod Checks
mod Cli
mod Db
mod Dsl
mod Engine
mod Lifetime
mod Main
mod Orchestrator
mod Memory
mod Output
mod Queue
mod Rounds
mod Stored
mod Worker
