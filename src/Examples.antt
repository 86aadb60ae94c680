-- ===== src/Examples.antt =====
-- A whole run of a research task on concrete commands, and the theorems at that run.
pub mod Hash
pub mod Run
pub mod Computing
pub mod Expired
mod Restored
pub mod Finished
pub mod LedgerComputing
pub mod LedgerInput
mod LedgerRun
mod Governed
mod Logs
mod Witnesses
mod Steps
mod Machines
mod Reading
