-- ===== src/ContractEngine.antt =====
-- crates/contract-engine/src: requirements and assumptions from experiment evidence.
pub mod Records
pub mod Kinds
pub mod Build
pub mod Lock
mod Collect
mod Notes
mod Targets
pub mod Requirements
pub mod Promises
mod Keys
pub mod Assumptions
mod Citing
pub mod Accusations
pub mod Totality
pub mod Inconclusive
pub mod Severity
pub mod Analysis
pub mod Score
pub mod Diff
mod Samples
