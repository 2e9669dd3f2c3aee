-- ===== src/Experiment.antt =====
-- crates/experiment/src: planning, running and minimising an experiment.
pub mod Report
pub mod Minimize
pub mod Paths
pub mod Plan
pub mod Artifacts
pub mod Run
pub mod Runner
mod Samples
mod RunSamples
