-- ===== src/MutationEngine.antt =====
-- crates/mutation-engine/src: the kinds of mutation, the mutators and the planner.
pub mod Kind
pub mod Mutation
pub mod JsonMutator
pub mod ArrayMutator
pub mod Distinct
pub mod Protocol
pub mod Planner
mod Samples
mod MutatorSamples
