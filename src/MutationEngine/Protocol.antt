-- ===== src/MutationEngine/Protocol.antt =====
-- crates/mutation-engine/src/protocol.rs: the mutations of a response outside its JSON values.
pub mod Records
pub mod Headers
pub mod Pagination
pub mod Generate
pub mod Scope
pub mod Pushed
pub mod Laws
