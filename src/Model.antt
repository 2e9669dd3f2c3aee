-- ===== src/Model.antt =====
-- crates/model/src: the records of captured traffic, JSON values and the canonical form.
pub mod Json
pub mod Corpus
pub mod Objects
pub mod Canonical
pub mod Files
pub mod Redaction
pub mod Store
mod Samples
mod StoreSamples
