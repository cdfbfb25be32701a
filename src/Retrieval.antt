-- ===== src/Retrieval.antt =====
-- crates/omnisem-core/src/retrieval.rs: candidates, filters, fusion and packing.
pub mod Env
pub mod Samples
pub mod Candidates
pub mod Sensitivity
pub mod Pack
pub mod Fusion
pub mod Pipeline
