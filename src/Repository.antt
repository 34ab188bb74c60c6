-- ===== src/Repository.antt =====
-- database/repository.py and database/schema.sql: the evidence tables, the three writes of `EvidenceRepository`,
-- and what they keep.
pub mod Tables
pub mod Bundles
pub mod Storing
pub mod Consistency
pub mod Upserts
pub mod Writes
pub mod Atomicity
pub mod Histories
pub mod Retention
pub mod Assessments
pub mod Overflows
pub mod Refusals
