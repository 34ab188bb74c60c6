-- ===== src/Workflow.antt =====
-- engine/evidence_workflow.py: a workflow is specified, run on one fixture, and its evidence stored.
pub mod Specs
pub mod Runs
pub mod Outputs
pub mod Retries
pub mod Loading
pub mod Chains
pub mod Links
pub mod Validity
pub mod Bounds
pub mod Completion
pub mod Making
pub mod Directories
pub mod Reloading
pub mod Reuse
