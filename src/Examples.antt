-- ===== src/Examples.antt =====
-- Tests of the definitions on small inputs, and the theorems at inputs that meet their hypotheses.
mod Findings
mod Plans
mod Owners
mod Queues
mod Assets
mod KeyUse
mod Batches
mod Snapshots
mod Manifests
mod Stores
mod Flows
mod Reruns
mod Reads
