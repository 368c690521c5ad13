-- ===== src/Samples.antt =====
-- Runs of the models on small inputs, and uses of the theorems at them.
mod Graphs
mod Manifests
mod Generators
mod Queues
mod Providers
mod Computes
mod Workflows
mod Batch
mod Runners
mod Clusters
mod Monitors
