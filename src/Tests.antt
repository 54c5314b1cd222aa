-- ===== src/Tests.antt =====
-- Concrete inputs, and the theorems applied to them.
pub mod Actors
pub mod Supervisors
pub mod Rings
pub mod Clusters
pub mod Wires
mod OnActors
mod OnSupervisors
mod OnRings
mod OnClusters
pub mod Meshes
mod OnMeshes
mod OnWires
mod OnSystems
mod OnRecoverables
mod OnDeadlocks
