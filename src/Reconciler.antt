-- ===== src/Reconciler.antt =====
-- internal/reconciler: Hydra's desired state brought onto the cluster.
pub mod Naming
pub mod Namespace
pub mod Status
pub mod Container
pub mod Route
pub mod Domain
pub mod Policy
pub mod Manager
pub mod RunLoop
pub mod Run
pub mod Ownership
pub mod Reports
pub mod Bounds
pub mod Convergence
