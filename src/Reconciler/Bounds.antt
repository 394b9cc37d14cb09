-- ===== src/Reconciler/Bounds.antt =====
-- How many calls the reconcilers and a round of the manager make at most.
pub mod Parts
pub mod Sync
