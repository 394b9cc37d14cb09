-- ===== src/Examples.antt =====
-- The theorems at concrete inputs, over the environment in memory.
mod Data
mod Witnesses
mod Settled
mod Reports
mod Started
mod Answered
mod Loaded
mod Ran
mod Converged
