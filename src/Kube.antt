-- ===== src/Kube.antt =====
-- The cluster as the operator meets it: objects, calls, and what answers them.
pub mod Objects
pub mod Calls
pub mod Env
pub mod Clients
pub mod Keeps
pub mod Laws
pub mod Costs
pub mod Leaves
pub mod Names
pub mod Memory
pub mod Fake
