-- ===== src/Reach.antt =====
-- internal/adapters/reachability: how the server reaches the dashboard of a cluster's head.
pub mod Pool
pub mod Resolver
pub mod Unreachable
