-- ===== src/Cluster.antt =====
-- What the operator and the world exchange: errors, the objects of the cluster, the calls, and the
-- actions that make them. The cluster's API server, the library that talks to it, the clock, the
-- network and the other libraries are an environment that answers each call as it will.
pub mod Errors
pub mod Children
pub mod Env
pub mod Exec
pub mod Calls
