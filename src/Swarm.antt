-- ===== src/Swarm.antt =====
-- The package swarm/: discovery of peers, routing, and the distribution of tasks.
pub mod Kbucket
pub mod Kademlia
pub mod Mesh
pub mod Distributor
pub mod Health
pub mod Peers
pub mod Discovery
pub mod Results
