-- ===== src/Rpc.antt =====
-- The remote procedure calls: the server that replicates nodes, its clients, and groups of nodes.
pub mod Server
pub mod Client
pub mod Groups
