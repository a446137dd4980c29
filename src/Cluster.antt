-- ===== src/Cluster.antt =====
-- What the controllers share: the API of the cluster, the data of Secrets, and the interfaces to the
-- client of the server.
pub mod Data
pub mod Access
pub mod Builders
