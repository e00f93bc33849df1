-- ===== src/Network.antt =====
-- The services for the state of the network in src/os: what `mdb_network_service_init` puts into
-- `mdb_network_t`, on Linux and on RT-Thread.
pub mod Linux
pub mod RtThread
