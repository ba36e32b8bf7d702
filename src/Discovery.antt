-- ===== src/Discovery.antt =====
-- pingoo/service_discovery/docker.rs and dns.rs: the discoverers whose results the service registry
-- merges.
pub mod Docker
pub mod Socket
pub mod Dns
pub mod Labelled
pub mod Found
pub mod Hosts
mod Tests
