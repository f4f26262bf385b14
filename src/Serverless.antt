-- ===== src/Serverless.antt =====
-- pkg/serverless: the node that works without a control server.
pub mod Quarantine
pub mod Scheduler
pub mod VirtualIps
pub mod Hostnames
pub mod Dns
