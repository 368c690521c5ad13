-- ===== src/Docker.antt =====
-- providers/docker: the provider that runs jobs as containers on the host.
pub mod Queue
pub mod Secrets
pub mod Manager
pub mod Provider
pub mod Runner
pub mod Monitor
