-- ===== src/Routing.antt =====
-- src/controlplane/routing.go: which backend a client connection goes to.
pub mod Registry
pub mod Identify
mod Tests
