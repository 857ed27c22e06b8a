-- ===== src/Agent.antt =====
-- cmd/agent/main.go: the guard of the node's restart.
pub mod Guard
pub mod Examples
