-- ===== src/Controller.antt =====
-- cmd/controller/main.go: the retry times, the public nodes, the check of a local scan, the scan of
-- the reward history, the acknowledgement of pruned history, the quorum, the status of
-- the rewards and the wait after a restart.
pub mod Backoff
pub mod Validate
pub mod Externals
pub mod History
pub mod Gap
pub mod Status
pub mod Quorum
pub mod Recovery
pub mod Examples
