-- ===== src/AuthBroker.antt =====
-- cmd/authbroker/main.go: the process that signs administrators in and passes their actions on to the
-- controller.
pub mod State
pub mod Flow
pub mod Careful
pub mod Access
pub mod Login
pub mod Bootstrap
pub mod Sessions
pub mod Actions
pub mod Routes
pub mod Untouched
pub mod Changes
pub mod Authority
pub mod SingleUse
pub mod Granted
pub mod Examples
