-- ===== src/Reward.antt =====
-- internal/reward/reward.go: reading the chain's storage. `Codec` decodes stored values, `Hash` and
-- `Address` compute storage keys, `Monitor` is the client of the node's RPC.
pub mod Codec
pub mod Hash
pub mod Address
pub mod Monitor
pub mod Examples
