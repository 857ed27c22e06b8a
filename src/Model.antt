-- ===== src/Model.antt =====
-- internal/model/model.go: the records that the components exchange, and Go's `error` values.
-- Counters, heights and counts of Go type int64 or int are integers of type ℤ; percentages are
-- numbers of thousandths; amounts in Planck are the numbers that the source prints in decimal.
mod Errors
mod Records
pub mod Samples
unfoldable pub use Errors.*
pub use Records.*
