-- ===== src/Text.antt =====
-- The functions of Go's packages `strings` and `path` that the program calls, over bytes.
pub mod Search
pub mod Parts
pub mod Paths
pub mod Decimal
