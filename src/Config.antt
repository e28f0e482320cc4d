-- ===== src/Config.antt =====
-- config/*.go, auth/*.go and the actions of job/action.go: the declared rules and what they decide.
pub mod Types
pub mod Key
pub mod Streaming
pub mod Compression
pub mod RuleNames
pub mod Matching
pub mod Loading
pub mod ChunkNames
pub mod Expansion
pub mod Samples
