-- ===== src/Tests.antt =====
-- The theorems at concrete inputs.
pub mod Data
pub mod Rounds
pub mod Prompt
pub mod State
pub mod Sse
pub mod Edits
pub mod Files
pub mod Naming
pub mod SubAgents
pub mod Coalescer
