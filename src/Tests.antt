-- ===== src/Tests.antt =====
-- The theorems at concrete inputs.
pub mod Layouts
pub mod Stores
pub mod Executions
pub mod Histories
pub mod Texts
pub mod Forms
pub mod Persisted
pub mod Windows
pub mod Completions
pub mod Diagrams
