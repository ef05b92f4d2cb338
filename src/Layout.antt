-- ===== src/Layout.antt =====
-- frontend/src/components/ide/ideLayout.ts: the layout of a workspace's editor.
pub mod Tree
pub mod Tabs
pub mod Splits
pub mod Normal
pub mod Flat
pub mod Sound
pub mod Splitting
pub mod Placing
pub mod Refinement
pub mod Operations
pub mod Shown
