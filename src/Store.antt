-- ===== src/Store.antt =====
-- frontend/src/components/ide/useIdeStore.ts: the editor's store.
pub mod State
pub mod Tabs
pub mod Panes
pub mod Runs
pub mod Sessions
pub mod Valid
pub mod Actions
pub mod Reached
pub mod Laws
pub mod Persist
pub mod Consoles
