-- ===== src/Store/Laws.antt =====
-- What the actions of the store do, beyond keeping it valid.
pub mod Tabs
pub mod Focus
pub mod Runs
pub mod Sessions
pub mod Selection
