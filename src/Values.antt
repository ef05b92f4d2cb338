-- ===== src/Values.antt =====
-- Values as the user sees them: units of settings, and the selected cell of the result grid.
pub mod Units
pub mod Grid
pub mod Results
pub mod Permissions
