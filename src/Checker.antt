-- ===== src/Checker.antt =====
-- internal/checker: the scan that moves maintenances and informational events along with the clock.
pub mod Update
pub mod Info
pub mod Maintenance
