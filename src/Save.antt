-- ===== src/Save.antt =====
-- The routines of save.c that write the selected mode to the configuration files.
pub mod Process
pub mod Magx
pub mod Desk
pub mod Config
pub mod Fvdi
