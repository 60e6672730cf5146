-- ===== src/Dialog.antt =====
-- The dialogs of chgres.c and the popup of popup.c: what their objects show, what the events do, and
-- what the info dialog does to a mode. Drawing is left out.
pub mod Fields
pub mod Info
pub mod Events
pub mod Menu
pub mod Session
pub mod Resource
pub mod Resize
