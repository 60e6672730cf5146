-- ===== src/Tests.antt =====
-- Runs on small files and tables.
mod Disk
mod Scan
mod Configs
mod Tables
mod Systems
mod Dialogs
mod Lists
mod Menus
mod Cards
mod Start
mod Session
mod Main
mod Resize
mod Volumes
mod Program
