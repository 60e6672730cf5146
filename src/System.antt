-- ===== src/System.antt =====
-- `setup`, `save`, `apply` and `main` of chgres.c: what system the program runs on, and what is done
-- with the mode that was chosen.
pub mod Cookies
pub mod Save
pub mod Apply
pub mod Main
pub mod Program
