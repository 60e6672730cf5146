-- ===== src/Tests/Main.antt =====
-- A run of the program on MagiC, from the dialog to the shutdown.
