-- ===== src/Save/Fvdi/Files.antt =====
-- FVDI.SYS behind a run of `save_fvdi_inf`.
use chgres.Base.{List}
use chgres.Gemdos.{Gemdos}
use chgres.Volume.{Volume}
