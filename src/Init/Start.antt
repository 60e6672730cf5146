-- ===== src/Init/Start.antt =====
-- What `init_res` shows on a machine without NVDI.
use chgres.Gemdos.{Gemdos}
use chgres.Drivers.{Drivers}
use chgres.Init.Chosen.{Chosen}
