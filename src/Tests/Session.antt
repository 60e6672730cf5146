-- ===== src/Tests/Session.antt =====
-- A run of the dialog: a mode is chosen, and then OK.
use chgres.Base.{refl, true, false, none, some, List, [], ◌∷◌, arith}
use chgres.Dialog.Events.{
  Button, Choice, box_item, ok_object, select_item, select_all, handle, hdl_obj,
}
use chgres.Dialog.Events.Laws.{Agrees}
use chgres.Dialog.Session.{Event, opening, select_res}
use chgres.Dialog.Session.Laws.{AllLegal, IsSafe, select_res-IsSafe}
use chgres.Mode.{Res, modes_at}
use chgres.Tests.Disk.{st_mode}
use chgres.Tests.Tables.{table}

abbrev pub button : Button
button = record { disabled = true; selectable = false; default = false }

abbrev shown : List Res
shown = modes_at table 0

abbrev start : Choice
start = opening table shown 0 none button button

abbrev pub events : List Event
events =
    record { obj = box_item; items = some st_mode ∷ []; ends = false }
    ∷ record { obj = ok_object; items = []; ends = false }
    ∷ []

abbrev pub ended : Choice
ended = record (select_item start (some st_mode)) { must_shutdown = true }

pub events-AllLegal : AllLegal start events
unfolding hdl_obj select_all select_item handle opening
events-AllLegal = (
  record { ok_enabled = λ e. absurd (ground arith); mode_taken = λ e. absurd (ground arith) },
  (record { ok_enabled = λ e. refl; mode_taken = λ e. absurd (ground arith) }, tt),
)

select_res-IsSafe_example : Agrees ended × IsSafe ended
unfolding select_res hdl_obj select_all select_item handle opening
select_res-IsSafe_example =
    select_res-IsSafe true table shown 0 none button button events ended refl events-AllLegal refl
