-- ===== src/Tests/Menus.antt =====
-- Runs of the popup of the colours.
use chgres.Base.{◌≡◌, refl, inr, true, some, List, [], ◌∷◌, Bytes, length, get_elem?}
use chgres.Base.Int.{pos}
use chgres.CLib.{codes}
use chgres.Mode.Popup.{popup_to_index, init_lbox_names}
use chgres.Dialog.Menu.{Object, Place, menu_tree, simple_popup}
use chgres.Dialog.Menu.Laws.{IsEntry, menu_tree-IsEntry, popup_to_index-simple_popup}
use chgres.Tests.Tables.{table}

abbrev place : Place
place = record { ob_width = 100; ob_height = 16; wchar = 8; hchar = 16 }

abbrev names : List Bytes
names = codes "one" ∷ codes "two" ∷ []

menu_tree-IsEntry_example :
    (length (menu_tree place (pos 0, pos 0) names (pos 0)) ≡ 5)
    × IsEntry (menu_tree place (pos 0, pos 0) names (pos 0)) 2 16 (pos 0) 1 (codes "two")
menu_tree-IsEntry_example =
    menu_tree-IsEntry place (pos 0, pos 0) names (pos 0) 1 (codes "two") refl

-- The fourth object is the text of the second entry.
popup_to_index-simple_popup_example :
    (text_of : Object) × (get_elem?
        (menu_tree place (pos 0, pos 0) (init_lbox_names table) (pos 0))
        4
      ≡ some text_of)
    × (text_of.label ≡ codes "  65K")
    × (popup_to_index table
          (simple_popup place (pos 0, pos 0) true (λ tree. pos 4) (init_lbox_names table) (pos 0))
        ≡ pos 5)
popup_to_index-simple_popup_example =
    popup_to_index-simple_popup place (pos 0, pos 0) (λ tree. pos 4) table 5 (pos 0) (codes "  65K")
      refl refl (inr refl)
