-- ===== src/Save/Desk/Default.antt =====
-- `default_newdesk` of save.c, which is written if there is no desktop file.
use chgres.Base.{List, [], ◌∷◌, ◌++◌, Bytes}
use chgres.CLib.{codes, cr_lf}

-- Lines joined by their ends; the last has none.
abbrev joined : List Bytes → Bytes
joined [] = []
joined (l ∷ []) = l
joined (l ∷ m ∷ ls) = l ++ (cr_lf ++ joined (m ∷ ls))

unfoldable pub default_newdesk : Bytes
default_newdesk = joined (
    codes "#a000000"
    ∷ codes "#b000000"
    ∷ codes "#c7770007000600070055200505552220770557075055507703111103"
    ∷ codes "#d                                             "
    ∷ codes
        "#K 4F 53 4C 00 46 42 43 57 45 58 00 00 00 00 00 00 00 00 00 00 00 00 00 52 00 00 4D 56 00 00 00 @"
    ∷ codes "#E 18 13 00 06 00 00 00 00 00 00 "
    ∷ codes "#Q 41 40 43 40 43 40 "
    ∷ codes "#W 00 00 0C 06 26 0C 00 @"
    ∷ codes "#W 00 00 02 0B 26 09 00 @"
    ∷ codes "#W 00 00 0A 0F 1A 09 00 @"
    ∷ codes "#W 00 00 0E 01 1A 09 00 @"
    ∷ codes "#W 00 00 04 07 26 0C 00 @"
    ∷ codes "#W 00 00 0C 0B 26 09 00 @"
    ∷ codes "#W 00 00 08 0F 1A 09 00 @"
    ∷ codes "#W 00 00 06 01 1A 09 00 @"
    ∷ codes "#N FF 04 000 @ *.*@ @ "
    ∷ codes "#D FF 01 000 @ *.*@ @ "
    ∷ codes "#G 03 FF 000 *.APP@ @ @ "
    ∷ codes "#G 03 FF 000 *.PRG@ @ @ "
    ∷ codes "#Y 03 FF 000 *.GTP@ @ @ "
    ∷ codes "#P 03 FF 000 *.TTP@ @ @ "
    ∷ codes "#F 03 04 000 *.TOS@ @ @ "
    ∷ codes "#M 00 01 00 FF C HARD DISK@ @ "
    ∷ codes "#M 00 00 00 FF A FLOPPY DISK@ @ "
    ∷ codes "#M 01 00 00 FF B FLOPPY DISK@ @ "
    ∷ codes "#T 00 03 02 FF   TRASH@ @ "
    ∷ [])
