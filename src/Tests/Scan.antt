-- ===== src/Tests/Scan.antt =====
-- Runs of the line scanner, `load_file` and `remove_line`.
use chgres.Base.{◌≤◌, ◌≡◌, refl, true, none, some, [], ◌∷◌, ◌++◌, arith}
use chgres.Base.Int.{pos}
use chgres.Base.Exec.{ok, fault}
use chgres.CLib.{codes}
use chgres.Text.{Found, find_str, next_line, find_line, remove_line}
use chgres.Text.Lines.{TextLine, crlf, eol_bytes, render}
use chgres.Text.Bounds.{next_line_final_cr, find_line_total}
use chgres.Text.Find.{find_line-found}
use chgres.Text.Remove.{leftover, remove_line-found, remove_line_last}
use chgres.Tests.Disk.{crlf_line, remark}

abbrev wanted : TextLine
wanted = crlf_line (codes "key = 1; old")

next_line_final_cr_example : next_line (codes "ab" ++ 0x0d ∷ []) 3 ≡ fault
next_line_final_cr_example = next_line_final_cr (codes "ab") (omega arith)

find_line_total_example :
    (f : Found) × (find_line (codes "ab\ncd") (codes "cd") 5 ≡ ok f) × (f.offset ≤ 5)
find_line_total_example = find_line_total (codes "ab\ncd") (codes "cd") 5 (omega arith) refl

find_line-found_example :
    find_line
      (render (remark ∷ []) ++ (wanted.body ++ (eol_bytes crlf ++ codes "more")))
      (codes "key")
      22
    ≡ ok (record { offset = 4; remain = pos 4; linesize = 14 })
unfolding find_str
find_line-found_example =
    find_line-found (remark ∷ []) wanted (codes "more") (codes "key") 22 (omega arith) (refl, tt)
      (omega arith) refl (omega arith)

remove_line-found_example :
    remove_line
      (render (remark ∷ []) ++ (wanted.body ++ (eol_bytes crlf ++ (codes "more" ++ []))))
      (codes "key")
      22
    ≡ ok (
        some (record {
          offset = 4;
          newsize = 8;
          buffer =
              render (remark ∷ [])
              ++ (codes "more" ++ leftover (render (remark ∷ [])) wanted (codes "more") []);
        }))
unfolding find_str
remove_line-found_example =
    remove_line-found (remark ∷ []) wanted b'm' (codes "ore") [] (codes "key") (omega arith)
      (refl, tt) (omega arith) refl

remove_line_last_example :
    remove_line (render (remark ∷ []) ++ (wanted.body ++ (eol_bytes crlf ++ []))) (codes "key") 18
    ≡ ok none
unfolding find_str
remove_line_last_example =
    remove_line_last (remark ∷ []) wanted [] (codes "key") (omega arith) (refl, tt) (omega arith)
      refl

-- The key is found behind blanks, and not behind a comment character.
find_str_blanks : find_str (codes " \tkey") (codes "key") ≡ true
unfolding find_str
find_str_blanks = refl

find_line_comment :
    find_line (codes ";key\nkey\n!") (codes "key") 10
    ≡ ok (record { offset = 5; remain = pos 1; linesize = 4 })
unfolding find_line
find_line_comment = refl
