-- ===== src/Save/Magx/Steps.antt =====
-- Where `save_magx_inf` finds the place of the line, and what it writes there.
use chgres.Base.{ℕ, suc, ◌+◌, ◌≡◌, refl, true, List, [], ◌∷◌, ◌++◌, arith, Bytes, length}
use native.Mathlib.Nat.{add-zero}
use chgres.Base.Int.{ℤ, pos}
use chgres.Base.Exec.{ok}
use chgres.CLib.{codes}
use chgres.Gemdos.{◌>>=◌, Call, written, closed, positive}
use chgres.Save.Magx.{find_place, write_magx, Place}
use chgres.Text.Lines.{IsBody, TextLine, line_bytes, render, AreLines}
use chgres.Text.Find.{matches, NoMatch, file_size}
use chgres.Text.Whole.{around, drop-around, take-around, find_line-around, Unseen}
use chgres.Text.Remove.{take-length_append}

abbrev pub magx_inf : Bytes
magx_inf = codes "\\MAGX.INF"

abbrev pub dev : Bytes
dev = codes "#_DEV"

abbrev pub aes : Bytes
aes = codes "#[aes]"

pub find_place-dev :
    (before : List TextLine) (l : TextLine) (c : ℕ) (rest : Bytes) (calls : List Call)
    → AreLines before
    → NoMatch dev before
    → IsBody l.body
    → matches dev l ≡ true
    → find_place (around (render before) l (c ∷ rest)) calls
      ≡ ok (
        record {
          before = file_size before;
          remain = pos (suc (length rest));
          replaced = length (line_bytes l);
        },
        calls,
      )
unfolding find_place
find_place-dev before l c rest calls bs ns b m =
    rw (find_line-around before l (c ∷ rest) dev bs ns b m) refl

-- No mode line is seen: behind the line of the section, if that is not the last.
pub find_place-aes :
    (before : List TextLine) (l : TextLine) (c : ℕ) (rest : Bytes) (calls : List Call)
    → Unseen dev (around (render before) l (c ∷ rest))
    → AreLines before
    → NoMatch aes before
    → IsBody l.body
    → matches aes l ≡ true
    → find_place (around (render before) l (c ∷ rest)) calls
      ≡ ok (
        record {
          before = file_size before + length (line_bytes l);
          remain = pos (suc (length rest));
          replaced = 0;
        },
        calls,
      )
unfolding find_place
find_place-aes before l c rest calls (o, k, e) bs ns b m =
    rw (e, find_line-around before l (c ∷ rest) aes bs ns b m, ◌>>=◌) refl

pub find_place_none :
    (text : Bytes) (calls : List Call)
    → Unseen dev text
    → Unseen aes text
    → (place : Place) × (find_place text calls ≡ ok (place, calls)) × (place.remain ≡ pos 0)
unfolding find_place
find_place_none text calls (o, k, e) (o', k', e') =
    (record { before = o' + k'; remain = pos 0; replaced = 0 }, rw (e, e', ◌>>=◌) refl, refl)

positive-suc : (n : ℕ) → positive (pos (suc n)) ≡ true
positive-suc n = ground arith

pub write_magx_inside :
    (fd : ℤ) (front back : Bytes) (l : TextLine) (line : Bytes) (n : ℕ) (calls : List Call)
    → write_magx fd
        (around front l back)
        line
        (record { before = length front; remain = pos (suc n); replaced = length (line_bytes l) })
        calls
      ≡ ok (
        pos 1,
        calls
            ++ written fd front ∷ []
            ++ written fd line ∷ []
            ++ written fd back ∷ []
            ++ closed fd ∷ [],
      )
unfolding write_magx
write_magx_inside fd front back l line n calls =
    rw (positive-suc n, take-length_append, drop-around) refl

pub write_magx_behind :
    (fd : ℤ) (front back : Bytes) (l : TextLine) (line : Bytes) (n : ℕ) (calls : List Call)
    → write_magx fd
        (around front l back)
        line
        (record {
          before = length front + length (line_bytes l);
          remain = pos (suc n);
          replaced = 0;
        })
        calls
      ≡ ok (
        pos 1,
        calls
            ++ written fd (front ++ line_bytes l) ∷ []
            ++ written fd line ∷ []
            ++ written fd back ∷ []
            ++ closed fd ∷ [],
      )
unfolding write_magx
write_magx_behind fd front back l line n calls =
    rw (positive-suc n, add-zero, take-around, drop-around) refl

pub write_magx_front :
    (fd : ℤ) (text line : Bytes) (place : Place) (calls : List Call)
    → place.remain ≡ pos 0
    → write_magx fd text line place calls
      ≡ ok (pos 1, calls ++ written fd line ∷ [] ++ written fd text ∷ [] ++ closed fd ∷ [])
unfolding write_magx
write_magx_front fd text line place calls e = rw e refl
