-- ===== src/Nodes/Walk.antt =====
-- The functions that walk a list give what those on lists of modes give.
use chgres.Base.{
  ℕ, zero, suc, ◌<◌, ◌≡◌, refl, ◌≢◌, inl, inr, ◌&&◌, Option, none, some, List, [], ◌∷◌, arith,
  Bool-cases, length,
}
use mathlib.Core.List.{Mem, mem-cons_self, mem-cons_of_mem}
use chgres.Base.Int.{ℤ}
use chgres.Base.Exec.{ok}
use chgres.Mode
use chgres.Mode.{Res, find_in, selected_from, eq_ℤ}
use chgres.Nodes.{Heap, Cell, count_res, selected_res_index, find_mode, table_of}
use chgres.Nodes.Chain.{Chain, nil, cons, load_lem, not_null}

abbrev pub contents : List Cell → List Res
contents [] = []
contents (c ∷ cs) = c.1 ∷ contents cs

count_res-Chain :
    {h : Heap} {p : ℕ} {cs : List Cell} (fuel : ℕ)
    → Chain h p cs
    → length cs < fuel
    → count_res fuel h p ≡ ok (Mode.count_res (contents cs))
unfolding count_res Mode.count_res
count_res-Chain zero s l = absurd (omega arith)
count_res-Chain (suc fuel) (nil z) l = rw z refl
count_res-Chain {h} (suc fuel) (cons {p} ne e out s) l =
    rw (not_null p ne, load_lem h p _ ne e, count_res-Chain fuel s (omega arith)) refl

pub table_of-Chain :
    {h : Heap} {p : ℕ} {cs : List Cell} (fuel : ℕ)
    → Chain h p cs
    → length cs < fuel
    → table_of fuel h p ≡ ok cs
unfolding table_of
table_of-Chain zero s l = absurd (omega arith)
table_of-Chain (suc fuel) (nil z) l = rw z refl
table_of-Chain {h} (suc fuel) (cons {p} ne e out s) l =
    rw (not_null p ne, load_lem h p _ ne e, table_of-Chain fuel s (omega arith)) refl

selected_res_index-Chain :
    {h : Heap} {p : ℕ} {cs : List Cell} (fuel idx : ℕ)
    → Chain h p cs
    → length cs < fuel
    → selected_res_index fuel h p idx ≡ ok (selected_from idx (contents cs))
unfolding selected_res_index selected_from
selected_res_index-Chain zero idx s l = absurd (omega arith)
selected_res_index-Chain (suc fuel) idx (nil z) l = rw z refl
selected_res_index-Chain {h} (suc fuel) idx (cons {p} {r} ne e out s) l =
    rw (not_null p ne, load_lem h p _ ne e, selected_res_index-Chain fuel (suc idx) s (omega arith))
      (elim (Bool-cases r.selected) [ inl y ↦ rw y refl | inr n ↦ rw n refl ])

-- What a search of the list gives: NULL if no mode fits, or else the address of the first that does.
pub data Finds (cs : List Cell) (o : Option Res) (q : ℕ) : Type 0 where
  missing : o ≡ none → q ≡ 0 → Finds cs o q
  found : (r : Res) → o ≡ some r → q ≢ 0 → Mem (q, r) cs → Finds cs o q

find_later :
    {cs : List Cell} {o : Option Res} {q : ℕ} (c : Cell) → Finds cs o q → Finds (c ∷ cs) o q
find_later c (missing e z) = missing e z
find_later c (found r e ne m) = found r e ne (mem-cons_of_mem c m)

find_mode-Finds :
    {h : Heap} {p : ℕ} {cs : List Cell} (fuel : ℕ) (width height planes : ℤ)
    → Chain h p cs
    → length cs < fuel
    → (q : ℕ) × (find_mode fuel h p width height planes ≡ ok q)
      × Finds cs (find_in (contents cs) width height planes) q
unfolding find_mode find_in
find_mode-Finds zero width height planes s l = absurd (omega arith)
find_mode-Finds (suc fuel) width height planes (nil z) l = (0, rw z refl, missing refl refl)
find_mode-Finds {h} (suc fuel) width height planes (cons {p} {r} ne e out s) l =
    let (q, done, finds) = find_mode-Finds fuel width height planes s (omega arith) in
    elim (Bool-cases
      (eq_ℤ r.virt_hres width && (eq_ℤ r.virt_vres height && eq_ℤ r.planes planes))) [
        | inl hit ↦ (
          p,
          rw (not_null p ne, load_lem h p _ ne e, done, hit) refl,
          rw hit (found r refl ne mem-cons_self),
        )
        | inr miss ↦ (
          q,
          rw (not_null p ne, load_lem h p _ ne e, done, miss) refl,
          rw miss (find_later (p, r) finds),
        )
      ]

-- On nodes that are linked to a list, and with fuel for more rounds than it has modes, `count_res` and
-- `selected_res_index` give what the functions on lists give, and `find_mode` the address of the mode
-- that the function on lists finds, or NULL if that finds none.
pub walk-Chain :
    {h : Heap} {p : ℕ} {cs : List Cell} (fuel : ℕ) (width height planes : ℤ)
    → Chain h p cs
    → length cs < fuel
    → (count_res fuel h p ≡ ok (Mode.count_res (contents cs)))
      × (selected_res_index fuel h p 0 ≡ ok (Mode.selected_res_index (contents cs)))
      × ((q : ℕ) × (find_mode fuel h p width height planes ≡ ok q)
          × Finds cs (find_in (contents cs) width height planes) q)
unfolding Mode.selected_res_index
walk-Chain fuel width height planes s l = (
  count_res-Chain fuel s l,
  selected_res_index-Chain fuel 0 s l,
  find_mode-Finds fuel width height planes s l,
)
