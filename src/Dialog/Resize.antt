-- ===== src/Dialog/Resize.antt =====
-- What `show_info` of chgres.c does to a mode when its dialog is confirmed: the new virtual size and text,
-- and the list that is shown, in its new order. `p` is `res`, and `res_tab` the head of that list.
pub mod Laws
use chgres.Base.{
  ℕ, zero, suc, ◌+◌, ◌-◌, ◌*◌, ◌/◌, ◌%◌, ◌^◌, ◌≤◌, ◌<◌, min, ◌≡◌, refl, sym, ap, ◌∙◌, ◌≢◌, ◌↔◌, ◌⊎◌,
  inl, inr, Bool, true, false, not, ◌&&◌, ◌||◌, Option, none, some, List, [], ◌∷◌, ◌++◌, map, arith,
  ltb, leb, ◌==◌, if◌then◌else◌, ltb→lt, lt→ltb, leb→le, ==_iff, Bool-cases, Option-cases, Bytes,
  length, get_elem?, set, get_or, take, drop, replicate, length-append, length-set,
  get_elem?-set_self, get_elem?-set_ne, take-append-drop, length-take, length-drop,
  length-replicate, length-map, tests,
}
use chgres.Base.Exec.{Exec, ok, ◌>>=◌}
use chgres.CLib.{codes, print_width_d}
use chgres.Mode.{Res, with_virtual}
use chgres.Mode.Sort.{Qsort}
use chgres.Nodes.{Node, node, Heap, Cell, load, write, sort_restab}
use chgres.Dialog.Info.{Size, entered_size}

-- The mode with the size; `virtual` is the text of `rs_string(FS_VIRTUAL)`.
unfoldable pub resized : Bytes → Res → Size → Res
unfolding print_width_d
resized virtual r s =
    let r' : Res = record r {
      base = record (r.base) { virt_hres = s.width; virt_vres = s.height };
    } in
    let size =
      print_width_d 4 s.width ++ (codes " * " ++ (print_width_d 4 s.height ++ codes ", ET 4000")) in
    record r' { base = record (r'.base) { desc = with_virtual r' virtual size } }

-- The new `res_tab`; the head in `possible_resolutions` stays.
unfoldable pub show_info :
    Qsort Cell → (ℕ → Bool) → ℕ → Bytes → Heap → ℕ → ℕ → Bytes → Bytes → Exec (ℕ × Heap)
unfolding entered_size resized sort_restab load
show_info q memory fuel virtual h res_tab p h_text v_text = load h p >>= λ n.
    let r' = resized virtual n.res (entered_size n.res h_text v_text).0 in
    sort_restab q memory fuel (write h p (some (node r' n.next))) res_tab
