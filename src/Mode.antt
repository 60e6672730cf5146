-- ===== src/Mode.antt =====
-- `struct res` and `struct resbase` of extern.h, the table `possible_resolutions` of chgres.c, and
-- the functions on it. The list behind a `next` pointer is a list of values: no two lists of the table
-- share a node.
pub mod Order
pub mod Sort
pub mod Insertion
pub mod Table
pub mod Popup
use chgres.Base.{
  ℕ, zero, suc, ◌+◌, ◌-◌, ◌*◌, ◌/◌, ◌%◌, ◌^◌, ◌≤◌, ◌<◌, min, ◌≡◌, refl, sym, ap, ◌∙◌, ◌≢◌, ◌↔◌, ◌⊎◌,
  inl, inr, Bool, true, false, not, ◌&&◌, ◌||◌, Option, none, some, List, [], ◌∷◌, ◌++◌, map, arith,
  ltb, leb, ◌==◌, if◌then◌else◌, ltb→lt, lt→ltb, leb→le, ==_iff, Bool-cases, Option-cases, Bytes,
  length, get_elem?, set, get_or, take, drop, replicate, length-append, length-set,
  get_elem?-set_self, get_elem?-set_ne, take-append-drop, length-take, length-drop,
  length-replicate, length-map, tests,
}
use chgres.Base.Int.{ℤ, pos, negsuc, ltb_ℤ}
use chgres.CLib.{codes, print_width_d}

abbrev pub max_depths : ℕ
max_depths = 8

abbrev pub flag_info : ℕ
flag_info = 1

pub record ResBase : Type 0 where
  pub selected : Bool
  pub desc : Bytes
  pub rez : ℤ
  pub vmode : ℤ
  pub flags : ℕ
  pub virt_hres : ℤ
  pub virt_vres : ℤ
  pub hres : ℤ
  pub vres : ℤ

pub record Res : Type 0 where
  pub base : ResBase
  pub open base use *
  pub planes : ℤ
  pub freq : ℤ
  pub mode_offset : ℤ

abbrev pub eq_ℤ : ℤ → ℤ → Bool
eq_ℤ (pos a) (pos b) = a == b
eq_ℤ (negsuc a) (negsuc b) = a == b
eq_ℤ _ _ = false

-- `flags & FLAG_INFO`
abbrev pub has_info : Res → Bool
has_info r = r.flags % 2 == 1

-- `possible_resolutions`, a list for each index below `max_depths`.
abbrev pub Modes : Type 0
Modes = List (List Res)

-- The list at an index, NULL beyond the table.
abbrev pub modes_at : Modes → ℕ → List Res
modes_at t i = get_or t i []

unfoldable pub no_modes : Modes
no_modes = replicate max_depths []

-- `r1 > r2`, or `r1 >= r2` and more, as each level of the test in `cmp_res` has it.
abbrev pub by : ℤ → ℤ → Bool → Bool
by a b more = ltb_ℤ b a || (not (ltb_ℤ a b) && more)

-- The test of `cmp_res`: whether it returns -1; else it returns 1.
unfoldable pub goes_first : Res → Res → Bool
goes_first r s = by r.virt_hres s.virt_hres (
    by r.virt_vres s.virt_vres (
      by r.hres s.hres
        (by r.vres s.vres (has_info r && (not (has_info s) || ltb_ℤ s.freq r.freq)))))

unfoldable pub cmp_res : Res → Res → ℤ
unfolding goes_first
cmp_res r s = if goes_first r s then negsuc 0 else pos 1

unfoldable pub count_res : List Res → ℕ
count_res [] = 0
count_res (r ∷ rs) = suc (count_res rs)

-- The loop of `selected_res_index`: the index of the first selected mode, or -1.
unfoldable pub selected_from : ℕ → List Res → ℤ
selected_from idx [] = negsuc 0
selected_from idx (r ∷ rs) =
    let rest = selected_from (suc idx) rs in if r.selected then pos idx else rest

unfoldable pub selected_res_index : List Res → ℤ
unfolding selected_from
selected_res_index rs = selected_from 0 rs

-- `find_mode`
unfoldable pub find_in : List Res → ℤ → ℤ → ℤ → Option Res
find_in [] width height planes = none
find_in (r ∷ rs) width height planes =
    let rest = find_in rs width height planes in
    if eq_ℤ r.virt_hres width && (eq_ℤ r.virt_vres height && eq_ℤ r.planes planes)
    then some r
    else rest

unfoldable pub find_mode : Modes → ℕ → ℤ → ℤ → ℤ → Option Res
unfolding find_in
find_mode t idx width height planes = find_in (modes_at t idx) width height planes

unfoldable pub add_mode : Modes → ℕ → Res → Modes
add_mode t idx r = set t idx (r ∷ modes_at t idx)

-- Every node is freed, and the list is NULL then.
unfoldable pub remove_modes : Modes → ℕ → Modes
remove_modes t idx = set t idx []

abbrev pub with_virtual : Res → Bytes → Bytes → Bytes
with_virtual r name desc =
    if not (eq_ℤ r.hres r.virt_hres) || not (eq_ℤ r.vres r.virt_vres)
    then desc ++ (codes ", " ++ name)
    else desc

abbrev with_note : Option Bytes → Bytes → Bytes
with_note none desc = desc
with_note (some note) desc = desc ++ (codes ", " ++ note)

-- The record that `create_mode` fills; `virtual` is the text of `rs_string(FS_VIRTUAL)`.
unfoldable pub new_mode : Bytes → ℤ → ℤ → ℤ → ℤ → ℤ → Option Bytes → Res
unfolding print_width_d
new_mode virtual width height planes rez vmode note =
    let r : Res = record {
      base = record {
        selected = false;
        desc = [];
        rez = rez;
        vmode = vmode;
        flags = flag_info;
        virt_hres = width;
        virt_vres = height;
        hres = width;
        vres = height;
      };
      planes = planes;
      freq = pos 60;
      mode_offset = pos 0;
    } in
    let size = print_width_d 4 width ++ (codes " x" ++ print_width_d 4 height) in
    record r { base = record (r.base) { desc = with_virtual r virtual (with_note note size) } }

-- What is asked of `create_mode`.
pub record Request : Type 0 where
  pub idx : ℕ
  pub width : ℤ
  pub height : ℤ
  pub depth : ℤ
  pub driver : ℤ
  pub word : ℤ
  pub note : Option Bytes

-- `memory` says whether `malloc` has room; without it the table stays as it is.
unfoldable pub create_mode : Bytes → Bool → Modes → Request → Modes
unfolding add_mode new_mode
create_mode virtual memory t q =
    if memory
    then add_mode t q.idx (new_mode virtual q.width q.height q.depth q.driver q.word q.note)
    else t
