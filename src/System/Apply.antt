-- ===== src/System/Apply.antt =====
-- `apply` of chgres.c: how the mode comes into effect. What the AES and the clock answer is an argument.
pub mod Laws
use chgres.Base.{
  ℕ, zero, suc, ◌+◌, ◌-◌, ◌*◌, ◌/◌, ◌%◌, ◌^◌, ◌≤◌, ◌<◌, min, ◌≡◌, refl, sym, ap, ◌∙◌, ◌≢◌, ◌↔◌, ◌⊎◌,
  inl, inr, Bool, true, false, not, ◌&&◌, ◌||◌, Option, none, some, List, [], ◌∷◌, ◌++◌, map, arith,
  ltb, leb, ◌==◌, if◌then◌else◌, ltb→lt, lt→ltb, leb→le, ==_iff, Bool-cases, Option-cases, Bytes,
  length, get_elem?, set, get_or, take, drop, replicate, length-append, length-set,
  get_elem?-set_self, get_elem?-set_ne, take-append-drop, length-take, length-drop,
  length-replicate, length-map, tests,
}
use chgres.Base.Int.{ℤ, pos, negsuc, ltb_ℤ, ◌-ℤ◌}
use chgres.CLib.{codes, print_d}
use chgres.Gemdos.{positive}
use chgres.Machine.{has_bit, is_mint}
use chgres.Mode.{Res}
use chgres.Save.Desk.{is_zero}

-- What `apply` does to the system, in order.
pub data Act : Type 0 where
  appl_exit : Act
  shut_down : Act
  run_shutdown : Bytes → Act
  change_res : ℤ → ℤ → Act
  kill : ℤ → Act
  warm_reboot : Act

-- One round of the loop: the result of `shel_write`, the `apid` that it stores, the process that
-- `appl_find` gives for it, and the time since the start, in milliseconds.
pub record Round : Type 0 where
  pub result : ℤ
  pub apid : ℤ
  pub pid : ℤ
  pub elapsed : ℤ

-- How a run ends: `apply` returns, or the machine starts anew. `unfinished` is a loop that goes on.
pub data Ending : Type 0 where
  returned : ℤ → Ending
  rebooted : Ending
  unfinished : Ending

-- `wisgr` and `wiscr`
abbrev pub wisgr : Res → ℤ
wisgr r = if is_zero r.vmode then r.rez else r.vmode

abbrev pub wiscr : Res → ℤ
wiscr r = if is_zero r.vmode then pos 0 else pos 1

-- `kill_pid`
abbrev pub killed : ℤ → List Act
killed pid = if positive pid then kill pid ∷ [] else []

-- The time is not up, and an application is in the way.
abbrev pub tries_again : Round → Bool
tries_again a = ltb_ℤ a.elapsed (pos 10000) && positive a.apid

-- Every round leaves `retries` at 1 to go on and at 0 to stop.
unfoldable pub retry_loop : ℕ → (ℕ → Round) → ℕ → Res → List Act × Ending
retry_loop zero rounds k r = ([], unfinished)
retry_loop (suc fuel) rounds k r =
    let rest = retry_loop fuel rounds (suc k) r in
    let a = rounds k in
    if positive a.result
    then (change_res (wisgr r) (wiscr r) ∷ [], returned (pos 1))
    else if tries_again a
    then (change_res (wisgr r) (wiscr r) ∷ (killed a.pid ++ rest.0), rest.1)
    else (change_res (wisgr r) (wiscr r) ∷ warm_reboot ∷ [], rebooted)

-- The tail of `SHUTDOWN.PRG`, a byte for its length in front.
abbrev pub shutdown_tail : Res → Bytes
shutdown_tail r =
    let tail = print_d r.rez ++ (codes " 0 " ++ print_d r.vmode) in length tail % 2 ^ 8 ∷ tail

-- `none` in a round's `apid` is not told apart from 0: only N.AES is given a place to store it.
abbrev pub as_asked : ℕ → (ℕ → Round) → ℕ → Round
as_asked sys_aes rounds k =
    if has_bit sys_aes 5 then rounds k else record (rounds k) { apid = pos 0 }

unfoldable pub apply : ℕ → ℕ → ℕ → (ℕ → Round) → Res → List Act × Ending
unfolding retry_loop
apply fuel sys_vdi sys_aes rounds r =
    if has_bit sys_vdi 3
    then (
      appl_exit ∷ ((if has_bit sys_aes 0 then [] else shut_down ∷ []) ++ warm_reboot ∷ []),
      rebooted,
    )
    else if has_bit sys_aes 3
    then ([], returned (negsuc 0))
    else if has_bit sys_aes 2
    then (run_shutdown (shutdown_tail r) ∷ [], returned (pos 1))
    else if is_mint sys_aes
    then retry_loop fuel (as_asked sys_aes rounds) 0 r
    else (warm_reboot ∷ [], rebooted)
