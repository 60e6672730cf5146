-- ===== src/Lib.antt =====
-- chgres is the resolution changer of an Atari desktop. It finds the modes of the video hardware, shows
-- them in a dialog by depth and size, and saves the mode that is chosen in the configuration file of
-- the desktop or the AES that runs. These modules model its core and prove what that does.
--
-- The parts, by the file of the repository:
--
-- - utils.c: Text is the line scanner (`skip_white`, `find_str`, `next_line`, `find_line`,
--   `remove_line`), with Text/Lines (files as lists of lines), Text/Bounds (reads and termination),
--   Text/Find, Text/Remove and Text/Whole. Gemdos has `load_file`, Save/Process the functions on
--   processes.
-- - save.c: Save/Magx (`save_magx_inf`), Save/Desk (`save_desk_inf_base` and its callers, with
--   Save/Desk/Default for `default_newdesk`), Save/Config (the common course of `save_xaaes_inf` and
--   `save_myaes_inf`) and Save/Fvdi (`save_fvdi_inf`), each with the theorems on its calls in a module
--   Laws below it, and those on the files behind the calls in a module Files, with Save/Config/Twice on
--   two runs; Save/Magx/Steps, Save/Desk/Fields,
--   Save/Config/Settings and Save/Fvdi/Driver are about their parts.
-- - chgres.c and extern.h: Mode is `struct res`, the table `possible_resolutions` and the functions on
--   it, with lists for what is behind the `next` pointers. Nodes has the same functions on the nodes
--   themselves, with `sort_restab` and `remove_mode`: Nodes/Chain is what a list behind a pointer is,
--   Nodes/Walk compares the two, Nodes/Cells and Nodes/Decided have lists in another order, and Nodes/Sort
--   and Nodes/Remove are about the functions that change nodes.
--   Mode/Order, Mode/Sort and Mode/Insertion are about `cmp_res` and `qsort`, Mode/Popup is the colour
--   popup, Mode/Table has invariants of the table. Machine has the codes of the systems.
-- - res.c: Resolution has `initres_st`, `initres_tt`, `initres_falc` and `initres_saga`, with their
--   tables in Resolution/Tables; Resolution/Placed and Resolution/Saga are about what they leave in
--   the table of modes. Nvdivga is the part on that driver, with the structures of vgainf.h in
--   Nvdivga/Vgainf and the block that holds the file in Nvdivga/Block; Nvdivga/Relocate, Nvdivga/Loop
--   and Nvdivga/Walk lead to Nvdivga/Load, which has `initres_nvdivga` and `save_nvdivga_inf`;
--   Nvdivga/Load/Edited is about the words of the file that the latter writes.
-- - chgres.c: Init is `init_res`: the loops that choose a depth and a mode, with Init/Lists and
--   Init/Depths about the lists that they sort, Init/Chosen about the choice, and the whole in
--   Init/Detect and Init/Start. Init/Opening is what `select_res` finds behind it.
-- - chgres.c: System/Cookies is `get_cookie` and `setup`, System/Save the dispatch of `save` to the
--   routines of save.c, System/Apply is `apply` with its retry loop. Drivers is `read_assign_sys` of
--   save.c and `get_gdos_driver` of res.c. Dialog/Fields has the texts of `set_item`, `set_bpp` and
--   `translate_restab`, Dialog/Info the virtual size that `show_info` accepts, Dialog/Resize what it
--   does with that, Dialog/Events what `select_item` and `hdl_obj` do to the choice and the buttons,
--   Dialog/Session is `select_res`, Dialog/Menu the popup of popup.c and Dialog/Resource `fix_rsc`.
--   System/Main is the part of `main` from the dialog on, and System/Program the whole of it, with
--   `init_res` and the dialog on what that found.
--
-- Base, with its children, and CLib are the helpers: lists and integers over the native numbers, the
-- result of code that may read outside its memory, and the functions of the C library that are called,
-- as their documentation has them. Tests has runs on small inputs.
--
-- How state and effects are modelled. A buffer is the list of its bytes, and a pointer into it an
-- offset or the list from there on; a read or a write outside is a `fault`. A run of a save routine
-- takes and returns the list of the calls that change something outside the program (`Call`), and
-- `Gemdos` is the record of the answers of GEMDOS and of `malloc` and `getenv`, a parameter of every
-- routine that asks. Volume says what the calls do to the files: its state and its steps are a
-- parameter, with what is documented of `Fopen`, `Fcreate`, `Fwrite`, `Fseek` and `Fclose` as laws,
-- and `Serves` says that the answers of `Gemdos` are those for a file as it is; Volume/Rewrite and
-- Volume/Edit have what they give for a file that is written, and Volume/Memory is a volume that obeys
-- them. Where only the contents of a list of modes matter, it is a list of values; where nodes are
-- relinked, freed or selected, the heap is a function from addresses to nodes, and a read of NULL or
-- of an address without a node is a fault. `init_res` takes as an argument where `malloc` put the
-- nodes. An object that the hardware answers for (`Getrez`, `VsetMode`, the monitor) is an argument,
-- and so are the events of the dialog. An event has the table of modes as it is then: what the list
-- box and `translate_restab` store in it, and the order that `show_info` gives a list, are not computed
-- there. The file of NVDIVGA is a block at an address, changed in place.
-- What stands behind the table `gdos_drivers`, which is read beyond its end, is an argument. `qsort`
-- is a parameter that is asked for an order only where the comparison gives one, with answers for any
-- two elements of the array that agree. `cmp_res`, which never gives 0, does so just when no two modes
-- are equal in all that it compares, so the theorems that rest on `qsort` have that as a hypothesis.
--
-- Bounds and fuel. The loop of `find_line` runs on fuel, one more than the size: every round but the
-- last takes at least one byte; the loop of `read_assign_sys` runs on the same fuel. The retry loop of
-- `apply` takes fuel as an argument, which a theorem bounds by a round in which the
-- time is up or nothing is in the way.
-- The loops over nodes take fuel, for which one more than the length of the list is enough, and so does
-- the loop over the modes of nvdivga.inf, one more than their number. Numbers are unbounded: a `short`
-- or a `long` is made to wrap around only where the code casts to it or stores in it what a file holds,
-- since the sizes of files and screens stay below its bounds. `%x` reads its number as 32 bits.
--
-- Not modelled: the drawing of the dialog, the helpers on processes that nothing calls, the parts under
-- `#if 0`, and the libraries under ext, which are other projects'.
pub mod Base
pub mod CLib
pub mod Dialog
pub mod Drivers
pub mod Gemdos
pub mod Init
pub mod Machine
pub mod Mode
pub mod Nodes
pub mod Nvdivga
pub mod Resolution
pub mod Save
pub mod System
pub mod Tests
pub mod Text
pub mod Volume
