-- ===== src/Cli/Attach.antt =====
-- cli/cli_parser.c: `cli_parser_attach_cmd_tbl` on the array of a category. A table is its address; its
-- name and abbreviation are those of its first element. `below` says that `strcmp` of the names of two
-- tables returns -1: the sign is all that a C library promises.
use multithreading.Prelude.{
  ℕ, zero, suc, ◌+◌, ◌-◌, Bool, true, false, Option, none, some, List, ◌==◌, ◌&&◌, not,
  if◌then◌else◌, leb, ltb,
}
use multithreading.Cli.Command.{Clir, cli_ok, inv_arg, cmd_tbl_full, strcmp_zero}

-- CLI_CAT_T
pub data CliCat : Type 0 where
  cat_root cat_app cat_mw : CliCat

abbrev pub is_root : CliCat → Bool
is_root cat_root = true
is_root cat_app = false
is_root cat_mw = false

-- An element of `apt_cli_array` and of `at_cli_mod_grp_info`.
pub record Slot : Type 0 where
  pub tbl : ℕ
  pub grp_tbl : ℕ
  pub grp_msk : ℕ

-- The arrays of a category, their count, and the field `pt_next_level` of its own table.
pub record Category : Type 0 where
  pub slots : ℕ → Slot
  pub count : ℕ
  pub first_level : ℕ

-- CLI_MAX_CMD_TBL_NUM
abbrev pub max_cmd_tbl_num : ℕ
max_cmd_tbl_num = 128

abbrev pub set_slot : ℕ → Slot → (ℕ → Slot) → ℕ → Slot
set_slot i x slots k = if i == k then x else slots k

abbrev pub new_slot : (tbl mask : ℕ) → Slot
new_slot tbl mask = record { tbl = tbl; grp_tbl = tbl; grp_msk = mask }

-- The element that moves on: its table stands in both arrays.
abbrev pub moved : Slot → Slot
moved x = new_slot x.tbl x.grp_msk

-- The loop that sorts, from `idx` on with `left` rounds to go; `tmp` is what a swap has taken out.
unfoldable pub sort_loop :
    (below : ℕ → ℕ → Bool) (left idx : ℕ) (new : Slot) (tmp : Option Slot) → Category → Category
sort_loop below zero idx new tmp c = c
sort_loop below (suc left) idx new (some x) c =
    sort_loop below left (idx + 1) new (some (c.slots idx))
      (record c { slots = set_slot idx (moved x) c.slots })
sort_loop below (suc left) idx new none c =
    let here = record c { slots = set_slot idx new c.slots } in
    let swapped : Category =
      sort_loop below left (idx + 1) new (some (c.slots idx))
        (record here { first_level = if idx == 0 then new.tbl else c.first_level }) in
    let on : Category = sort_loop below left (idx + 1) new none c in
    let last : Category = sort_loop below left (idx + 1) new none here in
    if ltb idx (c.count - 1)
    then (if below new.tbl (c.slots idx).tbl then swapped else on)
    else last

-- The loop that looks for a table of the same name, from `idx` on.
abbrev pub same_table : (name : ℕ → List ℕ) (tbl left idx : ℕ) → Category → Option ℕ
same_table name tbl zero idx c = none
same_table name tbl (suc left) idx c =
    let rest = same_table name tbl left (idx + 1) c in
    if strcmp_zero (name tbl) (name (c.slots idx).tbl) then some idx else rest

abbrev pub replace_table : CliCat → (tbl mask i : ℕ) → Category → Category
replace_table cat tbl mask i c = record c {
  slots = set_slot i (new_slot tbl mask) c.slots;
  first_level = if (c.count == 0) && not (is_root cat) then tbl else c.first_level;
}

abbrev pub add_table : (below : ℕ → ℕ → Bool) → CliCat → (tbl mask : ℕ) → Category → Category
add_table below cat tbl mask c =
    let c' : Category = record c { count = c.count + 1 } in
    if ltb 0 c.count && not (is_root cat)
    then sort_loop below (suc c.count) 0 (new_slot tbl mask) none c'
    else record c' {
      slots = set_slot c.count (new_slot tbl mask) c.slots;
      first_level = if (c.count == 0) && not (is_root cat) then tbl else c.first_level;
    }

-- What follows when the name is found: the abbreviations are compared. `none` is an access through
-- NULL.
abbrev pub attach_at :
    (below : ℕ → ℕ → Bool) (abbr : ℕ → Option (List ℕ))
    → CliCat
    → (tbl mask : ℕ) → Option ℕ
    → Category
    → Option (Clir × Category)
attach_at below abbr cat tbl mask none c = some (cli_ok, add_table below cat tbl mask c)
attach_at below abbr cat tbl mask (some i) c = elim (abbr (c.slots i).tbl) [
  | none ↦ some (cli_ok, replace_table cat tbl mask i c)
  | some old ↦ elim (abbr tbl) [
    | none ↦ none
    | some new ↦
        if strcmp_zero new old
        then some (cli_ok, replace_table cat tbl mask i c)
        else some (cli_ok, add_table below cat tbl mask c)
  ]
]

-- `cli_parser_attach_cmd_tbl`; `given` says that the table has a name and the category exists.
unfoldable pub attach_cmd_tbl :
    (below : ℕ → ℕ → Bool) (name : ℕ → List ℕ) (abbr : ℕ → Option (List ℕ)) (given : Bool)
    → CliCat
    → (tbl mask : ℕ) → Category
    → Option (Clir × Category)
attach_cmd_tbl below name abbr given cat tbl mask c =
    if not given
    then some (inv_arg, c)
    else if leb max_cmd_tbl_num c.count
    then some (cmd_tbl_full, c)
    else attach_at below abbr cat tbl mask (same_table name tbl c.count 0 c) c
