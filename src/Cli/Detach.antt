-- ===== src/Cli/Detach.antt =====
-- cli/cli_parser.c: `cli_parser_detach_cmd_tbl` on the array of a category.
use multithreading.Prelude.{
  ℕ, zero, suc, ◌+◌, ◌-◌, Bool, true, false, Option, none, some, List, ◌==◌, ◌&&◌, not,
  if◌then◌else◌, ltb,
}
use multithreading.Cli.Command.{Clir, cli_ok, inv_arg, cmd_tbl_null, cmd_not_found, strcmp_zero}
use multithreading.Cli.Attach.{Slot, Category, max_cmd_tbl_num, set_slot}

-- Two strings, or NULL twice.
abbrev pub same_str : Option (List ℕ) → Option (List ℕ) → Bool
same_str none none = true
same_str none (some b) = false
same_str (some a) none = false
same_str (some a) (some b) = strcmp_zero a b

module _ (name : ℕ → List ℕ) (abbr : ℕ → Option (List ℕ)) (tbl mask : ℕ) where
  -- The slot that the table was put into with these groups.
  abbrev pub is_slot_of : Slot → Bool
  is_slot_of x =
      strcmp_zero (name tbl) (name x.tbl)
      && same_str (abbr tbl) (abbr x.tbl)
      && (x.grp_tbl == tbl)
      && (x.grp_msk == mask)

  -- The loop that looks for it, from `idx` on.
  unfoldable pub find_slot : (left idx : ℕ) (slots : ℕ → Slot) → Option ℕ
  find_slot zero idx slots = none
  find_slot (suc left) idx slots =
      let rest = find_slot left (idx + 1) slots in if is_slot_of (slots idx) then some idx else rest

-- The slot behind the last one, CLI_GRP_NONE being 0.
abbrev pub empty_slot : Slot
empty_slot = record { tbl = 0; grp_tbl = 0; grp_msk = 0 }

abbrev pub shift_one : ℕ → (ℕ → Slot) → ℕ → Slot
shift_one idx slots =
    if ltb idx (max_cmd_tbl_num - 1)
    then set_slot idx (slots (idx + 1)) slots
    else if idx == max_cmd_tbl_num - 1
    then set_slot idx empty_slot slots
    else slots

-- The loop that moves the slots behind `idx` on by one, with `left` rounds to go.
unfoldable pub shift_loop : (left idx : ℕ) → (ℕ → Slot) → ℕ → Slot
shift_loop zero idx slots = slots
shift_loop (suc left) idx slots = shift_loop left (idx + 1) (shift_one idx slots)

-- `given` says that the table has a name and the category exists.
unfoldable pub detach_cmd_tbl :
    (name : ℕ → List ℕ) (abbr : ℕ → Option (List ℕ)) (given : Bool) (tbl mask : ℕ)
    → Category
    → Clir × Category
detach_cmd_tbl name abbr given tbl mask c =
    if not given
    then (inv_arg, c)
    else if c.count == 0
    then (cmd_tbl_null, c)
    else elim (find_slot name abbr tbl mask c.count 0 c.slots) [
      | none ↦ (cmd_not_found, c)
      | some i ↦
          (cli_ok, record c { slots = shift_loop (c.count - i) i c.slots; count = c.count - 1 })
    ]
