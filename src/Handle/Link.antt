-- ===== src/Handle/Link.antt =====
-- mw/handle.c: the lists of handles that belong to a data object, and their traversal.
use multithreading.Prelude.{
  ℕ, zero, suc, ◌-◌, Bool, true, false, Option, none, some, ◌==◌, ltb, leb, ◌&&◌, ◌||◌, not,
  if◌then◌else◌, inc16,
}
use multithreading.Handle.State.{
  State, Hr, ok, inv_arg, inv_handle, not_allowed, recursion_error, already_linked, not_linked,
  not_init, Exec, ret, abort, fault, unfinished, null_idx, res_by_handle_lib, set_ctrl, set_link,
  make_handle, get_h_ctrl_from_handle, get_h_ctrl_from_idx,
}

-- `handle_link_init`
unfoldable pub handle_link_init : (p : ℕ) → State → Hr × State
handle_link_init p st = if p == 0 then (inv_arg, st) else (
  ok,
  set_link st p
      (record { head = null_idx; tail = null_idx; h_count = 0; parsing = false; free_all = false }),
)

-- `handle_link_is_empty` and `handle_num_links`
unfoldable pub handle_link_is_empty : State → (p : ℕ) → Bool
handle_link_is_empty st p = (p == 0) || ((st.links p).h_count == 0)

unfoldable pub handle_num_links : State → (p : ℕ) → ℕ
handle_num_links st p = if p == 0 then 0 else (st.links p).h_count

-- The structure `i` becomes the last of the list at `p`.
unfoldable pub append_ctrl : (p i : ℕ) → State → State
append_ctrl p i st =
    let tail = (st.links p).tail in
    let a = set_ctrl st i (record (st.arr i) { linked = true; next = null_idx; prev = tail }) in
    let b : State =
      if tail == null_idx
      then set_link a p (record (a.links p) { head = i })
      else set_ctrl a tail (record (a.arr tail) { next = i }) in
    let l = b.links p in set_link b p (record l { tail = i; h_count = inc16 l.h_count })

-- `u_handle_link`
unfoldable pub u_handle_link : (p h : ℕ) → State → Hr × State
unfolding append_ctrl get_h_ctrl_from_handle
u_handle_link p h st =
    if not st.init
    then (not_init, st)
    else if p == 0
    then (inv_arg, st)
    else elim (get_h_ctrl_from_handle st h) [
      | none ↦ (inv_handle, st)
      | some i ↦
          if not (leb res_by_handle_lib (st.arr i).e_type)
          then (inv_handle, st)
          else if (st.arr i).linked
          then (already_linked, st)
          else (ok, append_ctrl p i st)
    ]

-- The structure `i`, with the neighbours `next` and `prev`, leaves the list at `p`.
unfoldable pub remove_ctrl : (p i next prev : ℕ) → State → State
remove_ctrl p i next prev st =
    let a = set_ctrl st i (record (st.arr i) { linked = false }) in
    let b : State =
      if next == null_idx
      then set_link a p (record (a.links p) { tail = prev })
      else set_ctrl a next (record (a.arr next) { prev = prev }) in
    let c : State =
      if prev == null_idx
      then set_link b p (record (b.links p) { head = next })
      else set_ctrl b prev (record (b.arr prev) { next = next }) in
    let d = set_ctrl c i (record (c.arr i) { next = null_idx; prev = null_idx }) in
    let l = d.links p in
    if ltb 0 l.h_count then set_link d p (record l { h_count = l.h_count - 1 }) else d

-- `u_handle_delink`
unfoldable pub u_handle_delink : (p h : ℕ) → State → Hr × State
unfolding remove_ctrl get_h_ctrl_from_handle
u_handle_delink p h st =
    if not st.init
    then (not_init, st)
    else if p == 0
    then (inv_arg, st)
    else elim (get_h_ctrl_from_handle st h) [
      | none ↦ (inv_handle, st)
      | some i ↦
          if not (leb res_by_handle_lib (st.arr i).e_type)
          then (inv_handle, st)
          else if not (st.arr i).linked
          then (not_linked, st)
          else if (st.links p).parsing && not (st.arr i).parsing
          then (not_allowed, st)
          else (ok, remove_ctrl p i (st.arr i).next (st.arr i).prev st)
    ]

-- HP_TYPE_T, with any other value
pub data HpType : Type 0 where
  hp_next hp_break hp_restart hp_other : HpType

-- `pf_parse`, less its constant argument: the position, the number of handles, the handle, its
-- type, object and tag.
abbrev pub Parse : Type 0
Parse = ℕ → ℕ → ℕ → ℕ → ℕ → ℕ → State → HpType × State

abbrev pub set_parsing : State → ℕ → Bool → State
set_parsing st i b = set_ctrl st i (record (st.arr i) { parsing = b })

-- The call of `pf_parse` for the structure `i`, with its flag set and cleared again.
abbrev pub visit : Parse → (p pos i : ℕ) → State → HpType × State
visit f p pos i st =
    let t = set_parsing st i true in
    let c = t.arr i in
    let (r, u) = f pos (t.links p).h_count (make_handle t i) c.e_type c.obj c.tag t in
    (r, set_parsing u i false)

-- The loop of `handle_parse` at the structure `curr`; `unfinished` when the fuel is used up.
unfoldable pub parse_loop : (fuel : ℕ) → Parse → (p pos : ℕ) (curr : Option ℕ) → State → Exec State
unfolding get_h_ctrl_from_idx make_handle
parse_loop zero f p pos curr st = unfinished
parse_loop (suc fuel) f p pos none st = ret st
parse_loop (suc fuel) f p pos (some i) st =
    let next = get_h_ctrl_from_idx (st.arr i).next in
    let before = (st.links p).h_count in
    let (r, t) = visit f p pos i st in
    let after = (t.links p).h_count in
    elim r [
      | hp_next ↦ elim (leb before after) [
        | true ↦ parse_loop fuel f p (inc16 pos) next t
        | false ↦ elim (before - after == 1) [
          | true ↦ parse_loop fuel f p pos next t
          | false ↦ abort
        ]
      ]
      | hp_break ↦ parse_loop fuel f p pos none t
      | hp_restart ↦ parse_loop fuel f p 0 (get_h_ctrl_from_idx (t.links p).head) t
      | hp_other ↦ abort
    ]

abbrev pub set_list_parsing : State → ℕ → Bool → State
set_list_parsing st p b = set_link st p (record (st.links p) { parsing = b })

-- `handle_parse`; `f` is `none` for the null pointer.
unfoldable pub handle_parse : (fuel p : ℕ) → Option Parse → State → Exec (Hr × State)
unfolding parse_loop get_h_ctrl_from_idx
handle_parse fuel p none st = ret (if st.init then inv_arg else not_init, st)
handle_parse fuel p (some f) st =
    if not st.init
    then ret (not_init, st)
    else if p == 0
    then ret (inv_arg, st)
    else if (st.links p).parsing
    then ret (recursion_error, st)
    else let t = set_list_parsing st p true in
      elim (parse_loop fuel f p 0 (get_h_ctrl_from_idx (t.links p).head) t) [
        | ret u ↦ ret (ok, set_list_parsing u p false)
        | abort ↦ abort
        | fault ↦ fault
        | unfinished ↦ unfinished
      ]
