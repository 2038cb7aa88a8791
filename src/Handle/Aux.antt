-- ===== src/Handle/Aux.antt =====
-- mw/handle.c: the auxiliary lists, which hang on a handle of their own.
use multithreading.Prelude.{
  ℕ, ◌-◌, Bool, false, Option, none, some, ◌==◌, ltb, leb, not, if◌then◌else◌, inc16,
}
use multithreading.Handle.State.{
  State, Hr, ok, inv_arg, inv_handle, already_linked, not_linked, inv_aux_head, not_init, Exec, ret,
  abort, fault, unfinished, null_idx, res_by_handle_lib, aux_link_head_type, set_ctrl, make_handle,
  get_h_ctrl_from_handle,
}
use multithreading.Handle.Alloc.{u_handle_alloc}

-- `aux_link_head_free`; `none` is ABORT.
unfoldable pub aux_link_head_free : State → (h e_type : ℕ) → Option Bool
unfolding get_h_ctrl_from_handle
aux_link_head_free st h e_type =
    if e_type == aux_link_head_type
    then elim (get_h_ctrl_from_handle st h) [
      | none ↦ none
      | some i ↦ some ((st.arr i).aux_link_count == 0)
    ]
    else none

-- The neighbours of the structure are linked to one another, or to the head.
abbrev pub skip_next : State → (next prev : ℕ) → State
skip_next st next prev =
    if next == null_idx then st else set_ctrl st next (record (st.arr next) { aux_prev = prev })

abbrev pub skip_prev : State → (head next prev : ℕ) → State
skip_prev st head next prev =
    if prev == null_idx
    then set_ctrl st head (record (st.arr head) { aux_next = next })
    else set_ctrl st prev (record (st.arr prev) { aux_next = next })

abbrev pub reset_aux : State → ℕ → State
reset_aux st i =
    set_ctrl st i
      (record (st.arr i) { aux_next = null_idx; aux_prev = null_idx; aux_link_head = null_idx })

abbrev pub count_down : State → ℕ → State
count_down st head =
    if ltb 0 (st.arr head).aux_link_count
    then set_ctrl st head
        (record (st.arr head) { aux_link_count = (st.arr head).aux_link_count - 1 })
    else st

-- `delink_from_aux`, behind the call of `pf_aux_free`: `head`, `next` and `prev` are the fields of
-- the structure `i`, read behind that call.
unfoldable pub unhook : State → (i head next prev : ℕ) → State
unhook st i head next prev =
    count_down (reset_aux (skip_prev (skip_next st next prev) head next prev) i) head

-- `delink_from_aux`. `on_aux_free` runs a function of the type `handle_aux_free_fct`. The index of
-- the head is read before that call.
unfoldable pub delink_from_aux : (on_aux_free : ℕ → ℕ → State → State) → ℕ → State → State
unfolding unhook
delink_from_aux on_aux_free i st =
    let head = (st.arr i).aux_link_head in
    let t : State =
      if (st.arr head).tag == 0 then st else on_aux_free (st.arr head).tag (st.arr head).obj st in
    unhook t i head (t.arr i).aux_next (t.arr i).aux_prev

-- `u_handle_alloc_aux_link_head`. `free_fct` is the address of `aux_link_head_free`.
unfoldable pub u_handle_alloc_aux_link_head :
    (ctrl_size : ℕ) (mem : Bool) (free_fct obj pf_aux_free : ℕ) (given : Bool)
    → State
    → Exec (Hr × ℕ × State)
unfolding u_handle_alloc get_h_ctrl_from_handle
u_handle_alloc_aux_link_head ctrl_size mem free_fct obj pf_aux_free given st =
    elim (u_handle_alloc ctrl_size mem aux_link_head_type obj 0 free_fct given st) [
      | ret (ok, h, t) ↦ elim (get_h_ctrl_from_handle t h) [
        | none ↦ abort
        | some i ↦ ret (ok, h, set_ctrl t i (record (t.arr i) { tag = pf_aux_free }))
      ]
      | ret (r, h, t) ↦ ret (r, h, t)
      | abort ↦ abort
      | fault ↦ fault
      | unfinished ↦ unfinished
    ]

-- The structure `i` becomes the first of the list of `head`: `next` is the first one so far.
unfoldable pub hook : State → (head i next : ℕ) → State
hook st head i next =
    let a = set_ctrl st i (record (st.arr i) { aux_next = next }) in
    let b : State =
      if next == null_idx then a else set_ctrl a next (record (a.arr next) { aux_prev = i }) in
    let c = set_ctrl b i (record (b.arr i) { aux_prev = null_idx }) in
    let d = set_ctrl c head (record (c.arr head) { aux_next = i }) in
    let e = set_ctrl d i (record (d.arr i) { aux_link_head = head }) in
    set_ctrl e head (record (e.arr head) { aux_link_count = inc16 (e.arr head).aux_link_count })

-- `u_handle_link_to_aux`
unfoldable pub u_handle_link_to_aux : (h_aux_head h : ℕ) → State → Hr × State
unfolding get_h_ctrl_from_handle hook
u_handle_link_to_aux h_aux_head h st =
    if not st.init then (not_init, st) else elim (get_h_ctrl_from_handle st h_aux_head) [
      | none ↦ (inv_aux_head, st)
      | some head ↦
          if not ((st.arr head).e_type == aux_link_head_type)
          then (inv_aux_head, st)
          else elim (get_h_ctrl_from_handle st h) [
            | none ↦ (inv_handle, st)
            | some i ↦
                if not (leb res_by_handle_lib (st.arr i).e_type)
                then (inv_handle, st)
                else if not ((st.arr i).aux_link_head == null_idx)
                then (already_linked, st)
                else (ok, hook st head i (st.arr head).aux_next)
          ]
    ]

-- `u_handle_delink_from_aux`
unfoldable pub u_handle_delink_from_aux :
    (on_aux_free : ℕ → ℕ → State → State) (h : ℕ) → State → Hr × State
unfolding get_h_ctrl_from_handle delink_from_aux
u_handle_delink_from_aux on_aux_free h st =
    if not st.init then (not_init, st) else elim (get_h_ctrl_from_handle st h) [
      | none ↦ (inv_handle, st)
      | some i ↦
          if not (leb res_by_handle_lib (st.arr i).e_type)
          then (inv_handle, st)
          else if (st.arr i).aux_link_head == null_idx
          then (not_linked, st)
          else (ok, delink_from_aux on_aux_free i st)
    ]

-- `u_handle_next_aux_linked`: the code and the handle, `none` where none is written.
unfoldable pub u_handle_next_aux_linked : (h : ℕ) (given : Bool) → State → Hr × Option ℕ
unfolding get_h_ctrl_from_handle make_handle
u_handle_next_aux_linked h given st =
    if not st.init
    then (not_init, none)
    else if not given
    then (inv_arg, none)
    else elim (get_h_ctrl_from_handle st h) [
      | none ↦ (inv_handle, none)
      | some i ↦ (
        ok,
        some (if (st.arr i).aux_next == null_idx then 0 else make_handle st (st.arr i).aux_next),
      )
    ]

-- `handle_num_aux_links`
unfoldable pub handle_num_aux_links : State → (h_aux_head : ℕ) → ℕ
unfolding get_h_ctrl_from_handle
handle_num_aux_links st h_aux_head =
    if not st.init then 0 else elim (get_h_ctrl_from_handle st h_aux_head) [
      | none ↦ 0
      | some i ↦ if (st.arr i).e_type == aux_link_head_type then (st.arr i).aux_link_count else 0
    ]

-- `handle_is_be_linked`
unfoldable pub handle_is_be_linked : State → (h : ℕ) → Bool
unfolding get_h_ctrl_from_handle
handle_is_be_linked st h = if not st.init then false else elim (get_h_ctrl_from_handle st h) [
  | none ↦ false
  | some i ↦ not ((st.arr i).aux_link_head == null_idx)
]
