-- ===== src/Handle/Access.antt =====
-- mw/handle.c: reading and setting the object of a handle, and the automatic release.
use multithreading.Prelude.{
  ℕ, ◌/◌, ◌%◌, Bool, true, Option, none, some, ◌==◌, ltb, ◌&&◌, ◌||◌, not, if◌then◌else◌,
}
use multithreading.Handle.State.{
  State, Hr, ok, inv_arg, inv_handle, not_init, Exec, ret, abort, fault, group_size, nb_groups,
  update, set_ctrl, get_h_ctrl_from_handle,
}

-- `handle_get_obj`; `given` says that the pointer for the result is not NULL.
unfoldable pub handle_get_obj : State → (h : ℕ) (given : Bool) → Hr × Option ℕ
unfolding get_h_ctrl_from_handle
handle_get_obj st h given =
    if not st.init
    then (not_init, none)
    else if not given
    then (inv_arg, none)
    else elim (get_h_ctrl_from_handle st h) [
      | none ↦ (inv_handle, none)
      | some i ↦ (ok, some (st.arr i).obj)
    ]

-- `u_handle_get_type_obj`: the code, and the type and object if it is HR_OK.
unfoldable pub u_handle_get_type_obj : State → (h : ℕ) (given : Bool) → Hr × Option (ℕ × ℕ)
unfolding get_h_ctrl_from_handle
u_handle_get_type_obj st h given =
    if not st.init
    then (not_init, none)
    else if not given
    then (inv_arg, none)
    else elim (get_h_ctrl_from_handle st h) [
      | none ↦ (inv_handle, none)
      | some i ↦ (ok, some ((st.arr i).e_type, (st.arr i).obj))
    ]

-- `u_handle_set_obj`
unfoldable pub u_handle_set_obj : (h obj : ℕ) → State → Hr × State
unfolding get_h_ctrl_from_handle
u_handle_set_obj h obj st =
    if not st.init
    then (not_init, st)
    else if obj == 0
    then (inv_arg, st)
    else elim (get_h_ctrl_from_handle st h) [
      | none ↦ (inv_handle, st)
      | some i ↦ (ok, set_ctrl st i (record (st.arr i) { obj = obj }))
    ]

-- `u_handle_set_autofree_tbl`; `tbl` is the address of a table of functions.
unfoldable pub u_handle_set_autofree_tbl : (e_group tbl : ℕ) → State → Hr × State
u_handle_set_autofree_tbl e_group tbl st =
    if ltb (e_group / group_size) nb_groups && not (tbl == 0)
    then (ok, record st { autofree = update st.autofree (e_group / group_size) tbl })
    else (inv_arg, st)

-- The branch of `u_handle_autofree` for a valid handle.
abbrev pub autofree_type :
    (entry : ℕ → ℕ → ℕ) (call : ℕ → ℕ → ℕ → State → Hr × State) (h : ℕ) → State → ℕ → Exec State
autofree_type entry call h st e_type =
    if not (ltb (e_type / group_size) nb_groups)
    then fault
    else let tbl = st.autofree (e_type / group_size) in
      let f = entry tbl (e_type % group_size) in
      if (tbl == 0) || (f == 0)
      then abort
      else let (r, t) = call f h e_type st in elim r [ ok ↦ ret t | _ ↦ abort ]

-- `u_handle_autofree`: `entry tbl j` is the function at the place `j` of a table (0 for NULL), and
-- `call` runs it. Reading the array of tables past its end is undefined.
unfoldable pub u_handle_autofree :
    (entry : ℕ → ℕ → ℕ) (call : ℕ → ℕ → ℕ → State → Hr × State) (h : ℕ) → State → Exec State
u_handle_autofree entry call h st =
    let (r, found) = u_handle_get_type_obj st h true in
    elim r [
      | ok ↦ elim found [ none ↦ abort | some (e_type, obj) ↦ autofree_type entry call h st e_type ]
      | inv_handle ↦ ret st
      | _ ↦ abort
    ]
