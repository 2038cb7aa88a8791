-- ===== src/Handle/Free.antt =====
-- mw/handle.c: `u_handle_free` and `u_handle_free_all`. `Clients` holds the functions of the
-- callers; the address of `aux_link_head_free` is one of the addresses, `aux_fct`.
use multithreading.Prelude.{
  ℕ, zero, suc, ◌-◌, ◌/◌, ◌%◌, ◌^◌, Bool, true, false, none, some, ◌==◌, ltb, ◌&&◌, not,
  if◌then◌else◌, inc8, inc16,
}
use multithreading.Handle.State.{
  State, Hr, ok, inv_arg, inv_handle, not_allowed, recursion_error, free_not_allowed, not_init,
  Exec, ret, abort, fault, unfinished, null_idx, group_size, nb_groups, update, set_ctrl, set_link,
  make_handle, get_h_ctrl_from_handle, get_h_ctrl_from_idx,
}
use multithreading.Handle.Aux.{aux_link_head_free, delink_from_aux}

-- The callbacks: `on_free fct h e_type obj tag b_req_handle` and `on_aux_free fct obj`. They may
-- call the library, so they take and give the state.
pub record Clients : Type 0 where
  pub on_free : ℕ → ℕ → ℕ → ℕ → ℕ → Bool → State → Bool × State
  pub on_aux_free : ℕ → ℕ → State → State
  pub aux_fct : ℕ

-- The call of `pf_free`.
unfoldable pub call_free : Clients → (fct h e_type obj tag : ℕ) → Bool → State → Exec (Bool × State)
unfolding aux_link_head_free
call_free k fct h e_type obj tag req st =
    if fct == 0
    then abort
    else if fct == k.aux_fct
    then elim (aux_link_head_free st h e_type) [ none ↦ abort | some b ↦ ret (b, st) ]
    else ret (k.on_free fct h e_type obj tag req st)

abbrev pub set_freeing : State → ℕ → Bool → State
set_freeing st i b = set_ctrl st i (record (st.arr i) { freeing = b })

abbrev pub count_unused : State → ℕ → State
count_unused st e_type =
    let g : ℕ = e_type / group_size in
    if ltb g nb_groups && ltb 0 (st.num_used_per_grp g)
    then record st { num_used_per_grp = update st.num_used_per_grp g (st.num_used_per_grp g - 1) }
    else st

-- The structure `i` goes back to the front of the free list.
unfoldable pub give_back : ℕ → State → State
give_back i st =
    let t = set_ctrl st i (record (st.arr i) {
      count = inc8 (st.arr i).count;
      active = false;
      next = st.free_handles;
      prev = null_idx;
    }) in
    count_unused (record t { free_handles = i % 2 ^ 16; num_free = inc16 t.num_free })
      (t.arr i).e_type

abbrev pub drop_aux : Clients → ℕ → State → State
drop_aux k i st =
    if (st.arr i).aux_link_head == null_idx then st else delink_from_aux k.on_aux_free i st

-- Behind a callback that agrees.
unfoldable pub finish_free : Clients → ℕ → State → Exec State
unfolding delink_from_aux
finish_free k i st = if (st.arr i).linked then abort else ret (give_back i (drop_aux k i st))

-- The callback and what follows it; `handle` is what the callback is given.
unfoldable pub free_ctrl : Clients → (i handle : ℕ) → Bool → State → Exec (Bool × State)
free_ctrl k i handle req st =
    let c = st.arr i in
    elim (call_free k c.pf_free handle c.e_type c.obj c.tag req (set_freeing st i true)) [
      | ret (true, t) ↦ elim (finish_free k i t) [
        | ret u ↦ ret (true, u)
        | abort ↦ abort
        | fault ↦ fault
        | unfinished ↦ unfinished
      ]
      | ret (false, t) ↦ ret (false, set_freeing t i false)
      | abort ↦ abort
      | fault ↦ fault
      | unfinished ↦ unfinished
    ]

-- `u_handle_free`
unfoldable pub u_handle_free : Clients → (h : ℕ) → Bool → State → Exec (Hr × State)
unfolding free_ctrl get_h_ctrl_from_handle
u_handle_free k h req st =
    if not st.init then ret (not_init, st) else elim (get_h_ctrl_from_handle st h) [
      | none ↦ ret (inv_handle, st)
      | some i ↦
          if (st.arr i).freeing then ret (free_not_allowed, st) else elim (free_ctrl k i h req st) [
            | ret (true, t) ↦ ret (ok, t)
            | ret (false, t) ↦ ret (free_not_allowed, t)
            | abort ↦ abort
            | fault ↦ fault
            | unfinished ↦ unfinished
          ]
    ]

-- The loop of `u_handle_free_all` over the list at `p`; `unfinished` when the fuel is used up.
unfoldable pub free_loop : (fuel : ℕ) → Clients → (p : ℕ) → State → Exec (Bool × State)
unfolding free_ctrl make_handle get_h_ctrl_from_idx
free_loop zero k p st = unfinished
free_loop (suc fuel) k p st = elim (get_h_ctrl_from_idx (st.links p).head) [
  | none ↦ ret (true, st)
  | some i ↦ elim (st.arr i).freeing [
    | true ↦ ret (false, st)
    | false ↦ elim (free_ctrl k i (make_handle st i) false st) [
      | ret (true, t) ↦ free_loop fuel k p t
      | ret (false, t) ↦ ret (false, t)
      | abort ↦ abort
      | fault ↦ fault
      | unfinished ↦ unfinished
    ]
  ]
]

abbrev pub set_free_all : State → ℕ → Bool → State
set_free_all st p b = set_link st p (record (st.links p) { free_all = b })

-- `u_handle_free_all`, of the list at the address `p`.
unfoldable pub u_handle_free_all : (fuel : ℕ) → Clients → (p : ℕ) → State → Exec (Hr × State)
unfolding free_loop
u_handle_free_all fuel k p st =
    if not st.init
    then ret (not_init, st)
    else if p == 0
    then ret (inv_arg, st)
    else if (st.links p).parsing
    then ret (not_allowed, st)
    else if (st.links p).free_all
    then ret (recursion_error, st)
    else elim (free_loop fuel k p (set_free_all st p true)) [
      | ret (true, t) ↦ ret (ok, set_free_all t p false)
      | ret (false, t) ↦ ret (free_not_allowed, set_free_all t p false)
      | abort ↦ abort
      | fault ↦ fault
      | unfinished ↦ unfinished
    ]
