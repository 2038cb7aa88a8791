-- ===== src/Handle/Alloc.antt =====
-- mw/handle.c: the set-up of the table, `u_handle_alloc`, and the growth of the table.
-- `ctrl_size` is `sizeof (H_CTRL_T)`; `mem` says whether `malloc`, `calloc` or `realloc` succeeds. A
-- failed `realloc` leaves a null pointer that is written through.
use multithreading.Prelude.{
  ℕ, zero, suc, ◌+◌, ◌-◌, ◌*◌, ◌/◌, ◌%◌, ◌^◌, Bool, true, false, Option, none, some, ◌==◌, ltb, leb,
  ◌&&◌, ◌||◌, not, if◌then◌else◌, inc8, inc16, dec16,
}
use multithreading.Handle.State.{
  HCtrl, State, Hr, ok, inv_arg, out_of_handles, not_enough_mem, already_init, not_init, Exec, ret,
  abort, fault, unfinished, null_idx, no_handle_type, group_size, nb_groups, update, set_ctrl,
  make_handle, get_h_ctrl_from_idx, blank,
}

-- MAX_NUM_HANDLES and HANDLE_REALLOC_NUM
abbrev pub max_num_handles : ℕ
max_num_handles = 65535

abbrev pub realloc_num : ℕ
realloc_num = 1000

-- One round of the two loops that fill the table: the structure `idx + 1` goes to the front of the
-- free list.
abbrev pub add_free : ℕ → State → State
add_free idx st = record st {
  arr = update st.arr (idx + 1) (blank st.free_handles);
  free_handles = inc16 idx;
  num_free = inc16 st.num_free;
}

-- `for (ui2_idx = idx; ui2_idx < limit; ui2_idx++)`, where `limit` is an int. The result is `none`
-- when the fuel is used up.
unfoldable pub fill : (fuel : ℕ) (idx limit : ℕ) → State → Option State
fill zero idx limit st = none
fill (suc fuel) idx limit st =
    let rest = fill fuel (inc16 idx) limit (add_free idx st) in
    if ltb idx limit then rest else some st

-- The start address that `handle_init` works out for a memory chunk, from the lower 32 bits of the address,
-- and the size of the rest, a SIZE_T of 64 bits.
unfoldable pub adjusted : ℕ → ℕ
adjusted addr = addr % 2 ^ 32 + addr % 4

abbrev pub new_size : (addr size : ℕ) → ℕ
new_size addr size = (size + 2 ^ 64 - addr % 4) % 2 ^ 64

-- The table before its loop.
abbrev pub cleared : State → ℕ → State
cleared st n = record st {
  num_total = n;
  num_free = 0;
  num_peak_used = 0;
  num_used_per_grp = λ g. if ltb g nb_groups then 0 else st.num_used_per_grp g;
  free_handles = null_idx;
}

-- `handle_init`, on a chunk of `size` bytes at `addr`. `given` says that the pointers of the
-- caller are not NULL. The results are the code, and the address and size of what is left.
unfoldable pub handle_init :
    (ctrl_size n : ℕ) (given : Bool) (addr size : ℕ) → State → Exec (Hr × ℕ × ℕ × State)
unfolding fill adjusted
handle_init ctrl_size n given addr size st =
    if st.init
    then ret (already_init, addr, size, st)
    else if not (ltb 0 n && ltb n max_num_handles && given && not (addr == 0) && not (size == 0))
    then ret (inv_arg, addr, size, st)
    else if not (ltb (ctrl_size * (n + 1)) (new_size addr size))
    then ret (not_enough_mem, addr, size, st)
    else elim (fill (n + 1) 0 n (cleared st n)) [
      | none ↦ unfinished
      | some t ↦ ret (
        ok,
        adjusted addr % 2 ^ 32 + ctrl_size * (n + 1),
        new_size addr size - ctrl_size * (n + 1),
        record t { init = true },
      )
    ]

-- `u_handle_usr_init`, with the address that `malloc` gives.
unfoldable pub u_handle_usr_init : (ctrl_size n addr : ℕ) → State → Exec (Hr × ℕ × ℕ × State)
unfolding handle_init
u_handle_usr_init ctrl_size n addr st = handle_init ctrl_size n true addr (ctrl_size * (n + 5)) st

-- `u_handle_usr_uninit`, less the memory.
unfoldable pub u_handle_usr_uninit : State → Hr × State
u_handle_usr_uninit st = (ok, record st { init = false })

-- `realloc_handle_init`
unfoldable pub realloc_handle_init : (ctrl_size add size : ℕ) → State → Exec (Hr × State)
unfolding fill
realloc_handle_init ctrl_size add size st =
    if not (ltb 0 add)
    then ret (already_init, st)
    else if not (ltb add max_num_handles && not (size == 0))
    then ret (inv_arg, st)
    else if not (ltb (ctrl_size * (add + 1)) size)
    then ret (not_enough_mem, st)
    else elim (fill (add + 1) st.num_total (st.num_total + add) st) [
      | none ↦ unfinished
      | some t ↦ ret (ok, record t { num_total = (t.num_total + add) % 2 ^ 16; init = true })
    ]

-- `realloc_handle`
unfoldable pub realloc_handle : (ctrl_size : ℕ) (mem : Bool) (add : ℕ) → State → Exec (Hr × State)
unfolding realloc_handle_init
realloc_handle ctrl_size mem add st =
    if mem
    then realloc_handle_init ctrl_size add (ctrl_size * (st.num_total + add + 5)) st
    else fault

-- The growth of the table when at most 10 free handles are left.
abbrev pub refill : (ctrl_size : ℕ) (mem : Bool) → State → Exec (Hr × State)
refill ctrl_size mem st =
    if leb st.num_free 10 then realloc_handle ctrl_size mem realloc_num st else ret (ok, st)

abbrev pub take_free : State → ℕ → State
take_free st i = record st { free_handles = (st.arr i).next; num_free = dec16 st.num_free }

abbrev pub count_used : State → ℕ → State
count_used st e_type =
    if ltb (e_type / group_size) nb_groups
    then record st {
      num_used_per_grp =
          update st.num_used_per_grp (e_type / group_size)
            (inc16 (st.num_used_per_grp (e_type / group_size)));
    }
    else st

abbrev pub note_peak : State → State
note_peak st =
    if leb st.num_free st.num_total && ltb st.num_peak_used (st.num_total - st.num_free)
    then record st { num_peak_used = st.num_total - st.num_free }
    else st

-- The structure at `i` in use.
abbrev pub taken : (e_type obj tag pf_free : ℕ) → HCtrl → HCtrl
taken e_type obj tag pf_free c = record c {
  tag = tag;
  obj = obj;
  pf_free = pf_free;
  next = null_idx;
  prev = null_idx;
  aux_next = null_idx;
  aux_prev = null_idx;
  aux_link_head = null_idx;
  aux_link_count = 0;
  e_type = e_type;
  count = inc8 c.count;
  active = true;
  parsing = false;
  linked = false;
  freeing = false;
}

abbrev pub hand_out : (e_type obj tag pf_free i : ℕ) → State → State
hand_out e_type obj tag pf_free i st =
    let t = note_peak (count_used st e_type) in
    set_ctrl t i (taken e_type obj tag pf_free (t.arr i))

-- `u_handle_alloc`: the code, the handle (0 where the code writes none), and the state.
unfoldable pub u_handle_alloc :
    (ctrl_size : ℕ) (mem : Bool) (e_type obj tag pf_free : ℕ) (given : Bool)
    → State
    → Exec (Hr × ℕ × State)
unfolding get_h_ctrl_from_idx
u_handle_alloc ctrl_size mem e_type obj tag pf_free given st =
    if not st.init
    then ret (not_init, 0, st)
    else if not (given && not (pf_free == 0))
    then ret (inv_arg, 0, st)
    else if e_type == no_handle_type
    then ret (Hr.inv_handle_type, 0, st)
    else elim (get_h_ctrl_from_idx st.free_handles) [
      | none ↦ ret (out_of_handles, 0, st)
      | some i ↦ elim (refill ctrl_size mem (take_free st i)) [
        | ret (ok, t) ↦ let u = hand_out e_type obj tag pf_free i t in ret (ok, make_handle u i, u)
        | ret (_, t) ↦ ret (out_of_handles, 0, t)
        | abort ↦ abort
        | fault ↦ fault
        | unfinished ↦ unfinished
      ]
    ]

-- `handle_alloc_and_obj`: the code, the handle, the object and the state. `wanted` says that the
-- caller asks for the object, and `fresh` is what `calloc` gives. An object that is not handed out
-- is freed.
unfoldable pub handle_alloc_and_obj :
    (ctrl_size : ℕ) (mem : Bool) (e_type tag : ℕ) (wanted : Bool) (size fresh pf_free : ℕ)
    (given : Bool)
    → State
    → Exec (Hr × ℕ × ℕ × State)
unfolding u_handle_alloc
handle_alloc_and_obj ctrl_size mem e_type tag wanted size fresh pf_free given st =
    if not st.init
    then ret (not_init, 0, 0, st)
    else if not (given && not (pf_free == 0))
    then ret (inv_arg, 0, 0, st)
    else let obj : ℕ = if not wanted || (size == 0) then 0 else fresh in
      if wanted && not (size == 0) && (fresh == 0)
      then ret (not_enough_mem, 0, 0, st)
      else elim (u_handle_alloc ctrl_size mem e_type obj tag pf_free given st) [
        | ret (ok, h, t) ↦ ret (ok, h, obj, t)
        | ret (r, h, t) ↦ ret (r, h, 0, t)
        | abort ↦ abort
        | fault ↦ fault
        | unfinished ↦ unfinished
      ]
