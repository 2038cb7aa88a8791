-- ===== src/Aee/Calls.antt =====
-- am/aee/aee.c, am/aee/aee_api.c: an environment is made, its thread runs and ends.
use multithreading.Prelude.{ℕ, Bool, true, Option, none, some, List, not, if◌then◌else◌, take}
use multithreading.Aee.{
  Aeer, ok, fail, inv_arg, inv_name, out_of_memory, out_of_handles, Aee, Object, Aees, set_aee,
  set_object, aee_add, free_primary, aee_clean_up, aee_get_handle_op,
}

-- AEE_APP_DESC_T, as far as it is kept; `pv_arg_ok` says that there is no argument, or memory for it.
pub record AppDesc : Type 0 where
  pub pf_receive_data : ℕ
  pub ui4_app_group_id : ℕ
  pub ui4_app_id : ℕ
  pub pv_arg_ok : Bool

-- An environment as `aee_create_op` fills it before the handles are known.
abbrev pub new_aee : AppDesc → (ps_name : List ℕ) → Aee
new_aee d name = record {
  h_app = 0;
  h_parent_app = 0;
  h_aux = 0;
  h_msg_queue = 0;
  h_thread = 0;
  ui4_app_group_id = d.ui4_app_group_id;
  ui4_app_id = d.ui4_app_id;
  pf_receive_data = d.pf_receive_data;
  s_name = take 16 name;
}

abbrev pub failed_with : Aeer → Option Aees → Option (Aeer × Aees)
failed_with c none = none
failed_with c (some s) = some (c, s)

-- The handle, and with it what the code has written, is given back.
unfoldable pub create_failed :
    (autofree : (h_aux : ℕ) → (ℕ → Option Object) → ℕ → Option Object) (fuel : ℕ)
    → Aeer
    → (h t : ℕ) → Aees
    → Option (Aeer × Aees)
create_failed autofree fuel c h t s = failed_with c (free_primary autofree fuel h t s)

-- `aee_create_op`: what `malloc`, `u_handle_alloc`, `u_handle_alloc_aux_link_head` and `u_thread_create`
-- give, and the handle of the environment of the thread that calls, or 0.
unfoldable pub aee_create_op :
    (autofree : (h_aux : ℕ) → (ℕ → Option Object) → ℕ → Option Object) (fuel : ℕ)
    (mem handle aux thread : Option ℕ) (parent : ℕ)
    → AppDesc
    → (ps_name : List ℕ) → Aees
    → Option (Aeer × Aees)
aee_create_op autofree fuel none handle aux thread parent d name s = some (out_of_memory, s)
aee_create_op autofree fuel (some t) none aux thread parent d name s =
    some (out_of_handles, set_aee t (new_aee d name) s)
aee_create_op autofree fuel (some t) (some h) none thread parent d name s =
    create_failed autofree fuel out_of_handles h t
      (set_object h (some (record { is_aee = true; pv_obj = t })) (set_aee t (new_aee d name) s))
aee_create_op autofree fuel (some t) (some h) (some x) thread parent d name s =
    let a = record (new_aee d name) { h_aux = x; h_app = h } in
    let b = record a { h_parent_app = parent } in
    let with_handle = set_object h (some (record { is_aee = true; pv_obj = t })) in
    if not d.pv_arg_ok
    then create_failed autofree fuel fail h t (with_handle (set_aee t a s))
    else elim thread [
      | none ↦ create_failed autofree fuel fail h t (with_handle (set_aee t b s))
      | some th ↦ some (ok, with_handle (set_aee t (record b { h_thread = th }) s))
    ]

-- `u_aee_create`; `given` says that no pointer of its check is NULL.
unfoldable pub u_aee_create :
    (autofree : (h_aux : ℕ) → (ℕ → Option Object) → ℕ → Option Object) (fuel : ℕ) (given : Bool)
    (mem handle aux thread : Option ℕ) (parent : ℕ)
    → AppDesc
    → (ps_name : List ℕ) → Aees
    → Option (Aeer × Aees)
u_aee_create autofree fuel given mem handle aux thread parent d name s =
    if not given
    then some (inv_arg, s)
    else aee_create_op autofree fuel mem handle aux thread parent d name s

-- `_aee_get_handle`
unfoldable pub aee_get_handle :
    (fuel : ℕ) (name_given handle_given : Bool) (handle : Option ℕ) (ps_name : List ℕ)
    → Aees
    → Option (Aeer × Aees)
aee_get_handle fuel name_given handle_given handle name s =
    if not name_given
    then some (inv_name, s)
    else if not handle_given
    then some (inv_arg, s)
    else aee_get_handle_op fuel handle name s

-- `aee_main`, the thread of an environment: `kept` says that `u_thread_set_pvt` succeeds, `run` is what the
-- application's own function does meanwhile.
unfoldable pub aee_main :
    (autofree : (h_aux : ℕ) → (ℕ → Option Object) → ℕ → Option Object) (fuel : ℕ) (kept : Bool)
    (run : Aees → Aees) (h_app t : ℕ)
    → Aees
    → Option Aees
aee_main autofree fuel kept run h t s =
    let s1 = aee_add t s in aee_clean_up autofree fuel h t (if kept then run s1 else s1)

-- `aee_thread_create_main`, one more thread of an environment.
unfoldable pub aee_thread_create_main :
    (autofree : (h_aux : ℕ) → (ℕ → Option Object) → ℕ → Option Object) (fuel : ℕ) (kept : Bool)
    (run : Aees → Aees) (h_app t : ℕ)
    → Aees
    → Option Aees
aee_thread_create_main autofree fuel kept run h t s =
    aee_clean_up autofree fuel h t (if kept then run s else s)
