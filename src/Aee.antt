-- ===== src/Aee.antt =====
-- am/aee/aee.c: the execution environment of the applications. An environment (AEE_T) is its address, NULL
-- is 0, and the variable `pt_aees` is the link of the address 0. The handle library is seen through what
-- its look-up gives for each handle.
pub mod Line
pub mod Listed
pub mod Calls
pub mod Open
pub mod Main
mod Examples
use multithreading.Prelude.{
  ℕ, zero, suc, ◌+◌, Bool, true, false, Option, none, some, List, [], ◌∷◌, ◌==◌, ◌||◌, ◌&&◌, not,
  if◌then◌else◌,
}
use multithreading.Ring.{store}
use multithreading.MsgQ.Names.{same_string}

-- The codes AEER_, without the prefix.
pub data Aeer : Type 0 where
  ok fail inv_arg inv_name inv_handle out_of_memory out_of_handles not_authorized : Aeer

-- AEE_T, less its place in the list, its flags and its tag.
pub record Aee : Type 0 where
  pub h_app : ℕ
  pub h_parent_app : ℕ
  pub h_aux : ℕ
  pub h_msg_queue : ℕ
  pub h_thread : ℕ
  pub ui4_app_group_id : ℕ
  pub ui4_app_id : ℕ
  pub pf_receive_data : ℕ
  pub s_name : List ℕ

-- What a handle of a type of this component names: its type, and the object.
pub record Object : Type 0 where
  pub is_aee : Bool
  pub pv_obj : ℕ

pub record Aees : Type 0 where
  pub pt_next : ℕ → ℕ
  pub aees : ℕ → Aee
  pub objects : ℕ → Option Object

abbrev pub set_aee : ℕ → Aee → Aees → Aees
set_aee t x s = record s { aees = λ k. if t == k then x else s.aees k }

abbrev pub set_object : ℕ → Option Object → Aees → Aees
set_object h o s = record s { objects = λ k. if h == k then o else s.objects k }

unfoldable pub aee_add : ℕ → Aees → Aees
aee_add t s = record s { pt_next = store (store s.pt_next t (s.pt_next 0)) 0 t }

-- The loop of `aee_remove` with `ppt_aee` at the link of `slot`; `none` is the end of the fuel.
unfoldable pub remove_loop : (fuel slot t : ℕ) → (ℕ → ℕ) → Option (ℕ → ℕ)
remove_loop zero slot t next = none
remove_loop (suc fuel) slot t next =
    let rest = remove_loop fuel (next slot) t next in
    if next slot == 0
    then some next
    else if next slot == t
    then some (store next slot (next t))
    else rest

abbrev pub with_links : Aees → Option (ℕ → ℕ) → Option Aees
with_links s none = none
with_links s (some next) = some (record s { pt_next = next })

unfoldable pub aee_remove : (fuel t : ℕ) → Aees → Option Aees
aee_remove fuel t s = with_links s (remove_loop fuel 0 t s.pt_next)

-- The walk through the list; the result 0 is NULL.
unfoldable pub walk : (fuel : ℕ) (test : ℕ → Bool) (next : ℕ → ℕ) (p : ℕ) → Option ℕ
walk zero test next p = none
walk (suc fuel) test next p =
    let rest = walk fuel test next (next p) in
    if p == 0 then some 0 else if test p then some p else rest

unfoldable pub aee_find_by_name : (fuel : ℕ) (ps_name : List ℕ) → Aees → Option ℕ
aee_find_by_name fuel name s =
    walk fuel (λ k. same_string (s.aees k).s_name name) s.pt_next (s.pt_next 0)

-- `aee_get_app_handle`
abbrev app_of : Aees → ℕ → Aeer × Option ℕ
app_of s p = if p == 0 then (inv_handle, none) else (ok, some (s.aees p).h_app)

unfoldable pub aee_get_app_handle : (fuel h_thread : ℕ) → Aees → Option (Aeer × Option ℕ)
aee_get_app_handle fuel h s =
    if s.pt_next 0 == 0
    then some (not_authorized, none)
    else elim (walk fuel (λ k. (s.aees k).h_thread == h) s.pt_next (s.pt_next 0)) [
      | none ↦ none
      | some p ↦ some (app_of s p)
    ]

abbrev pub orphan : (h_app : ℕ) → Aee → Aee
orphan h x = if x.h_parent_app == h then record x { h_parent_app = 0 } else x

-- The loop of `aee_clean_relationships` at the environment `p`.
unfoldable pub clean_loop : (fuel h_app p : ℕ) → Aees → Option Aees
clean_loop zero h p s = none
clean_loop (suc fuel) h p s =
    let rest = clean_loop fuel h (s.pt_next p) (set_aee p (orphan h (s.aees p)) s) in
    if p == 0 then some s else rest

unfoldable pub aee_clean_relationships : (fuel h_app t : ℕ) → Aees → Option Aees
aee_clean_relationships fuel h t s =
    if not ((s.aees t).h_parent_app == 0) then clean_loop fuel h (s.pt_next 0) s else some s

abbrev pub is_valid : Option Object → Bool
is_valid none = false
is_valid (some o) = true

-- `u_handle_free` of a primary handle, not requested with it: a handle that is not valid is refused, and for a
-- valid one `aee_free_handle` runs and allows it. `autofree` is what becomes of the handles that are linked
-- to `h_aux`, and of that one itself; any of these may be refused.
unfoldable pub free_primary :
    (autofree : (h_aux : ℕ) → (ℕ → Option Object) → ℕ → Option Object) (fuel h_app t : ℕ)
    → Aees
    → Option Aees
free_primary autofree fuel h t s =
    if not (is_valid (s.objects h))
    then some s
    else elim (aee_clean_relationships fuel h t
        (record s { objects = autofree (s.aees t).h_aux s.objects })) [
          | none ↦ none
          | some s' ↦ some (set_object h none s')
        ]

-- `aee_clean_up`, behind the application's own function.
unfoldable pub aee_clean_up :
    (autofree : (h_aux : ℕ) → (ℕ → Option Object) → ℕ → Option Object) (fuel h_app t : ℕ)
    → Aees
    → Option Aees
aee_clean_up autofree fuel h t s = elim (aee_remove fuel t s) [
  | none ↦ none
  | some s' ↦ free_primary autofree fuel h t s'
]

-- `aee_get_handle_op`; `handle` is what `u_handle_alloc` gives.
unfoldable pub aee_get_handle_op :
    (fuel : ℕ) (handle : Option ℕ) (ps_name : List ℕ) → Aees → Option (Aeer × Aees)
aee_get_handle_op fuel none name s = some (out_of_handles, s)
aee_get_handle_op fuel (some h) name s = elim (aee_find_by_name fuel name s) [
  | none ↦ none
  | some p ↦
      if p == 0
      then some (fail, set_object h none s)
      else some (ok, set_object h (some (record { is_aee = true; pv_obj = p })) s)
]

-- The look-up of a handle of one of the two types, as four functions write it.
abbrev pub aee_of : Option Object → Option ℕ
aee_of none = none
aee_of (some o) = if o.is_aee then some o.pv_obj else none

-- `aee_send_data_op`, with the function that gets the data.
unfoldable pub aee_send_data_op : (h_app : ℕ) → Aees → Aeer × Option ℕ
aee_send_data_op h s = elim (aee_of (s.objects h)) [
  | none ↦ (inv_handle, none)
  | some t ↦ (ok, some (s.aees t).pf_receive_data)
]

unfoldable pub aee_get_msg_queue : (h_app : ℕ) → Aees → Aeer × Option ℕ
aee_get_msg_queue h s = elim (aee_of (s.objects h)) [
  | none ↦ (inv_handle, none)
  | some t ↦ (ok, some (s.aees t).h_msg_queue)
]

unfoldable pub aee_set_msg_queue : (h_app h_msg_queue : ℕ) → Aees → Aeer × Aees
aee_set_msg_queue h q s = elim (aee_of (s.objects h)) [
  | none ↦ (inv_handle, s)
  | some t ↦ (ok, set_aee t (record (s.aees t) { h_msg_queue = q }) s)
]

unfoldable pub aee_get_thread : (h_app : ℕ) → Aees → Aeer × Option ℕ
aee_get_thread h s = elim (aee_of (s.objects h)) [
  | none ↦ (inv_handle, none)
  | some t ↦ (ok, some (s.aees t).h_thread)
]
