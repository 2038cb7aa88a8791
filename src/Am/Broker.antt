-- ===== src/Am/Broker.antt =====
-- am/amb/amb.c: the broker. The list of the registrations starts with the last one; its links to the
-- previous one are never read. `reached` stands for the `b_ok` that the manager sets when it has
-- processed a synchronous request.
use multithreading.Prelude.{
  ℕ, suc, ◌*◌, ◌^◌, Bool, true, false, Option, none, some, List, [], ◌∷◌, ◌&&◌, ◌||◌, not,
  if◌then◌else◌, ltb, length,
}
use multithreading.MsgQ.Names.{same_string}
use multithreading.Am.{
  Amr, Aeer, Post, Desc, Reg, ok, fail, inv_arg, not_authorized, be_registered, Broadcast, Dispatch,
  Request, start, exit, reg, resume, pause, broadcast_msg, dispatch_msg,
}
use multithreading.Am.Retry.{is_ok, retry_times, send_retry}
use multithreading.Am.Apps.{app_mngr, broadcast_msg_max_len}

-- The walk of `_amb_authorized_app` and of `u_amb_get_register_info`; `none` is NULL.
unfoldable pub u_amb_get_register_info : (ps_name : List ℕ) → List Reg → Option Reg
u_amb_get_register_info ps_name [] = none
u_amb_get_register_info ps_name (r ∷ regs) =
    if same_string r.s_name ps_name then some r else u_amb_get_register_info ps_name regs

abbrev pub name_of : Option Reg → Option (List ℕ)
name_of none = none
name_of (some r) = some r.s_name

unfoldable pub amb_authorized_app : (ps_name : List ℕ) → List Reg → Option (List ℕ)
amb_authorized_app ps_name regs = name_of (u_amb_get_register_info ps_name regs)

-- An asynchronous request leaves `b_ok` TRUE.
abbrev pub request_result : (b_sync reached : Bool) → Aeer → Amr
request_result b_sync reached i = if is_ok i && (not b_sync || reached) then ok else fail

unfoldable pub amb_send_request_to_am :
    (answer : ℕ → Aeer) (b_sync reached : Bool) (h_am : ℕ)
    → Request
    → Post Request
    → Amr × Post Request
amb_send_request_to_am answer b_sync reached h_am q p =
    let (i, p') =
      send_retry answer b_sync (suc retry_times) none (record { to = h_am; body = q }) p in
    (request_result b_sync reached i, p')

-- `make` puts the name into a request of the kind that is asked for.
unfoldable pub amb_lifecycle_req :
    (answer : ℕ → Aeer) (b_sync reached : Bool) (h_am : ℕ) (ps_name : Option (List ℕ))
    → (make : List ℕ → Request) → List Reg
    → Post Request
    → Amr × Post Request
amb_lifecycle_req answer b_sync reached h_am none make regs p = (inv_arg, p)
amb_lifecycle_req answer b_sync reached h_am (some name) make regs p =
    elim (amb_authorized_app name regs) [
      | none ↦ (not_authorized, p)
      | some app ↦ amb_send_request_to_am answer b_sync reached h_am (make app) p
    ]

-- The bounds of `t_g_app_desc`; `highest` is APP_THREAD_HIGHEST_PRIORITY.
abbrev pub within_bounds : (highest : ℕ) → Desc → Bool
within_bounds highest d =
    not (ltb (128 * 1024) d.z_stack_size)
    && not (ltb d.ui1_priority highest)
    && not (ltb 1024 d.ui2_num_msgs)
    && not (ltb 500 d.ui2_msg_count)
    && not (ltb 4096 d.ui2_max_msg_size)

abbrev pub send_reg :
    (answer : ℕ → Aeer) (reached : Bool) (h_am : ℕ)
    → Reg
    → List Reg
    → Post Request
    → Amr × List Reg × Post Request
send_reg answer reached h_am r regs p =
    let (c, p') = amb_send_request_to_am answer true reached h_am (reg r.s_name) p in
    (c, r ∷ regs, p')

unfoldable pub u_amb_register_app :
    (highest : ℕ) (answer : ℕ → Aeer) (reached : Bool) (h_am : ℕ)
    → Reg
    → List Reg
    → Post Request
    → Amr × List Reg × Post Request
u_amb_register_app highest answer reached h_am r regs p =
    if not (r.callbacks && within_bounds highest r.t_desc)
    then (inv_arg, regs, p)
    else elim (amb_authorized_app r.s_name regs) [
      | some app ↦ (be_registered, regs, p)
      | none ↦ send_reg answer reached h_am r regs p
    ]

module _ (answer : ℕ → Aeer) (reached : Bool) (h_am : ℕ) (ps_name : Option (List ℕ)) where
  abbrev pub u_amb_start_app : List Reg → Post Request → Amr × Post Request
  u_amb_start_app = amb_lifecycle_req answer false reached h_am ps_name start

  abbrev pub u_amb_resume_app : List Reg → Post Request → Amr × Post Request
  u_amb_resume_app = amb_lifecycle_req answer false reached h_am ps_name resume

  abbrev pub u_amb_pause_app : List Reg → Post Request → Amr × Post Request
  u_amb_pause_app = amb_lifecycle_req answer false reached h_am ps_name pause

  abbrev pub u_amb_exit_app : List Reg → Post Request → Amr × Post Request
  u_amb_exit_app = amb_lifecycle_req answer false reached h_am ps_name exit

  abbrev pub u_amb_sync_start_app : List Reg → Post Request → Amr × Post Request
  u_amb_sync_start_app = amb_lifecycle_req answer true reached h_am ps_name start

  abbrev pub u_amb_sync_exit_app : List Reg → Post Request → Amr × Post Request
  u_amb_sync_exit_app = amb_lifecycle_req answer true reached h_am ps_name exit

-- `none` is a NULL message. AMB_BROADCAST_OFFSET is `2 ^ 16`.
unfoldable pub u_amb_broadcast_msg :
    (answer : ℕ → Aeer) (b_sync reached : Bool) (h_am : ℕ)
    → Option Broadcast
    → Post Request
    → Amr × Post Request
u_amb_broadcast_msg answer b_sync reached h_am none p = (inv_arg, p)
u_amb_broadcast_msg answer b_sync reached h_am (some m) p =
    if ltb broadcast_msg_max_len (length m.uc_msg) || ltb m.ui4_type (2 ^ 16)
    then (inv_arg, p)
    else amb_send_request_to_am answer b_sync reached h_am (broadcast_msg m) p

-- DISPATCH_MSG_MAX_LEN
abbrev pub dispatch_msg_max_len : ℕ
dispatch_msg_max_len = 20

abbrev pub is_known : Option Reg → Bool
is_known none = false
is_known (some r) = true

unfoldable pub u_amb_dispatch_msg :
    (answer : ℕ → Aeer) (reached : Bool) (h_am : ℕ)
    → Option Dispatch
    → List Reg
    → Post Request
    → Amr × Post Request
u_amb_dispatch_msg answer reached h_am none regs p = (inv_arg, p)
u_amb_dispatch_msg answer reached h_am (some m) regs p =
    if ltb dispatch_msg_max_len (length m.uc_msg)
    then (inv_arg, p)
    else if not (is_known (u_amb_get_register_info m.ps_name regs))
        && not (same_string m.ps_name app_mngr)
    then (not_authorized, p)
    else amb_send_request_to_am answer false reached h_am (dispatch_msg m) p
