-- ===== src/Am/Apps.antt =====
-- am/am.c: the application manager.
use multithreading.Prelude.{
  ℕ, zero, suc, ◌+◌, ◌*◌, ◌-◌, ◌%◌, ◌^◌, Bool, true, false, Option, none, some, List, [], ◌∷◌, ◌++◌,
  length, ◌==◌, ◌&&◌, not, if◌then◌else◌, ltb, leb, take, inc32,
}
use multithreading.MsgQ.Names.{same_string}
use multithreading.Am.{
  Amr, Aeer, Post, Am, Desc, Reg, ok, fail, inv_arg, not_authorized, unknown_request,
  already_started, aee_code, Broadcast, Dispatch, Request, start, exit, reg, resume, pause,
  broadcast_msg, dispatch_msg, request_unknown, other_number,
}
use multithreading.Am.Retry.{is_ok, delay, retry_times, send_retry}

-- What an application is sent.
pub record Msg : Type 0 where
  pub ui4_type : ℕ
  pub bytes : List ℕ

abbrev pub amr_of : Aeer → Amr
amr_of none = ok
amr_of (some c) = fail

-- AM's own calls that succeed leave AMR_OK.
abbrev pub aee_result : Aeer → Amr
aee_result none = ok
aee_result (some c) = aee_code c

-- `MAX_APP_NUM`, `APP_NAME_MAX_LEN`, `BROADCAST_MSG_MAX_LEN`
abbrev pub max_app_num : ℕ
max_app_num = 30

abbrev pub app_name_max_len : ℕ
app_name_max_len = 16

abbrev pub broadcast_msg_max_len : ℕ
broadcast_msg_max_len = 24

-- APP_MNGR_NAME
abbrev pub app_mngr : List ℕ
app_mngr = 97 ∷ 112 ∷ 112 ∷ 95 ∷ 109 ∷ 110 ∷ 103 ∷ 114 ∷ []

-- `_am_app_send_msg`, an asynchronous message to the manager itself.
unfoldable pub am_app_send_msg :
    (answer : ℕ → Aeer) (ui4_type : ℕ) (body : List ℕ) → Am → Post Msg → Amr × Post Msg
am_app_send_msg answer ui4_type body a p =
    let (i, q) =
      send_retry answer false (suc retry_times) none
        (record { to = a.h_am; body = record { ui4_type = ui4_type; bytes = body } }) p in
    (amr_of i, q)

-- The loops over the applications: the first one from `i` on that passes the test.
unfoldable pub find_app : (test : ℕ → Bool) (left i : ℕ) → Option ℕ
find_app test zero i = none
find_app test (suc left) i =
    let rest = find_app test left (suc i) in if test i then some i else rest

abbrev pub has_name : List ℕ → Am → ℕ → Bool
has_name ps_name a i = same_string ps_name (a.as_app_name i)

-- An application that the environment has created, with the name.
abbrev pub is_running : List ℕ → Am → ℕ → Bool
is_running ps_name a i = not (a.ah_app i == 0) && has_name ps_name a i

abbrev pub set_handle : ℕ → (h : ℕ) → Am → Am
set_handle i h a = record a { ah_app = λ k. if i == k then h else a.ah_app k }

-- What `u_app_start` gets: the registration's description with room for a broadcast, and the identity.
abbrev pub start_desc : Reg → Desc
start_desc r = record (r.t_desc) {
  ui2_max_msg_size =
      if ltb r.t_desc.ui2_max_msg_size broadcast_msg_max_len
      then broadcast_msg_max_len
      else r.t_desc.ui2_max_msg_size;
}

-- What `u_app_start` does: its code, the handle it writes, and the `b_ok` of the notification.
pub record Start : Type 0 where
  pub code : Aeer
  pub handle : ℕ
  pub b_ok : Bool

abbrev pub after_start : (i : ℕ) → Start → Am → Amr × Am
after_start i st a =
    if is_ok st.code
    then (if st.b_ok then (ok, set_handle i st.handle a) else (fail, set_handle i 0 a))
    else (fail, set_handle i 0 a)

-- `_am_start_app`; `pt_reg` is what `u_amb_get_register_info` gives, `launch` what the environment does
-- with an application of a description.
unfoldable pub am_start_app :
    (launch : Desc → Start) (pt_reg : Option Reg) (ps_name : List ℕ) → Am → Amr × Am
am_start_app launch none ps_name a = (not_authorized, a)
am_start_app launch (some r) ps_name a = elim (find_app (has_name ps_name a) a.ui4_app_id 0) [
  | none ↦ (not_authorized, a)
  | some i ↦
      if a.ah_app i == 0 then after_start i (launch (start_desc r)) a else (already_started, a)
]

-- The loop of `_am_exit_app`: `u_app_exit` is tried again, a success waits for the end.
unfoldable pub exit_retry :
    (answer : ℕ → Aeer) (left : ℕ) (i4_res : Aeer) → Post Msg → Aeer × Post Msg
exit_retry answer zero i4_res p = (i4_res, p)
exit_retry answer (suc left) i4_res p =
    let q = record p { calls = p.calls + 1 } in
    let rest = exit_retry answer left (answer p.calls) (delay q) in
    if is_ok (answer p.calls) then (none, record q { waits = q.waits + 1 }) else rest

abbrev pub after_exit : (i : ℕ) → Am → Aeer × Post Msg → Amr × Am × Post Msg
after_exit i a (none, p) = (ok, set_handle i 0 a, p)
after_exit i a (some c, p) = (aee_code c, a, p)

unfoldable pub am_exit_app :
    (answer : ℕ → Aeer) (ps_name : List ℕ) → Am → Post Msg → Amr × Am × Post Msg
am_exit_app answer ps_name a p = elim (find_app (is_running ps_name a) a.ui4_app_id 0) [
  | none ↦ (not_authorized, a, p)
  | some i ↦ after_exit i a (exit_retry answer (suc retry_times) none p)
]

-- An application without a handle is not sent anything; the code waits for it all the same.
abbrev pub delays_only : ℕ → Post Msg → Post Msg
delays_only n p = record p { delays = p.delays + n }

-- The loop of `_am_broadcast_msg` over the first `n` applications, the last of them first.
unfoldable pub broadcast_loop :
    (answer : ℕ → Aeer) (b_sync : Bool) (m : Broadcast)
    → Am
    → (n : ℕ) → Aeer
    → Post Msg
    → Aeer × Post Msg
broadcast_loop answer b_sync m a zero i4_res p = (i4_res, p)
broadcast_loop answer b_sync m a (suc n) i4_res p =
    let (i, q) : Aeer × Post Msg =
      if a.ah_app n == 0
      then (i4_res, delays_only (suc retry_times) p)
      else send_retry answer b_sync (suc retry_times) i4_res
          (record { to = a.ah_app n; body = record { ui4_type = m.ui4_type; bytes = m.uc_msg } })
          p in
    broadcast_loop answer b_sync m a n i q

unfoldable pub am_broadcast_msg :
    (answer : ℕ → Aeer) → Broadcast → (b_sync : Bool) → Am → Post Msg → Amr × Post Msg
am_broadcast_msg answer m b_sync a p =
    let (i, q) = broadcast_loop answer b_sync m a a.ui4_app_id none p in (amr_of i, q)

abbrev terminator : List ℕ → List ℕ
terminator name = if ltb (length name) app_name_max_len then 0 ∷ [] else []

-- `_am_broadcast_lifecycle_msg`: the message is the name, with its NUL where there is room.
unfoldable pub am_broadcast_lifecycle_msg :
    (answer : ℕ → Aeer) (i ui4_type : ℕ) → Am → Post Msg → Amr × Post Msg
am_broadcast_lifecycle_msg answer i ui4_type a p =
    am_broadcast_msg answer
      (record { ui4_type = ui4_type; uc_msg = a.as_app_name i ++ terminator (a.as_app_name i) })
      false a p

unfoldable pub am_dispatch_msg : (answer : ℕ → Aeer) → Dispatch → Am → Post Msg → Amr × Post Msg
am_dispatch_msg answer m a p =
    if same_string m.ps_name app_mngr
    then (let (i, q) =
          send_retry answer false (suc retry_times) none
            (record { to = a.h_am; body = record { ui4_type = m.ui4_type; bytes = m.uc_msg } }) p in
        (amr_of i, q))
    else elim (find_app (is_running m.ps_name a) a.ui4_app_id 0) [
      | none ↦ (fail, p)
      | some k ↦
          let (i, q) =
            send_retry answer false (suc retry_times) none
              (record {
                to = a.ah_app k;
                body = record { ui4_type = m.ui4_type; bytes = m.uc_msg };
              })
              p in
          (amr_of i, q)
    ]

-- A name goes to the end of the table.
abbrev pub add_name : List ℕ → Am → Am
add_name name a = record a {
  as_app_name = λ k. if a.ui4_app_id == k then take app_name_max_len name else a.as_app_name k;
  ui4_app_id = inc32 a.ui4_app_id;
}

-- `_am_app_process_msg_fct`; the code returns AEER_OK for AMR_OK and else AEER_FAIL. A name behind the
-- end of the table, which the code writes all the same, is `none`.
unfoldable pub am_app_process_msg_fct :
    (answer : ℕ → Aeer) (launch : Desc → Start) (regs : List ℕ → Option Reg)
    → Request
    → Am
    → Post Msg
    → Option (Amr × Am × Post Msg)
am_app_process_msg_fct answer launch regs (start n) a p =
    let (r, b) = am_start_app launch (regs n) n a in some (r, b, p)
am_app_process_msg_fct answer launch regs (exit n) a p = some (am_exit_app answer n a p)
am_app_process_msg_fct answer launch regs (reg n) a p =
    if ltb a.ui4_app_id max_app_num then some (ok, add_name n a, p) else none
am_app_process_msg_fct answer launch regs (dispatch_msg m) a p =
    let (r, q) = am_dispatch_msg answer m a p in some (r, a, q)
am_app_process_msg_fct answer launch regs (broadcast_msg m) a p =
    let (r, q) = am_broadcast_msg answer m false a p in some (r, a, q)
am_app_process_msg_fct answer launch regs (resume n) a p = some (unknown_request, a, p)
am_app_process_msg_fct answer launch regs (pause n) a p = some (unknown_request, a, p)
am_app_process_msg_fct answer launch regs request_unknown a p = some (unknown_request, a, p)
am_app_process_msg_fct answer launch regs other_number a p = some (inv_arg, a, p)

-- `_am_is_time_stamp_valid`, on words of 32 bits.
unfoldable pub am_is_time_stamp_valid : (tick tick_period ui4_time_stamp : ℕ) → Bool
am_is_time_stamp_valid tick tick_period stamp =
    if stamp == 0 then true else leb stamp tick && leb ((tick - stamp) * tick_period % 2 ^ 32) 1000

-- `u_am_get_app_handle_from_name`; the index is a UINT8, which 30 applications fit.
unfoldable pub u_am_get_app_handle_from_name :
    (given : Bool) (ps_name : List ℕ) → Am → Amr × Option ℕ
u_am_get_app_handle_from_name given ps_name a =
    if not given
    then (inv_arg, none)
    else if leb max_app_num a.ui4_app_id
    then (fail, none)
    else elim (find_app (has_name ps_name a) a.ui4_app_id 0) [
      | none ↦ (not_authorized, none)
      | some i ↦ (ok, some (a.ah_app i))
    ]
