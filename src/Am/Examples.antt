-- ===== src/Am/Examples.antt =====
-- Examples of am.c and amb.c: two applications, the first of them with the handle 5.
use multithreading.Prelude.{
  ℕ, zero, suc, ◌+◌, ◌<◌, true, false, Option, none, some, List, [], ◌∷◌, ◌==◌, ◌≡◌, refl,
  if◌then◌else◌, arith,
}
use multithreading.Am.{Aeer, Post, Am, Desc, Reg, Broadcast, Request, ok, already_started, reg}
use multithreading.Am.Retry.{send_retry}
use multithreading.Am.Apps.{
  Msg, Start, add_name, am_broadcast_msg, am_start_app, am_exit_app, am_dispatch_msg,
  am_app_process_msg_fct,
}
use multithreading.Am.Broker.{
  is_known, u_amb_get_register_info, amb_authorized_app, u_amb_register_app, amb_send_request_to_am,
}
use multithreading.Am.Table.{Table}
use multithreading.Am.Deliver.{to_app, am_broadcast_msg-for_running}
use multithreading.Am.Requests.{Answered, am_app_process_msg_fct-Answered}
use multithreading.Am.Lifecycle.{am_exit_app-am_start_app}
use multithreading.Aee.Main.{
  Header, Answers, msg_init, msg_process, msg_exit, notified, ran_init, ran_process_msg, ran_exit,
  pre_init, init_ok, pre_process_msg, process_msg_ok, pre_exit, exit_ok, appman_main, handle_msg,
}
use multithreading.Am.Notify.{am_app_nfy_fct, IsSent, TakenFrom, appman_main-TakenFrom}
use multithreading.Am.Join.{run_requests, Joined, u_amb_register_app-Joined, u_amb_register_app_ok}

abbrev handle_at : ℕ → ℕ
handle_at k = if k == 0 then 5 else 0

abbrev name_at : ℕ → List ℕ
name_at k = (k + 97) ∷ []

abbrev two_apps : Am
two_apps = record { h_am = 1; ah_app = handle_at; ui4_app_id = 2; as_app_name = name_at }

two_apps-Table : Table two_apps
two_apps-Table = record {
  bound = omega arith;
  free = λ i a. ground arith;
  apart = λ i j a b c. ground arith;
}

-- The third call is accepted.
abbrev answer : ℕ → Aeer
answer k = if k == 2 then none else some 7

abbrev always : ℕ → Aeer
always k = none

abbrev post : Post Msg
post = record { calls = 0; delays = 0; waits = 0; sent = [] }

abbrev message : Broadcast
message = record { ui4_type = 70000; uc_msg = 1 ∷ 2 ∷ [] }

abbrev desc : Desc
desc = record {
  z_stack_size = 8192;
  ui1_priority = 200;
  ui2_num_msgs = 16;
  ui2_msg_count = 8;
  ui2_max_msg_size = 8;
}

abbrev app_b : Reg
app_b = record { s_name = 98 ∷ []; callbacks = true; t_desc = desc }

abbrev app_a : Reg
app_a = record { s_name = 97 ∷ []; callbacks = true; t_desc = desc }

abbrev app_c : Reg
app_c = record { s_name = 99 ∷ []; callbacks = true; t_desc = desc }

abbrev launched : Desc → Start
launched d = record { code = none; handle = 6; b_ok = true }

am_broadcast_msg-for_running_example :
    ((am_broadcast_msg always message true two_apps post).0 ≡ ok)
    × ((am_broadcast_msg always message true two_apps post).1.sent ≡ to_app message 5 ∷ [])
am_broadcast_msg-for_running_example =
    am_broadcast_msg-for_running always message true two_apps (λ k. (0, omega arith, refl)) post

-- The name of the second application once more.
am_app_process_msg_fct-Answered_example :
    Answered
      (reg (98 ∷ []))
      two_apps
      post
      (am_app_process_msg_fct answer launched (λ n. none) (reg (98 ∷ [])) two_apps post)
am_app_process_msg_fct-Answered_example =
    am_app_process_msg_fct-Answered answer launched (λ n. none) (reg (98 ∷ [])) two_apps post
      two_apps-Table

am_exit_app-am_start_app_example :
    (a' : Am) × (am_start_app launched (some app_b) (98 ∷ []) two_apps ≡ (ok, a'))
    × (a'.ah_app 1 ≡ 6)
    × (am_start_app launched (some app_b) (98 ∷ []) a' ≡ (already_started, a'))
    × ((ui4_type : ℕ) (bytes : List ℕ)
        → (am_dispatch_msg answer
            (record { ps_name = 98 ∷ []; ui4_type = ui4_type; uc_msg = bytes })
            a'
            post).1
          ≡ (send_retry answer false 11 none
              (record { to = 6; body = record { ui4_type = ui4_type; bytes = bytes } })
              post).1)
    × ((am_exit_app answer (98 ∷ []) a' post).0 ≡ ok)
    × ((k : ℕ) → (am_exit_app answer (98 ∷ []) a' post).1.ah_app k ≡ two_apps.ah_app k)
am_exit_app-am_start_app_example =
    am_exit_app-am_start_app launched app_b (98 ∷ []) two_apps 1 answer post 2 two_apps-Table
      (omega arith) refl refl refl refl (λ e. absurd (omega (arith, e))) refl (omega arith) refl

abbrev requests : Post Request
requests = record { calls = 0; delays = 0; waits = 0; sent = [] }

abbrev regs : List Reg
regs = app_b ∷ app_a ∷ []

known_at : (j : ℕ) → j < 2 → is_known (u_amb_get_register_info (name_at j) regs) ≡ true
unfolding u_amb_get_register_info
known_at zero b = refl
known_at (suc zero) b = refl
known_at (suc (suc j)) b = absurd (omega arith)

two_apps-Joined : Joined regs two_apps
two_apps-Joined = record { table = two_apps-Table; known = λ j b. known_at j b }

u_amb_register_app-Joined_example :
    (c : Am × Post Msg) × (run_requests answer launched
        (u_amb_register_app 100 answer true 1 app_c regs requests).1
        (u_amb_register_app 100 answer true 1 app_c regs requests).2.sent
        two_apps
        post
      ≡ some c)
    × Joined (u_amb_register_app 100 answer true 1 app_c regs requests).1 c.0
u_amb_register_app-Joined_example =
    u_amb_register_app-Joined app_c regs two_apps two_apps-Joined (omega arith) refl answer answer
      launched true 1 requests refl post 100

registered_now : (u_amb_register_app 100 always true 1 app_c regs requests).0 ≡ ok
unfolding u_amb_register_app amb_authorized_app u_amb_get_register_info amb_send_request_to_am
    send_retry
registered_now = refl

u_amb_register_app_ok_example :
    (amb_authorized_app (99 ∷ []) (u_amb_register_app 100 always true 1 app_c regs requests).1
      ≡ some (99 ∷ []))
    × (run_requests answer launched
          (u_amb_register_app 100 always true 1 app_c regs requests).1
          (u_amb_register_app 100 always true 1 app_c regs requests).2.sent
          two_apps
          post
        ≡ some (add_name (99 ∷ []) two_apps, post))
u_amb_register_app_ok_example =
    u_amb_register_app_ok app_c regs two_apps two_apps-Joined (omega arith) refl always answer
      launched true 1 requests refl post 100 registered_now

-- An application that succeeds in everything, and its life in three messages; a fourth comes too late.
abbrev willing : Answers
willing = record { succeeds = λ l. true; ignores = λ t r l. (am_app_nfy_fct t r).1 }

abbrev life : List (Option Header)
life =
    some (record { command = msg_init; has_nfy = true; pv_tag = 1 })
    ∷ some (record { command = msg_process 3 (8 ∷ []); has_nfy = true; pv_tag = 0 })
    ∷ some (record { command = msg_exit 0; has_nfy = true; pv_tag = 1 })
    ∷ some (record { command = msg_process 4 []; has_nfy = true; pv_tag = 1 })
    ∷ []

life_events :
    appman_main willing life []
    ≡ some (
      notified 1 pre_init
          ∷ ran_init
          ∷ notified 1 init_ok
          ∷ notified 0 pre_process_msg
          ∷ ran_process_msg 3 (8 ∷ [])
          ∷ notified 0 process_msg_ok
          ∷ notified 1 pre_exit
          ∷ ran_exit 0
          ∷ notified 1 exit_ok
          ∷ [],
      true,
    )
unfolding appman_main handle_msg
life_events = refl

life-IsSent : IsSent life
life-IsSent = (
  refl,
  λ e. absurd cc,
  (refl, λ e. absurd cc, (refl, λ e. absurd cc, (refl, λ e. absurd cc, tt))),
)

appman_main-TakenFrom_example : TakenFrom life [] (appman_main willing life [])
appman_main-TakenFrom_example = appman_main-TakenFrom willing life [] (λ t r l. refl) life-IsSent
