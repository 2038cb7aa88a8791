-- ===== src/Aee/Main.antt =====
-- am/aee/appman.c: the thread of an application, which takes its messages one after the other. What the
-- application's functions and the notification function answer may depend on all that was called before:
-- it is given as functions of the list of the events.
use multithreading.Prelude.{
  ℕ, Bool, true, false, Option, none, some, List, [], ◌∷◌, ◌++◌, ◌&&◌, not, if◌then◌else◌,
}

-- APP_NFY_REASON_T, as far as messages cause it.
pub data Reason : Type 0 where
  pre_init init_ok init_failed pre_process_msg process_msg_ok process_msg_failed : Reason
  pre_exit exit_ok exit_failed : Reason

-- A notification with its tag (NULL is 0), or a call of one of the application's functions.
pub data Event : Type 0 where
  notified : (pv_tag : ℕ) → Reason → Event
  ran_init : Event
  ran_exit : (e_exit_mode : ℕ) → Event
  ran_process_msg : (ui4_type : ℕ) (msg : List ℕ) → Event

-- APPMAN_MSG_INIT, APPMAN_MSG_EXIT, APPMAN_MSG_PROCESS_MSG, and what they carry.
pub data Command : Type 0 where
  msg_init other_msg : Command
  msg_exit : (e_exit_mode : ℕ) → Command
  msg_process : (ui4_type : ℕ) (msg : List ℕ) → Command

-- APP_MSG_HEADER_T with the message behind it; `has_nfy` says that `pf_nfy` is not NULL.
pub record Header : Type 0 where
  pub command : Command
  pub has_nfy : Bool
  pub pv_tag : ℕ

-- What the functions answer: AEER_OK from the application's functions, and from the notification function
-- that the message is to be ignored.
pub record Answers : Type 0 where
  pub succeeds : List Event → Bool
  pub ignores : (pv_tag : ℕ) → Reason → List Event → Bool

abbrev pub notify : Header → Reason → List Event → List Event
notify h r log = if h.has_nfy then log ++ notified h.pv_tag r ∷ [] else log

-- The function is called and its result is notified.
abbrev pub call : Answers → Header → Event → (good bad : Reason) → List Event → List Event × Bool
call a h e good bad log =
    let l = log ++ e ∷ [] in (notify h (if a.succeeds l then good else bad) l, a.succeeds l)

-- The value of `b_exit` after a message.
abbrev pub ends_on : (on : Bool) → List Event × Bool → List Event × Bool
ends_on true (l, b) = (l, b)
ends_on false (l, b) = (l, not b)

abbrev pub goes_on : List Event × Bool → List Event × Bool
goes_on (l, b) = (l, false)

-- The answer to the first notification, by which the message is ignored.
abbrev pub ignored : Answers → Header → Reason → List Event → Bool
ignored a h r l = h.has_nfy && a.ignores h.pv_tag r l

-- One message; `none` is the ABORT for a command that is none of the three.
unfoldable pub handle_msg : Answers → Header → Command → List Event → Option (List Event × Bool)
handle_msg a h (msg_process t m) log =
    let l = notify h pre_process_msg log in
    some (
      if ignored a h pre_process_msg l
      then (l, false)
      else goes_on (call a h (ran_process_msg t m) process_msg_ok process_msg_failed l))
handle_msg a h (msg_exit e) log =
    let l = notify h pre_exit log in
    some (
      if ignored a h pre_exit l
      then (l, false)
      else ends_on true (call a h (ran_exit e) exit_ok exit_failed l))
handle_msg a h msg_init log =
    let l = notify h pre_init log in
    some (
      if ignored a h pre_init l
      then (l, true)
      else ends_on false (call a h ran_init init_ok init_failed l))
handle_msg a h other_msg log = none

abbrev pub proceed :
    (rest : List Event → Option (List Event × Bool))
    → Option (List Event × Bool)
    → Option (List Event × Bool)
proceed rest none = none
proceed rest (some (l, true)) = some (l, true)
proceed rest (some (l, false)) = rest l

-- The loop of `appman_main` on what `x_msg_q_receive` gives, a message or an error; the result tells
-- whether the loop has ended, or waits for one more message.
unfoldable pub appman_main :
    Answers → List (Option Header) → List Event → Option (List Event × Bool)
appman_main a [] log = some (log, false)
appman_main a (none ∷ ms) log = some (log, true)
appman_main a (some h ∷ ms) log = proceed (appman_main a ms) (handle_msg a h h.command log)
