-- ===== src/Am.antt =====
-- am/am.c and am/amb/amb.c: the application manager and its broker. Applications register with the
-- broker, which sends requests to the manager; the manager starts, ends and writes to the applications.
-- The execution environment (`u_app_send_msg`, `u_app_start`, `u_app_exit`) is seen through what its calls
-- return: `answer n` is the result of the n-th of them. A handle is a number, NULL_HANDLE is 0; a name is
-- a C string without its NUL.
pub mod Retry
pub mod Apps
pub mod Broker
pub mod Deliver
pub mod Table
pub mod Requests
pub mod Lifecycle
pub mod Join
pub mod Notify
mod Examples
use multithreading.Prelude.{ℕ, Bool, List, Option}

-- The codes AMR_ and AMBR_, without their prefixes; `aee_code` is a code of the execution environment
-- that is passed on.
pub data Amr : Type 0 where
  ok fail inv_arg not_authorized unknown_request already_started be_registered : Amr
  aee_code : ℕ → Amr

-- What a call of the execution environment returns, `none` being AEER_OK.
abbrev pub Aeer : Type 0
Aeer = Option ℕ

-- A message to a handle.
pub record Sent (A : Type 0) : Type 0 where
  pub to : ℕ
  pub body : A

-- What has been done: calls of the execution environment, delays, waits for a semaphore of
-- synchronous calls, and the messages that were accepted.
pub record Post (A : Type 0) : Type 0 where
  pub calls : ℕ
  pub delays : ℕ
  pub waits : ℕ
  pub sent : List (Sent A)

-- AMB_BROADCAST_MSG_T and AMB_DISPATCH_MSG_T; the length of the message is that of the list.
pub record Broadcast : Type 0 where
  pub ui4_type : ℕ
  pub uc_msg : List ℕ

pub record Dispatch : Type 0 where
  pub ps_name : List ℕ
  pub ui4_type : ℕ
  pub uc_msg : List ℕ

-- The requests AMB_REQUEST_ with what they carry, and the numbers that are not a request.
pub data Request : Type 0 where
  start exit reg : List ℕ → Request
  resume pause : List ℕ → Request
  broadcast_msg : Broadcast → Request
  dispatch_msg : Dispatch → Request
  request_unknown other_number : Request

-- AM_T, less its semaphores and its debug levels.
pub record Am : Type 0 where
  pub h_am : ℕ
  pub ah_app : ℕ → ℕ
  pub ui4_app_id : ℕ
  pub as_app_name : ℕ → List ℕ

-- APP_DESC_T, as far as it is looked at.
pub record Desc : Type 0 where
  pub z_stack_size : ℕ
  pub ui1_priority : ℕ
  pub ui2_num_msgs : ℕ
  pub ui2_msg_count : ℕ
  pub ui2_max_msg_size : ℕ

-- AMB_REGISTER_INFO_T; `callbacks` says that no function of its table is NULL.
pub record Reg : Type 0 where
  pub s_name : List ℕ
  pub callbacks : Bool
  pub t_desc : Desc
