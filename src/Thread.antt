-- ===== src/Thread.antt =====
-- mw/os_pthread/os_pthread_thread.c: threads, with their list by name, their priorities and the private
-- data that a thread keeps under keys. A thread and a block of private data are their addresses, NULL
-- is 0. The thread that calls is `self`, what `pthread_getspecific` gives, 0 before the thread is known.
pub mod Priority
pub mod Own
pub mod Contents
pub mod Delete
pub mod Names
pub mod Create
pub mod Exit
pub mod Sched
mod Examples
use multithreading.Prelude.{ℕ, Bool, List}
use multithreading.Ring.Chain.{Chain}

-- OS_THREAD_PVT_LIGHT_T, less its places in the list. The delete function is its address; it is called
-- with the key and the value, and it is taken not to change the private data of the thread.
pub record Pvt : Type 0 where
  pub ui4_key : ℕ
  pub pf_pvt_del : ℕ
  pub pv_pvt : ℕ

-- The private data of a thread, `pt_pvt` being the start of the chain, and the calls of delete functions.
pub record PvtList : Type 0 where
  pub pt_pvt : Chain
  pub blocks : ℕ → Pvt
  pub calls : List Pvt

-- OS_THREAD_LIGHT_T, less its places in the list and its pthread objects; `sched_priority` is what the
-- scheduler holds for the thread. A name is a C string without its NUL, `au1_arg_local` the bytes of the
-- argument, their number being `z_arg_size`.
pub record Thread : Type 0 where
  pub s_name : List ℕ
  pub z_stack_size : ℕ
  pub pf_main_rtn : ℕ
  pub au1_arg_local : List ℕ
  pub suspend : Bool
  pub sched_priority : ℕ
  pub private : PvtList

-- The list of the threads, and what is at their addresses.
pub record Threads : Type 0 where
  pub s_thread_list : Chain
  pub threads : ℕ → Thread
