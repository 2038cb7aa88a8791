-- ===== src/Thread/Names.antt =====
-- os_pthread_thread.c: the list of the threads and the calls that use it. `fuel` is that of the searches
-- of the list, `none` being the end of it.
use multithreading.Prelude.{
  ℕ, ◌+◌, ◌*◌, ◌/◌, ◌%◌, ◌^◌, Bool, true, false, Option, none, some, List, [], ◌∷◌, ◌==◌, ◌&&◌,
  ◌||◌, not, if◌then◌else◌, ltb, take,
}
use multithreading.Os.{Osr}
use multithreading.Ring.Chain.{add_last, take_out, find_first}
use multithreading.MsgQ.Names.{same_name}
use multithreading.Thread.{Thread, Threads, PvtList}
use multithreading.Thread.Own.{delete_all}
use multithreading.Thread.Priority.{to_sched_priority, from_sched_priority}

unfoldable pub thread_list_add : ℕ → Threads → Threads
thread_list_add t s = record s { s_thread_list = add_last t s.s_thread_list }

unfoldable pub thread_list_remove : ℕ → Threads → Threads
thread_list_remove t s = record s { s_thread_list = take_out t s.s_thread_list }

unfoldable pub thread_find_handle : (fuel : ℕ) (h_th_hdl : ℕ) → Threads → Option ℕ
thread_find_handle fuel h s = find_first fuel (λ k. k == h) s.s_thread_list

unfoldable pub thread_find_obj : (fuel : ℕ) (ps_name : List ℕ) → Threads → Option ℕ
thread_find_obj fuel name s =
    find_first fuel (λ k. same_name (s.threads k).s_name name) s.s_thread_list

abbrev pub set_thread : ℕ → Thread → Threads → Threads
set_thread t th s = record s { threads = λ k. if t == k then th else s.threads k }

abbrev pub is_empty : List ℕ → Bool
is_empty [] = true
is_empty (c ∷ cs) = false

-- The arguments of `u_thread_create`: `given` says that no pointer but `pv_arg` is NULL. Of `pv_arg` the
-- bytes are given, NULL being `none`.
pub record Request : Type 0 where
  pub given : Bool
  pub ps_name : List ℕ
  pub z_stack_size : ℕ
  pub ui1_priority : ℕ
  pub pf_main_rtn : ℕ
  pub pv_arg : Option (List ℕ)

abbrev empty_arg : Option (List ℕ) → Bool
empty_arg none = false
empty_arg (some bytes) = is_empty bytes

abbrev pub bytes_of : Option (List ℕ) → List ℕ
bytes_of none = []
bytes_of (some bytes) = bytes

-- THREAD_PRI_RANGE_LOW and THREAD_PRI_RANGE_HIGH
abbrev pub out_of_range : ℕ → Bool
out_of_range ui1_priority = ltb ui1_priority 1 || ltb 254 ui1_priority

abbrev pub invalid : Request → Bool
invalid r =
    not r.given
    || is_empty r.ps_name
    || (r.z_stack_size == 0)
    || out_of_range r.ui1_priority
    || empty_arg r.pv_arg

-- The size of the stack: `stack_min` is PTHREAD_STACK_MIN. SIZE_T has 4 bytes.
unfoldable pub stack_size : (stack_min z_stack_size : ℕ) → ℕ
stack_size stack_min z =
    let aligned : ℕ = (z + 7) % 2 ^ 32 / 8 * 8 in
    if ltb aligned stack_min then stack_min else aligned

-- An empty list of private data.
abbrev pub no_pvt : PvtList
no_pvt = record {
  pt_pvt = record { links = record { next = λ k. 0; previous = λ k. 0 }; first = 0 };
  blocks = λ k. record { ui4_key = 0; pf_pvt_del = 0; pv_pvt = 0 };
  calls = [];
}

-- What `u_thread_create` writes; the new thread has the priority of the thread that creates it.
abbrev pub new_thread : (stack_min sched_priority : ℕ) → Request → Thread
new_thread stack_min sched_priority r = record {
  s_name = take 16 r.ps_name;
  z_stack_size = stack_size stack_min r.z_stack_size;
  pf_main_rtn = r.pf_main_rtn;
  au1_arg_local = bytes_of r.pv_arg;
  suspend = false;
  sched_priority = sched_priority;
  private = no_pvt;
}

-- `mem` is what `calloc` gives, `started` says that `pthread_create` succeeds.
unfoldable pub u_thread_create :
    (fuel stack_min sched_priority : ℕ) (mem : Option ℕ) (started : Bool)
    → Request
    → Threads
    → Option (Osr × Threads × Option ℕ)
u_thread_create fuel stack_min sched_priority mem started r s =
    if invalid r then some (Osr.inv_arg, s, none) else elim mem [
      | none ↦ some (Osr.no_resource, s, none)
      | some t ↦ elim (thread_find_obj fuel r.ps_name s) [
        | none ↦ none
        | some k ↦
            if not (k == 0)
            then some (Osr.exist, s, none)
            else if not started
            then some (Osr.fail, s, none)
            else some (
              Osr.ok,
              thread_list_add t (set_thread t (new_thread stack_min sched_priority r) s),
              some t,
            )
      ]
    ]

-- A copy of `u_thread_create`, with the same text.
unfoldable pub u_thread_create_cli :
    (fuel stack_min sched_priority : ℕ) (mem : Option ℕ) (started : Bool)
    → Request
    → Threads
    → Option (Osr × Threads × Option ℕ)
u_thread_create_cli = u_thread_create

-- A thread that was not made by `u_thread_create`.
unfoldable pub thread_upgrade : (sched_priority : ℕ) (mem : Option ℕ) → Threads → Osr × Threads × ℕ
thread_upgrade sched_priority none s = (Osr.no_resource, s, 0)
thread_upgrade sched_priority (some t) s = (
  Osr.ok,
  thread_list_add t (
      set_thread t
        (record {
          s_name = [];
          z_stack_size = 0;
          pf_main_rtn = 0;
          au1_arg_local = [];
          suspend = false;
          sched_priority = sched_priority;
          private = no_pvt;
        })
        s),
  t,
)

-- `u_thread_self`, with the value of the key of the thread after it.
unfoldable pub u_thread_self :
    (given : Bool) (sched_priority : ℕ) (mem : Option ℕ) (self : ℕ) → Threads → Osr × Threads × ℕ
u_thread_self given sched_priority mem self s =
    if not given
    then (Osr.inv_arg, s, self)
    else if self == 0
    then thread_upgrade sched_priority mem s
    else (Osr.ok, s, self)

-- `thread_key_destructor` up to the signal to the reaper, with fuel for the private data of the thread.
unfoldable pub thread_key_destructor : (fuel t : ℕ) → Threads → Option Threads
thread_key_destructor fuel t s = elim (delete_all fuel (s.threads t).private) [
  | none ↦ none
  | some p ↦ some (thread_list_remove t (set_thread t (record (s.threads t) { private = p }) s))
]

abbrev pub result : (got : Bool) → Osr
result got = if got then Osr.ok else Osr.fail

-- `got` and `done` say that `pthread_getschedparam` and `pthread_setschedparam` succeed.
unfoldable pub u_thread_set_pri :
    (fuel : ℕ) (got done : Bool) (h_th_hdl ui1_new_pri : ℕ) → Threads → Option (Osr × Threads)
u_thread_set_pri fuel got done h p s =
    if out_of_range p then some (Osr.inv_arg, s) else elim (thread_find_handle fuel h s) [
      | none ↦ none
      | some k ↦
          if k == 0
          then some (Osr.inv_handle, s)
          else if not got
          then some (Osr.fail, s)
          else if done
          then some (
            Osr.ok,
            set_thread k (record (s.threads k) { sched_priority = to_sched_priority p }) s,
          )
          else some (Osr.fail, s)
    ]

-- Without the priority the code leaves a value that it has not set.
unfoldable pub u_thread_get_pri :
    (fuel : ℕ) (given got : Bool) (h_th_hdl : ℕ) → Threads → Option (Osr × Option ℕ)
u_thread_get_pri fuel given got h s =
    if not given then some (Osr.inv_arg, none) else elim (thread_find_handle fuel h s) [
      | none ↦ none
      | some k ↦
          if k == 0
          then some (Osr.inv_handle, none)
          else if got
          then some (Osr.ok, some (from_sched_priority (s.threads k).sched_priority))
          else some (Osr.fail, none)
    ]

unfoldable pub u_thread_get_name :
    (fuel : ℕ) (h_th_hdl : ℕ) → Threads → Option (Osr × Option (List ℕ))
u_thread_get_name fuel h s = elim (thread_find_handle fuel h s) [
  | none ↦ none
  | some k ↦
      if k == 0 then some (Osr.inv_handle, none) else some (Osr.ok, some (s.threads k).s_name)
]

-- `u_thread_suspend` up to the wait, and behind it.
abbrev pub suspend_to_wait : (self : ℕ) → Threads → Threads
suspend_to_wait self s = set_thread self (record (s.threads self) { suspend = true }) s

abbrev pub suspend_from_wait : (self : ℕ) → Threads → Threads
suspend_from_wait self s = set_thread self (record (s.threads self) { suspend = false }) s

-- `u_thread_resume`, and whether the condition of the thread is signalled; `signalled` says that
-- `pthread_cond_signal` succeeds.
unfoldable pub u_thread_resume :
    (fuel : ℕ) (signalled : Bool) (h_th_hdl : ℕ) → Threads → Option (Osr × Bool)
u_thread_resume fuel signalled h s = elim (thread_find_handle fuel h s) [
  | none ↦ none
  | some k ↦
      if k == 0
      then some (Osr.inv_handle, false)
      else if (s.threads k).suspend && not signalled
      then some (Osr.fail, false)
      else some (Osr.ok, (s.threads k).suspend)
]
