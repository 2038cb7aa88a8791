-- ===== src/Timer.antt =====
-- timerd/_timer.c: timers in a circular list, the first one to run out in front. A timer is its
-- address; NULL is 0. The loops that look for a place have fuel, `none` being the end of it. The
-- locks, the signals and the calls of pthread that only have to succeed are left out.
pub mod Api
pub mod Order
pub mod Add
pub mod Remove
pub mod Start
pub mod Expire
pub mod Loop
pub mod System
mod Examples
use multithreading.Prelude.{
  ℕ, zero, suc, ◌+◌, ◌-◌, ◌*◌, ◌/◌, ◌%◌, ◌^◌, Bool, true, false, Option, none, some, List, [], ◌∷◌,
  ◌==◌, ◌&&◌, ◌||◌, not, if◌then◌else◌, ltb, length,
}
use multithreading.Os.{Osr, Timespec, add_time, of_ms, nsec_per_sec}
use multithreading.Ring.{Links, store, insert_before, unlink}

-- struct _TIMER_CBFCT_ARGS; `none` is NULL.
pub record TimerCbfctArgs : Type 0 where
  pub h_app : ℕ
  pub ptimer_msg : Option (List ℕ)
  pub msg_size : ℕ

-- The only function that the file hands on as a callback.
pub data Callback : Type 0 where
  os_timer_cb_fct : Callback

-- A call of `u_app_send_msg`.
pub record AppMsg : Type 0 where
  pub h_app : ℕ
  pub msg : Option (List ℕ)
  pub size : ℕ

-- OS_TIMER_LIGHT_T, less its places in the list.
pub record OsTimerLight : Type 0 where
  pub abstime : Timespec
  pub interval : Timespec
  pub pf_callback : Option Callback
  pub pt_args : Option TimerCbfctArgs

-- The fields `previous` and `next` of all timers, `s_timer_list`, and the other fields.
pub record TimerList : Type 0 where
  pub links : Links
  pub s_timer_list : ℕ
  pub timers : ℕ → OsTimerLight

pub data TimerFlag : Type 0 where
  once repeat : TimerFlag
  other_flag : ℕ → TimerFlag

abbrev pub time_before : Timespec → Timespec → Bool
time_before a b = ltb a.tv_sec b.tv_sec || ((a.tv_sec == b.tv_sec) && ltb a.tv_nsec b.tv_nsec)

abbrev pub zero_time : Timespec
zero_time = record { tv_sec = 0; tv_nsec = 0 }

abbrev pub is_zero : Timespec → Bool
is_zero t = (t.tv_sec == 0) && (t.tv_nsec == 0)

abbrev pub set_timer : ℕ → OsTimerLight → TimerList → TimerList
set_timer t r s = record s { timers = λ k. if t == k then r else s.timers k }

abbrev pub abstime_of : TimerList → ℕ → Timespec
abstime_of s t = (s.timers t).abstime

-- The loop of `timer_list_add` at the timer `p`.
unfoldable pub find_place : (fuel t : ℕ) → TimerList → (p : ℕ) → Option ℕ
find_place zero t s p = none
find_place (suc fuel) t s p =
    let rest = find_place fuel t s (s.links.next p) in
    if p == s.s_timer_list
    then some p
    else if time_before (abstime_of s t) (abstime_of s p)
    then some p
    else rest

unfoldable pub timer_list_add : (fuel t : ℕ) → TimerList → Option TimerList
timer_list_add fuel t s =
    let p : ℕ = s.s_timer_list in
    if p == 0
    then some (record s {
      s_timer_list = t;
      links = record { next = store s.links.next t t; previous = store s.links.previous t t };
    })
    else if time_before (abstime_of s t) (abstime_of s p)
    then some (record s { s_timer_list = t; links = insert_before t p s.links })
    else elim (find_place fuel t s (s.links.next p)) [
      | none ↦ none
      | some q ↦ some (record s { links = insert_before t q s.links })
    ]

-- The first part of `timer_list_remove`: a timer that runs once loses its arguments.
abbrev pub free_args : ℕ → TimerList → TimerList
free_args t s =
    if is_zero (s.timers t).interval
    then set_timer t (record (s.timers t) { pt_args = none }) s
    else s

-- The fields of `t` become NULL.
abbrev pub clear_links : ℕ → Links → Links
clear_links t l = record { next = store l.next t 0; previous = store l.previous t 0 }

unfoldable pub list_cut : ℕ → TimerList → TimerList
list_cut t s =
    if s.links.previous t == t
    then record s { s_timer_list = 0; links = clear_links t s.links }
    else let l = unlink t s.links in
      record s {
        s_timer_list = if s.s_timer_list == t then l.next t else s.s_timer_list;
        links = clear_links t l;
      }

unfoldable pub timer_list_remove : ℕ → TimerList → TimerList
timer_list_remove t s = list_cut t (free_args t s)

-- The copy of the arguments that `TimerProc` makes.
abbrev pub copy_args : TimerCbfctArgs → TimerCbfctArgs
copy_args a = elim a.ptimer_msg [
  | some m ↦ record { h_app = a.h_app; ptimer_msg = some m; msg_size = a.msg_size }
  | none ↦ record { h_app = a.h_app; ptimer_msg = none; msg_size = 0 }
]

-- `single` says that the timer does not repeat.
abbrev pub args_copied :
    Option Callback → (single : Bool) → Option TimerCbfctArgs → Option TimerCbfctArgs
args_copied (some f) true (some a) = some (copy_args a)
args_copied (some f) true none = none
args_copied (some f) false args = none
args_copied none single args = none

abbrev pub args_for_call : OsTimerLight → Option TimerCbfctArgs
args_for_call r = args_copied r.pf_callback (is_zero r.interval) r.pt_args

-- `TimerProc` from the timer in front to the release of the mutex: the state, and `pargs`.
unfoldable pub timer_expire : (fuel : ℕ) → TimerList → Option (TimerList × Option TimerCbfctArgs)
timer_expire fuel s =
    let t : ℕ = s.s_timer_list in
    let pargs = args_for_call (s.timers t) in
    let s1 = timer_list_remove t s in
    let r = s1.timers t in
    if is_zero r.interval
    then some (s1, pargs)
    else elim (timer_list_add fuel t
        (set_timer t (record r { abstime = add_time r.abstime r.interval }) s1)) [
          | none ↦ none
          | some s2 ↦ some (s2, pargs)
        ]

-- `_os_timer_cb_fct`
abbrev pub run_callback : Callback → Option TimerCbfctArgs → List AppMsg
run_callback os_timer_cb_fct none = []
run_callback os_timer_cb_fct (some a) =
    record { h_app = a.h_app; msg = a.ptimer_msg; size = a.msg_size } ∷ []

-- `TimerProc` after the release of the mutex; `none` is an access through NULL.
abbrev pub call_back :
    Option Callback → (single : Bool) → (args pargs : Option TimerCbfctArgs) → Option (List AppMsg)
call_back none single args pargs = some []
call_back (some f) true args (some a) = some (run_callback f (some a))
call_back (some f) true args none = none
call_back (some f) false args pargs = some (run_callback f args)

abbrev pub timer_call : OsTimerLight → (pargs : Option TimerCbfctArgs) → Option (List AppMsg)
timer_call r pargs = call_back r.pf_callback (is_zero r.interval) r.pt_args pargs
