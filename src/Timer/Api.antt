-- ===== src/Timer/Api.antt =====
-- timerd/_timer.c: the operations on timers. `fuel` bounds the search in `timer_list_add`, `now` is
-- what `clock_gettime` gives.
use multithreading.Prelude.{
  ℕ, zero, suc, ◌+◌, ◌-◌, ◌*◌, ◌/◌, ◌%◌, ◌^◌, Bool, true, false, Option, none, some, List, [], ◌++◌,
  ◌==◌, ◌&&◌, ◌||◌, not, if◌then◌else◌, ltb, length,
}
use multithreading.Os.{Osr, Timespec, add_time, of_ms, nsec_per_sec}
use multithreading.Timer.{
  TimerCbfctArgs, Callback, AppMsg, OsTimerLight, TimerList, TimerFlag, clear_links, once, repeat,
  other_flag, time_before, zero_time, set_timer, abstime_of, timer_list_add, timer_list_remove,
  timer_expire, timer_call,
}

abbrev pub bad_start : Option Callback → (delay : ℕ) → TimerFlag → Bool
bad_start none delay flags = true
bad_start (some f) delay flags =
    (delay == 0) || elim flags [ once ↦ false | repeat ↦ false | other_flag _ ↦ true ]

-- What `_timer_start` writes into a timer.
abbrev pub started :
    Timespec → (delay : ℕ) → TimerFlag → Option Callback → Option TimerCbfctArgs → OsTimerLight
started now delay flags f args = record {
  abstime = add_time now (of_ms delay);
  interval = elim flags [ once ↦ zero_time | _ ↦ of_ms delay ];
  pf_callback = f;
  pt_args = args;
}

-- A timer whose field `previous` is not NULL is taken out of the list.
abbrev pub taken_out : ℕ → TimerList → TimerList
taken_out h s = if s.links.previous h == 0 then s else timer_list_remove h s

-- `_timer_start`
unfoldable pub timer_start :
    (fuel : ℕ) (now : Timespec) (h delay : ℕ)
    → TimerFlag
    → Option Callback
    → Option TimerCbfctArgs
    → TimerList
    → Option (Osr × TimerList)
timer_start fuel now h delay flags f args s =
    if bad_start f delay flags
    then some (Osr.inv_arg, s)
    else elim (timer_list_add fuel h
        (set_timer h (started now delay flags f args) (taken_out h s))) [
          | none ↦ none
          | some s1 ↦ some (Osr.ok, s1)
        ]

-- `u_timer_start`; the value -1, when there is no memory, is OSR_EXIST.
unfoldable pub u_timer_start :
    (mem_args mem_msg : Bool) (fuel : ℕ) (now : Timespec) (h_app h delay : ℕ)
    → TimerFlag
    → (msg : Option (List ℕ)) → TimerList
    → Option (Osr × TimerList)
u_timer_start mem_args mem_msg fuel now h_app h delay flags msg s =
    let start = λ (a : TimerCbfctArgs).
      timer_start fuel now h delay flags (some Callback.os_timer_cb_fct) (some a) s in
    if not mem_args then some (Osr.exist, s) else elim msg [
      | some m ↦
          if not mem_msg
          then some (Osr.exist, s)
          else start (record { h_app = h_app; ptimer_msg = some m; msg_size = length m })
      | none ↦ start (record { h_app = h_app; ptimer_msg = none; msg_size = 0 })
    ]

-- The time that is left; a `tv_sec` below 0 is a word of 32 bits.
unfoldable pub time_left : Timespec → Timespec → Timespec
time_left a now =
    if ltb a.tv_nsec now.tv_nsec
    then record {
      tv_sec = (a.tv_sec + 2 ^ 32 - now.tv_sec - 1) % 2 ^ 32;
      tv_nsec = a.tv_nsec + nsec_per_sec - now.tv_nsec;
    }
    else record {
      tv_sec = (a.tv_sec + 2 ^ 32 - now.tv_sec) % 2 ^ 32;
      tv_nsec = a.tv_nsec - now.tv_nsec;
    }

unfoldable pub u_timer_stop : (now : Timespec) (h : ℕ) → TimerList → Osr × TimerList
u_timer_stop now h s =
    if s.links.previous h == 0
    then (Osr.ok, s)
    else let s1 = timer_list_remove h s in
      let r = s1.timers h in
      (Osr.ok, set_timer h (record r { abstime = time_left r.abstime now }) s1)

-- `u_timer_delete`; the last result is the address that is given to `free`. A later call with it is undefined
-- in the source; here the memory stays as it is left.
unfoldable pub u_timer_delete : (h : ℕ) → TimerList → Osr × TimerList × ℕ
u_timer_delete h s = (Osr.ok, taken_out h s, h)

-- `u_timer_create`: `given` says that the pointer is not NULL, and `mem` is what `calloc` gives.
unfoldable pub u_timer_create :
    (given : Bool) (mem : Option ℕ) → TimerList → Osr × TimerList × Option ℕ
u_timer_create given mem s = if not given then (Osr.inv_arg, s, none) else elim mem [
  | none ↦ (Osr.no_resource, s, none)
  | some t ↦ (
    Osr.ok,
    set_timer t
        (record { abstime = zero_time; interval = zero_time; pf_callback = none; pt_args = none })
        (record s { links = clear_links t s.links }),
    some t,
  )
]

-- One round of the inner loop of `TimerProc`: the state, and what the callback sends. `others` is what other
-- threads do from the release of the mutex until the fields of the timer are read for the callback, and
-- `behind` what they do from then until the mutex is locked again.
unfoldable pub fire :
    (others behind : TimerList → TimerList) (room : ℕ)
    → TimerList
    → Option (TimerList × List AppMsg)
fire others behind room s = elim (timer_expire room s) [
  | none ↦ none
  | some (s1, pargs) ↦
      let s2 = others s1 in
      elim (timer_call (s2.timers s.s_timer_list) pargs) [
        | none ↦ none
        | some sent ↦ some (behind s2, sent)
      ]
]

abbrev pub due : Timespec → TimerList → Bool
due now s = not (s.s_timer_list == 0) && time_before (abstime_of s s.s_timer_list) now

-- The inner loop of `TimerProc`; what other threads do may differ from round to round.
unfoldable pub expire_due :
    (others behind : ℕ → TimerList → TimerList) (fuel room : ℕ) (now : Timespec)
    → TimerList
    → Option (TimerList × List AppMsg)
expire_due others behind zero room now s = none
expire_due others behind (suc fuel) room now s =
    let rest : Option (TimerList × List AppMsg) = elim (fire (others fuel) (behind fuel) room s) [
      | none ↦ none
      | some (s1, sent) ↦ elim (expire_due others behind fuel room now s1) [
        | none ↦ none
        | some (s2, later) ↦ some (s2, sent ++ later)
      ]
    ] in
    if due now s then rest else some (s, [])

-- `s_timer_res` from the resolution of the clock.
abbrev pub timer_res : Timespec → ℕ
timer_res res = (res.tv_nsec + 500000) / 1000000

-- The second half of a tick is a division of a `long`.
unfoldable pub u_os_get_sys_tick : (res : ℕ) → Timespec → ℕ
u_os_get_sys_tick res now = (now.tv_sec * (1000 / res) + now.tv_nsec / (1000000 * res)) % 2 ^ 32
