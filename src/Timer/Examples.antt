-- ===== src/Timer/Examples.antt =====
-- timerd/_timer.c: the timers 8 and 16, of which 16 runs out first.
use multithreading.Prelude.{
  ℕ, ◌≡◌, ◌≢◌, inl, refl, some, [], ◌∷◌, if◌then◌else◌, ◌==◌, erase, arith,
}
use multithreading.Os.{Osr, Timespec, add_time, of_ms}
use multithreading.Ring.Insert.{insert_by}
use multithreading.Timer.{
  TimerList, once, repeat, Callback, OsTimerLight, TimerCbfctArgs, time_before, abstime_of,
}
use multithreading.Timer.Api.{started, timer_start}
use multithreading.Timer.Add.{Wf}
use multithreading.Timer.Start.{timer_start-Wf}
use multithreading.Timer.Expire.{Expired, timer_expire-Wf}
use multithreading.Timer.Loop.{Armed, Settled, expire_due-Settled}
use multithreading.Timer.System.{next}

abbrev at : ℕ → Timespec
at n = record { tv_sec = n; tv_nsec = 0 }

abbrev args : TimerCbfctArgs
args = record { h_app = 5; ptimer_msg = some (1 ∷ []); msg_size = 1 }

abbrev timer : (abstime interval : ℕ) → OsTimerLight
timer abstime interval = record {
  abstime = at abstime;
  interval = at interval;
  pf_callback = some Callback.os_timer_cb_fct;
  pt_args = some args;
}

-- The timer 8 runs out at 7 and repeats, the timer 16 at 4.
abbrev two_timers : TimerList
two_timers = record {
  links = record {
    next = λ k. if k == 8 then 16 else if k == 16 then 8 else 0;
    previous = λ k. if k == 8 then 16 else if k == 16 then 8 else 0;
  };
  s_timer_list = 16;
  timers = λ k. if k == 8 then timer 7 2 else timer 4 0;
}

two_timers-Wf : Wf two_timers (16 ∷ 8 ∷ [])
two_timers-Wf = record {
  ring = (refl, (refl, refl, (refl, refl)), (refl, (refl, tt)), refl);
  order = ((refl, tt), (tt, tt));
  off = λ k i. ground arith;
  normal = λ k i. ground arith;
}

two_timers-Armed : Armed two_timers (16 ∷ 8 ∷ [])
two_timers-Armed k i = (args, ground arith)

-- The timer 8 is started again.
timer_start-Wf_example :
    (s' : TimerList) × (timer_start 2
        (at 3)
        8
        500
        once
        (some Callback.os_timer_cb_fct)
        (some args)
        two_timers
      ≡ some (Osr.ok, s'))
    × Wf s' (
        insert_by
          (λ p. time_before (add_time (at 3) (of_ms 500)) (abstime_of two_timers p))
          8
          (erase 8 (16 ∷ 8 ∷ [])))
    × (s'.timers 8 ≡ started (at 3) 500 once (some Callback.os_timer_cb_fct) (some args))
    × ((k : ℕ) → k ≢ 8 → s'.timers k ≡ two_timers.timers k)
timer_start-Wf_example =
    timer_start-Wf 2 (at 3) 8 500 once Callback.os_timer_cb_fct (some args) two_timers (16 ∷ 8 ∷ [])
      two_timers-Wf (omega arith) (ground arith) (omega arith) (inl refl) (omega arith)

timer_expire-Wf_example : Expired 2 two_timers (8 ∷ [])
timer_expire-Wf_example = timer_expire-Wf 2 two_timers 16 (8 ∷ []) two_timers-Wf (omega arith)

abbrev after_4 : Timespec
after_4 = record { tv_sec = 4; tv_nsec = 1 }

expire_due-Settled_example : Settled (λ k s. s) (λ k s. s) 2 2 after_4 two_timers
expire_due-Settled_example =
    expire_due-Settled (λ k s. s) (λ k s. s) 2 2 after_4 two_timers (16 ∷ 8 ∷ []) two_timers-Wf
      two_timers-Armed (omega arith) (omega arith) (omega arith) (λ k r. refl) (λ k r. refl)

abbrev no_timers : TimerList
no_timers = record {
  links = record { next = λ k. 0; previous = λ k. 0 };
  s_timer_list = 0;
  timers = λ k. timer 0 0;
}

abbrev one_timer : TimerList
one_timer = record {
  links = record { next = λ k. if 8 == k then 8 else 0; previous = λ k. if 8 == k then 8 else 0 };
  s_timer_list = 8;
  timers = λ k.
      if 8 == k
      then started (at 3) 500 repeat (some Callback.os_timer_cb_fct) (some args)
      else timer 0 0;
}
