-- ===== src/Timer/System.antt =====
-- timerd/_timer.c: the sections under the mutex, one after the other, in any order of the threads.
use multithreading.Prelude.{ℕ, ◌≤◌, Bool, true, Option, some, List, ◌≡◌, ◌≢◌}
use multithreading.Os.{Osr, Timespec, IsNormal}
use multithreading.Timer.{TimerCbfctArgs, Callback, TimerList, TimerFlag, timer_expire}
use multithreading.Timer.Api.{
  due, u_timer_start, timer_start, u_timer_stop, u_timer_delete, u_timer_create,
}
use multithreading.Timer.Add.{Wf}
use multithreading.Timer.Loop.{Armed}

-- With enough fuel the code comes to `r`.
abbrev pub Enough : {A : Type 0} → (ℕ → Option A) → A → Type 0
Enough run r = (n : ℕ) × ((fuel : ℕ) → n ≤ fuel → run fuel ≡ some r)

-- A call, or a round of the loop of `TimerProc` up to the release of the mutex. `calloc` does not give
-- the address of a timer in the list.
pub data Step (s s' : TimerList) : Type 0 where
  start :
      (mem_args mem_msg : Bool) (now : Timespec) (h_app h delay : ℕ) (flags : TimerFlag)
      (msg : Option (List ℕ)) (o : Osr)
      → IsNormal now
      → h ≢ 0
      → Enough (λ fuel. u_timer_start mem_args mem_msg fuel now h_app h delay flags msg s) (o, s')
      → Step s s'
  stop : (now : Timespec) (h : ℕ) → s' ≡ (u_timer_stop now h s).1 → Step s s'
  delete : (h : ℕ) → s' ≡ (u_timer_delete h s).1 → Step s s'
  create :
      (given : Bool) (mem : Option ℕ)
      → ((t : ℕ) → mem ≡ some t → s.links.previous t ≡ 0)
      → s' ≡ (u_timer_create given mem s).1
      → Step s s'
  expire :
      (now : Timespec) (pargs : Option TimerCbfctArgs)
      → due now s ≡ true
      → Enough (λ fuel. timer_expire fuel s) (s', pargs)
      → Step s s'

pub data Reachable : TimerList → Type 0 where
  begin : {s : TimerList} → s.s_timer_list ≡ 0 → ((t : ℕ) → s.links.previous t ≡ 0) → Reachable s
  next : {s s' : TimerList} → Reachable s → Step s s' → Reachable s'

abbrev pub Good : TimerList → Type 0
Good s = (xs : List ℕ) × Wf s xs × Armed s xs

-- What `_timer_start` comes to.
abbrev Outcome :
    (fuel : ℕ) → Timespec → (h delay : ℕ) → TimerFlag → TimerCbfctArgs → TimerList → Type 0
Outcome fuel now h delay flags a s =
    (o : Osr) × (s' : TimerList) × (timer_start fuel now h delay flags
        (some Callback.os_timer_cb_fct) (some a) s
      ≡ some (o, s'))
    × Good s'
