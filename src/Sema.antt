-- ===== src/Sema.antt =====
-- mw/os_pthread/os_pthread_sema.c: semaphores of the types binary, mutex and counting over one
-- pthread mutex and one condition variable.
-- A call takes what pthread returns as arguments: `mutex_ret` of `pthread_mutex_lock`, and a list
-- of `Wake`s, one for each return of `pthread_cond_wait`, with the object as the other threads
-- left it. When the list is used up the call still waits (`blocked`).
pub mod Mutex
pub mod Counting
mod Examples
use multithreading.Prelude.{
  ℕ, ◌+◌, ◌-◌, ◌^◌, Bool, true, false, Option, none, some, List, [], ◌∷◌, ◌==◌, ◌&&◌, ◌||◌, not,
  if◌then◌else◌, leb, inc16, dec16, inc32,
}
use multithreading.Os.{
  Osr, Errno, PthreadRet, osr_of_errno, osr_of_timed_errno, Run, done, blocked, Timespec, add_time,
  of_ms,
}

-- X_SEMA_TYPE_BINARY, X_SEMA_TYPE_MUTEX, X_SEMA_TYPE_COUNTING, and any other value of the enum
pub data SemaType : Type 0 where
  binary mutex counting : SemaType
  other_type : ℕ → SemaType

pub data SemaOption : Type 0 where
  wait nowait : SemaOption
  other_option : ℕ → SemaOption

-- INVALID_PTHREAD_T, `(pthread_t)(-1)`
abbrev pub invalid_pthread : ℕ
invalid_pthread = 2 ^ 64 - 1

-- OS_SEMA_LIGHT_T. `value` is a UINT32, `selfcount` the bit pattern of an INT16.
pub record Sema : Type 0 where
  pub e_type : SemaType
  pub thread : ℕ
  pub value : ℕ
  pub selfcount : ℕ

abbrev pub state_lock : ℕ
state_lock = 0

abbrev pub state_unlock : ℕ
state_unlock = 1

abbrev pub is_mutex : SemaType → Bool
is_mutex mutex = true
is_mutex _ = false

-- The three checks of the arguments; an INT32 is negative from 2^31 on.
abbrev pub sema_args : SemaType → ℕ → Bool
sema_args binary v = (v == state_lock) || (v == state_unlock)
sema_args mutex v = (v == state_lock) || (v == state_unlock)
sema_args counting v = not (leb (2 ^ 31) v)
sema_args (other_type _) v = false

-- `handle_given` is `ph_sema_hdl != NULL`, `mem` that `calloc` succeeds, `init_ok` that both
-- pthread objects can be initialised.
unfoldable pub u_sema_create :
    (handle_given mem init_ok : Bool) (self : ℕ) → SemaType → ℕ → Osr × Option Sema
u_sema_create handle_given mem init_ok self e_type init =
    if not (handle_given && sema_args e_type init)
    then (Osr.inv_arg, none)
    else if not mem
    then (Osr.no_resource, none)
    else if not init_ok
    then (Osr.fail, none)
    else if is_mutex e_type && (init == state_lock)
    then (
      Osr.ok,
      some (record { e_type = e_type; thread = self; value = init; selfcount = inc16 0 }),
    )
    else (
      Osr.ok,
      some (record { e_type = e_type; thread = invalid_pthread; value = init; selfcount = 0 }),
    )

-- `none` is the object given back by `free`.
unfoldable pub u_sema_delete : (destroy_ok : Bool) → Sema → Osr × Option Sema
u_sema_delete destroy_ok s = if not destroy_ok then (Osr.fail, some s) else (Osr.ok, none)

-- One return of `pthread_cond_wait`: its value, and the object at that time.
pub record Wake : Type 0 where
  pub ret : PthreadRet
  pub after : Sema

-- How the loop `while (ui4_value == 0)` is left.
pub data Taken : Type 0 where
  taken : Sema → Taken
  refused : Sema → Taken
  failed : Errno → Sema → Taken
  pending : Sema → Taken

abbrev pub is_nowait : SemaOption → Bool
is_nowait nowait = true
is_nowait _ = false

abbrev pub take_unit : Sema → Sema
take_unit s = record s { value = s.value - 1 }

-- What a return of `pthread_cond_wait` leads to; `rest` is the loop from there.
abbrev pub woken : Wake → Taken → Taken
woken w rest = elim w.ret [ none ↦ rest | some e ↦ failed e w.after ]

-- The loop, and the decrement behind it.
unfoldable pub take_value : SemaOption → List Wake → Sema → Taken
take_value option [] s =
    if s.value == 0
    then (if is_nowait option then refused s else pending s)
    else taken (take_unit s)
take_value option (w ∷ ws) s =
    let rest = take_value option ws w.after in
    if s.value == 0
    then (if is_nowait option then refused s else woken w rest)
    else taken (take_unit s)

abbrev pub own : ℕ → Sema → Sema
own self s = record s { thread = self }

abbrev pub count_up : Sema → Sema
count_up s = record s { selfcount = inc16 s.selfcount }

-- From the lock of the mutex on: the loop, and `thread = self` if a unit was taken.
-- `switch_of` is the switch behind `err`, `finish` what the branch does last.
unfoldable pub enter :
    (Errno → Osr) → (Sema → Sema) → PthreadRet → SemaOption → List Wake → ℕ → Sema → Run Sema
unfolding take_value
enter switch_of finish mutex_ret option ws self s = elim mutex_ret [
  | some e ↦ done (switch_of e) s
  | none ↦ elim (take_value option ws s) [
    | taken t ↦ done Osr.ok (finish (own self t))
    | refused t ↦ done Osr.would_block t
    | failed e t ↦ done (switch_of e) t
    | pending t ↦ blocked t
  ]
]

abbrev pub option_ok : SemaOption → Bool
option_ok (other_option _) = false
option_ok _ = true

unfoldable pub u_sema_lock : PthreadRet → List Wake → (self : ℕ) → SemaOption → Sema → Run Sema
unfolding enter
u_sema_lock mutex_ret ws self option s =
    if not (option_ok option)
    then done Osr.inv_arg s
    else if is_mutex s.e_type
    then (if s.thread == self
        then done Osr.ok (count_up s)
        else enter osr_of_errno count_up mutex_ret option ws self s)
    else enter osr_of_errno (λ t. t) mutex_ret option ws self s

-- `now` is what the clock gives, and `waits` what the waits up to a deadline return.
unfoldable pub u_sema_lock_timeout :
    PthreadRet
    → (now : Timespec) → (waits : Timespec → List Wake) → (self : ℕ) → (ms : ℕ) → Sema
    → Run Sema
unfolding enter u_sema_lock add_time
u_sema_lock_timeout mutex_ret now waits self ms s =
    if ms == 0
    then (elim (u_sema_lock mutex_ret [] self nowait s) [
      | done Osr.would_block t ↦ done Osr.timeout t
      | done r t ↦ done r t
      | blocked t ↦ blocked t
    ])
    else let ws = waits (add_time now (of_ms ms)) in
      if is_mutex s.e_type
      then (if s.thread == self
          then done Osr.ok (count_up s)
          else enter osr_of_timed_errno count_up mutex_ret wait ws self s)
      else enter osr_of_timed_errno (λ t. t) mutex_ret wait ws self s

-- The lock of the mutex, `ui4_value++` and the signal.
abbrev pub give_unit : PthreadRet → Sema → Osr × Sema
give_unit none s = (Osr.ok, record s { value = inc32 s.value })
give_unit (some e) s = (osr_of_errno e, s)

unfoldable pub u_sema_unlock : PthreadRet → (self : ℕ) → Sema → Osr × Sema
u_sema_unlock mutex_ret self s =
    if is_mutex s.e_type
    then (if not (s.thread == self)
        then (Osr.fail, s)
        else let s' = record s { selfcount = dec16 s.selfcount } in
          if not (dec16 s.selfcount == 0)
          then (Osr.ok, s')
          else give_unit mutex_ret (own invalid_pthread s'))
    else give_unit mutex_ret (own invalid_pthread s)
