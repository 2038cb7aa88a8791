-- ===== src/Sema/Counting.antt =====
-- os_pthread_sema.c, types binary and counting: units are neither lost nor made.
use multithreading.Prelude.{
  ℕ, zero, suc, ◌+◌, ◌^◌, ◌<◌, ◌≡◌, ◌==◌, refl, false, List, [], ◌∷◌, none, some, arith, inl, inr,
  Bool-cases, ne→==,
}
use multithreading.Os.{
  Osr, einval, etimedout, other_errno, PthreadRet, Run, done, blocked, Timespec,
}
use multithreading.Sema.{
  Sema, SemaOption, is_mutex, wait, nowait, other_option, u_sema_lock, u_sema_lock_timeout,
  u_sema_unlock, enter, take_value,
}

-- What a thread does, and what pthread returns to it: a lock, up to its end or to the point where it waits; the
-- end of the wait of a lock, with the object as it is then; an unlock.
pub data Call : Type 0 where
  lock : (mutex_ret : PthreadRet) (self : ℕ) → SemaOption → Call
  lock_timeout : (mutex_ret : PthreadRet) (now : Timespec) (self ms : ℕ) → Call
  woken : (ret : PthreadRet) (self : ℕ) → Call
  woken_timeout : (ret : PthreadRet) (now : Timespec) (self ms : ℕ) → Call
  unlock : (mutex_ret : PthreadRet) (self : ℕ) → Call

-- The state a lock leaves, the units that it took, and those that it gave.
abbrev pub taken_by : Run Sema → Sema × ℕ × ℕ
taken_by (done Osr.ok s) = (s, 1, 0)
taken_by (done _ s) = (s, 0, 0)
taken_by (blocked s) = (s, 0, 0)

abbrev pub given_by : Osr × Sema → Sema × ℕ × ℕ
given_by (Osr.ok, s) = (s, 0, 1)
given_by (_, s) = (s, 0, 0)

-- The object without a unit, as a lock has found it that waits.
abbrev pub used_up : Sema → Sema
used_up s = record s { value = 0 }

unfoldable pub run_call : Call → Sema → Sema × ℕ × ℕ
run_call (lock m self option) s = taken_by (u_sema_lock m [] self option s)
run_call (lock_timeout m now self ms) s =
    taken_by (u_sema_lock_timeout m now (λ until. []) self ms s)
run_call (woken r self) s =
    taken_by (u_sema_lock none (record { ret = r; after = s } ∷ []) self wait (used_up s))
run_call (woken_timeout r now self ms) s = taken_by (
    u_sema_lock_timeout none now (λ until. record { ret = r; after = s } ∷ []) self (suc ms)
      (used_up s))
run_call (unlock m self) s = given_by (u_sema_unlock m self s)

-- The object after the calls, the number of locks that were granted, and of unlocks that returned OSR_OK.
unfoldable pub run_calls : List Call → Sema → Sema × ℕ × ℕ
run_calls [] s = (s, 0, 0)
run_calls (c ∷ cs) s =
    let (t, took, gave) = run_call c s in
    let (u, granted, given) = run_calls cs t in (u, granted + took, given + gave)

-- The units of one call.
abbrev Kept : Sema → Sema × ℕ × ℕ → Type 0
Kept s (t, took, gave) =
    (is_mutex t.e_type ≡ false) × (s.value + gave < 2 ^ 32 → t.value + took ≡ s.value + gave)

lock-Kept :
    (m : PthreadRet) (self : ℕ) (option : SemaOption) (s : Sema)
    → is_mutex s.e_type ≡ false
    → Kept s (taken_by (u_sema_lock m [] self option s))
unfolding u_sema_lock enter take_value
lock-Kept m self (other_option k) s t = (t, λ b. refl)
lock-Kept (some einval) self wait s t = rw t (t, λ b. refl)
lock-Kept (some etimedout) self wait s t = rw t (t, λ b. refl)
lock-Kept (some (other_errno k)) self wait s t = rw t (t, λ b. refl)
lock-Kept (some einval) self nowait s t = rw t (t, λ b. refl)
lock-Kept (some etimedout) self nowait s t = rw t (t, λ b. refl)
lock-Kept (some (other_errno k)) self nowait s t = rw t (t, λ b. refl)
lock-Kept none self wait s t = rw t (elim (Bool-cases (s.value == 0)) [
  | inl e ↦ rw (enter, take_value, e) (t, λ b. refl)
  | inr e ↦ rw (enter, take_value, e) (t, λ b. ground arith)
])
lock-Kept none self nowait s t = rw t (elim (Bool-cases (s.value == 0)) [
  | inl e ↦ rw (enter, take_value, e) (t, λ b. refl)
  | inr e ↦ rw (enter, take_value, e) (t, λ b. ground arith)
])

woken-Kept :
    (r : PthreadRet) (self : ℕ) (s : Sema)
    → is_mutex s.e_type ≡ false
    → Kept s
        (taken_by (u_sema_lock none (record { ret = r; after = s } ∷ []) self wait (used_up s)))
unfolding u_sema_lock enter take_value
woken-Kept (some einval) self s t = rw t (t, λ b. refl)
woken-Kept (some etimedout) self s t = rw t (t, λ b. refl)
woken-Kept (some (other_errno k)) self s t = rw t (t, λ b. refl)
woken-Kept none self s t = rw t (elim (Bool-cases (s.value == 0)) [
  | inl e ↦ rw (enter, take_value, e) (t, λ b. refl)
  | inr e ↦ rw (enter, take_value, e) (t, λ b. ground arith)
])

lock_timeout-Kept :
    (m : PthreadRet) (now : Timespec) (self ms : ℕ) (s : Sema)
    → is_mutex s.e_type ≡ false
    → Kept s (taken_by (u_sema_lock_timeout m now (λ until. []) self ms s))
unfolding u_sema_lock_timeout u_sema_lock enter take_value
lock_timeout-Kept (some einval) now self zero s t = rw t (t, λ b. refl)
lock_timeout-Kept (some etimedout) now self zero s t = rw t (t, λ b. refl)
lock_timeout-Kept (some (other_errno k)) now self zero s t = rw t (t, λ b. refl)
lock_timeout-Kept (some einval) now self (suc ms) s t =
    rw (ne→== (suc ms) 0 (omega arith), t) (t, λ b. refl)
lock_timeout-Kept (some etimedout) now self (suc ms) s t =
    rw (ne→== (suc ms) 0 (omega arith), t) (t, λ b. refl)
lock_timeout-Kept (some (other_errno k)) now self (suc ms) s t =
    rw (ne→== (suc ms) 0 (omega arith), t) (t, λ b. refl)
lock_timeout-Kept none now self zero s t = rw t (elim (Bool-cases (s.value == 0)) [
  | inl e ↦ rw (enter, take_value, e) (t, λ b. refl)
  | inr e ↦ rw (enter, take_value, e) (t, λ b. ground arith)
])
lock_timeout-Kept none now self (suc ms) s t =
    rw (ne→== (suc ms) 0 (omega arith), t)
      (elim (Bool-cases (s.value == 0)) [
        | inl e ↦ rw (enter, take_value, e) (t, λ b. refl)
        | inr e ↦ rw (enter, take_value, e) (t, λ b. ground arith)
      ])

woken_timeout-Kept :
    (r : PthreadRet) (now : Timespec) (self ms : ℕ) (s : Sema)
    → is_mutex s.e_type ≡ false
    → Kept s (
        taken_by (
          u_sema_lock_timeout none now
            (λ until. record { ret = r; after = s } ∷ [])
            self
            (suc ms)
            (used_up s)))
unfolding u_sema_lock_timeout enter take_value
woken_timeout-Kept (some einval) now self ms s t =
    rw (ne→== (suc ms) 0 (omega arith), t) (t, λ b. refl)
woken_timeout-Kept (some etimedout) now self ms s t =
    rw (ne→== (suc ms) 0 (omega arith), t) (t, λ b. refl)
woken_timeout-Kept (some (other_errno k)) now self ms s t =
    rw (ne→== (suc ms) 0 (omega arith), t) (t, λ b. refl)
woken_timeout-Kept none now self ms s t =
    rw (ne→== (suc ms) 0 (omega arith), t)
      (elim (Bool-cases (s.value == 0)) [
        | inl e ↦ rw (enter, take_value, e) (t, λ b. refl)
        | inr e ↦ rw (enter, take_value, e) (t, λ b. ground arith)
      ])

unlock-Kept :
    (m : PthreadRet) (self : ℕ) (s : Sema)
    → is_mutex s.e_type ≡ false
    → Kept s (given_by (u_sema_unlock m self s))
unfolding u_sema_unlock
unlock-Kept none self s t = rw t (t, λ b. omega (arith, b))
unlock-Kept (some einval) self s t = rw t (t, λ b. refl)
unlock-Kept (some etimedout) self s t = rw t (t, λ b. refl)
unlock-Kept (some (other_errno k)) self s t = rw t (t, λ b. refl)

run_call-Kept : (c : Call) (s : Sema) → is_mutex s.e_type ≡ false → Kept s (run_call c s)
unfolding run_call
run_call-Kept (lock m self option) s t = lock-Kept m self option s t
run_call-Kept (lock_timeout m now self ms) s t = lock_timeout-Kept m now self ms s t
run_call-Kept (woken r self) s t = woken-Kept r self s t
run_call-Kept (woken_timeout r now self ms) s t = woken_timeout-Kept r now self ms s t
run_call-Kept (unlock m self) s t = unlock-Kept m self s t

-- A semaphore that is no mutex, and threads that lock it, with or without a wait or a time limit, wait for
-- it, wake up and unlock it, in whatever order and whatever pthread returns: its value is its value at the
-- start, plus the unlocks that returned OSR_OK, less the locks that did, as long as that sum fits in 32 bits.
-- So no more locks are granted than there were units.
pub run_calls-balance :
    (cs : List Call) (s : Sema)
    → is_mutex s.e_type ≡ false
    → s.value + (run_calls cs s).2 < 2 ^ 32
    → (run_calls cs s).0.value + (run_calls cs s).1 ≡ s.value + (run_calls cs s).2
unfolding run_calls
run_calls-balance [] s t small = omega arith
run_calls-balance (c ∷ cs) s t small =
    let (same, kept) = run_call-Kept c s t in
    let now = kept (omega (arith, small)) in
    omega (arith, now, run_calls-balance cs (run_call c s).0 same (omega (arith, small, now)))
