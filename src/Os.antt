-- ===== src/Os.antt =====
-- inc/u_os.h: the result codes of the operating-system layer, and what its calls of pthread and of
-- the clock return. The codes are named without their prefix OSR_.
use multithreading.Prelude.{ℕ, ◌+◌, ◌-◌, ◌*◌, ◌/◌, ◌%◌, ◌<◌, ◌≡◌, Option, leb, if◌then◌else◌, arith}

pub data Osr : Type 0 where
  ok would_block exist inv_arg timeout no_resource not_exist too_many too_big no_msg : Osr
  inv_handle fail not_support dup_key key_not_found : Osr

-- What a pthread call returns when it does not return 0.
pub data Errno : Type 0 where
  einval etimedout : Errno
  other_errno : ℕ → Errno

-- `none` is the return value 0.
abbrev pub PthreadRet : Type 0
PthreadRet = Option Errno

-- The switches behind the label `err`.
abbrev pub osr_of_errno : Errno → Osr
osr_of_errno einval = inv_handle
osr_of_errno etimedout = fail
osr_of_errno (other_errno _) = fail

abbrev pub osr_of_timed_errno : Errno → Osr
osr_of_timed_errno einval = inv_handle
osr_of_timed_errno etimedout = timeout
osr_of_timed_errno (other_errno _) = fail

-- A call that may wait: it has returned with the state it leaves, or it still waits.
pub data Run (A : Type 0) : Type 0 where
  done : Osr → A → Run A
  blocked : A → Run A

-- `struct timespec`
pub record Timespec : Type 0 where
  pub tv_sec : ℕ
  pub tv_nsec : ℕ

abbrev pub nsec_per_sec : ℕ
nsec_per_sec = 1000000000

-- The sum of two times, with one carry, as the code writes it out at each place.
unfoldable pub add_time : Timespec → Timespec → Timespec
add_time a b =
    if leb nsec_per_sec (a.tv_nsec + b.tv_nsec)
    then record { tv_sec = a.tv_sec + b.tv_sec + 1; tv_nsec = a.tv_nsec + b.tv_nsec - nsec_per_sec }
    else record { tv_sec = a.tv_sec + b.tv_sec; tv_nsec = a.tv_nsec + b.tv_nsec }

-- A delay in milliseconds.
abbrev pub of_ms : ℕ → Timespec
of_ms ms = record { tv_sec = ms / 1000; tv_nsec = ms % 1000 * 1000000 }

abbrev pub nanos : Timespec → ℕ
nanos t = t.tv_sec * nsec_per_sec + t.tv_nsec

-- `tv_nsec` is below one second.
abbrev pub IsNormal : Timespec → Type 0
IsNormal t = t.tv_nsec < nsec_per_sec

-- The sum of two times in nanoseconds.
pub nanos-add_time : (a b : Timespec) → nanos (add_time a b) ≡ nanos a + nanos b
unfolding add_time
nanos-add_time a b = ground arith

pub add_time-IsNormal : (a b : Timespec) → IsNormal a → IsNormal b → IsNormal (add_time a b)
unfolding add_time
add_time-IsNormal a b p q = ground arith
