-- ===== src/Thread/Priority.antt =====
-- os_pthread_thread.c: the priorities of threads. `from_sched_priority` returns a UINT8.
use multithreading.Prelude.{
  ℕ, ◌+◌, ◌-◌, ◌*◌, ◌/◌, ◌%◌, ◌^◌, ◌<◌, ◌≤◌, ◌==◌, ◌≡◌, if◌then◌else◌, ltb, arith,
}

-- The priorities of the scheduler are 0 to 99, so that the difference is not negative.
unfoldable pub from_sched_priority : (sched_priority : ℕ) → ℕ
from_sched_priority sched_priority = (100 - sched_priority) * 256 / 100 % 2 ^ 8

abbrev at_least_one : ℕ → ℕ
at_least_one p = if ltb p 1 then 1 else p

abbrev at_most_99 : ℕ → ℕ
at_most_99 p = if ltb 99 p then 99 else p

-- The argument is a UINT8.
unfoldable pub to_sched_priority : (ui1_priority : ℕ) → ℕ
to_sched_priority ui1_priority = at_most_99 (at_least_one (100 - ui1_priority * 100 / 256))

pub to_sched_priority_bounds :
    (p q : ℕ)
    → p < 256
    → q < 256
    → (1 ≤ to_sched_priority p)
      × (to_sched_priority p ≤ 99)
      × (p ≤ q → to_sched_priority q ≤ to_sched_priority p)
unfolding to_sched_priority
to_sched_priority_bounds p q a b = (ground arith, ground arith, λ h. ground arith)

pub to_from :
    (s : ℕ)
    → 1 ≤ s
    → s ≤ 99
    → to_sched_priority (from_sched_priority s)
      ≡ (if s % 25 == 0 then s else if s == 99 then s else s + 1)
unfolding to_sched_priority from_sched_priority
to_from s a b = ground arith
