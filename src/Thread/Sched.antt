-- ===== src/Thread/Sched.antt =====
-- os_pthread_thread.c: a priority that is read and written back.
use multithreading.Prelude.{
  ℕ, ◌+◌, ◌%◌, ◌≤◌, true, false, some, List, [], ◌∷◌, ◌==◌, ◌≡◌, refl, ap, ◌∙◌, length, has, arith,
  if◌then◌else◌, Bool-cases, inl, inr, eq→==, ne→==, has-apart,
}
use multithreading.Os.{Osr}
use multithreading.Ring.Insert.{place}
use multithreading.Ring.Remove.{Ring-zero}
use multithreading.Ring.Chain.{Through, find_first-place}
use multithreading.Thread.{Threads}
use multithreading.Thread.Names.{
  thread_find_handle, set_thread, out_of_range, u_thread_set_pri, u_thread_get_pri,
}
use multithreading.Thread.Priority.{from_sched_priority, to_sched_priority, to_from}

place_self : (h : ℕ) (xs : List ℕ) → has h xs ≡ true → place (λ k. k == h) xs 0 ≡ h
place_self h [] i = absurd (ground arith)
place_self h (x ∷ xs) i = elim (Bool-cases (x == h)) [
  | inl p ↦ rw p (ground arith)
  | inr p ↦ rw p (place_self h xs (ground arith))
]

from_in_range : (s : ℕ) → 1 ≤ s → s ≤ 98 → out_of_range (from_sched_priority s) ≡ false
unfolding from_sched_priority
from_in_range s a b = ground arith

back :
    (q : ℕ)
    → q ≤ 98
    → (if q % 25 == 0 then q else if q == 99 then q else q + 1) ≡ (if q % 25 == 0 then q else q + 1)
back q b = rw (ne→== q 99 (λ e. absurd (omega (arith, e)))) refl

module _ (fuel h : ℕ) (s : Threads) (xs : List ℕ) (r : Through s.s_thread_list xs)
    (i : has h xs ≡ true) (room : length xs ≤ fuel) where
  found_at : thread_find_handle fuel h s ≡ some h
  unfolding thread_find_handle
  found_at =
      find_first-place (λ k. k == h) s.s_thread_list fuel xs r room ∙ ap some (place_self h xs i)

  not_zero : (h == 0) ≡ false
  not_zero =
      ne→== h 0 (has-apart h 0 xs i (Ring-zero s.s_thread_list.links s.s_thread_list.first xs r))

  -- The priority of a thread of the list, between 1 and 98 in the scheduler, is read and written back:
  -- both calls return OSR_OK, and the scheduler has its priority again if it is a multiple of 25, and
  -- else one more than it was.
  pub u_thread_set_pri-u_thread_get_pri :
      1 ≤ (s.threads h).sched_priority
      → (s.threads h).sched_priority ≤ 98
      → (p : ℕ) × (s' : Threads) × (u_thread_get_pri fuel true true h s ≡ some (Osr.ok, some p))
        × (u_thread_set_pri fuel true true h p s ≡ some (Osr.ok, s'))
        × ((s'.threads h).sched_priority ≡ (
            if (s.threads h).sched_priority % 25 == 0
            then (s.threads h).sched_priority
            else (s.threads h).sched_priority + 1))
  unfolding u_thread_get_pri u_thread_set_pri
  u_thread_set_pri-u_thread_get_pri a b =
      let q = (s.threads h).sched_priority in
      let p = from_sched_priority q in
      (
        p,
        set_thread h (record (s.threads h) { sched_priority = to_sched_priority p }) s,
        rw (found_at, not_zero) refl,
        rw (from_in_range q a b, found_at, not_zero) refl,
        rw (eq→== h h refl) (to_from q a (omega arith) ∙ back q b),
      )
