-- ===== src/Timer/Expire.antt =====
-- timerd/_timer.c: a timer that runs out, in `TimerProc` before the release of the mutex.
use multithreading.Prelude.{
  ℕ, ◌≤◌, true, false, some, List, ◌∷◌, ◌≡◌, ◌≢◌, refl, sym, ap, ◌∙◌, subst, if◌then◌else◌, arith,
  inl, inr, Bool-cases, erase, length, has-apart, eq→==, ne→==,
}
use multithreading.Os.{Timespec, add_time, add_time-IsNormal}
use multithreading.Ring.Insert.{insert_by, insert_by_same}
use multithreading.Timer.{
  OsTimerLight, TimerList, time_before, abstime_of, timer_list_remove, set_timer, is_zero,
  timer_expire, args_for_call,
}
use multithreading.Timer.Add.{NormalTimer, Wf, timer_list_add-Wf}
use multithreading.Timer.Remove.{
  timer_list_remove-Wf, timer_list_remove-timers, timer_list_remove-field, timer_list_remove-repeat,
  set_timer-Wf,
}

-- The time at which a timer runs out again.
abbrev pub next_time : OsTimerLight → Timespec
next_time r = add_time r.abstime r.interval

abbrev pub renewed : OsTimerLight → OsTimerLight
renewed r = record r { abstime = next_time r }

-- What becomes of the timer in front: it is gone, or it is back with its next time.
pub data After (s : TimerList) (xs : List ℕ) (s' : TimerList) : List ℕ → Type 0 where
  over :
      is_zero (s.timers s.s_timer_list).interval ≡ true
      → ((s'.timers s.s_timer_list).interval ≡ (s.timers s.s_timer_list).interval)
      → ((s'.timers s.s_timer_list).pf_callback ≡ (s.timers s.s_timer_list).pf_callback)
      → After s xs s' xs
  again :
      is_zero (s.timers s.s_timer_list).interval ≡ false
      → s'.timers s.s_timer_list ≡ renewed (s.timers s.s_timer_list)
      → After s xs s' (
          insert_by
            (λ p. time_before (next_time (s.timers s.s_timer_list)) (abstime_of s p))
            s.s_timer_list
            xs)

-- The list after a timer has run out.
abbrev pub Expired : (fuel : ℕ) → TimerList → List ℕ → Type 0
Expired fuel s xs =
    (s' : TimerList) × (ys : List ℕ) × (timer_expire fuel s
      ≡ some (s', args_for_call (s.timers s.s_timer_list)))
    × Wf s' ys
    × After s xs s' ys
    × ((k : ℕ) → k ≢ s.s_timer_list → s'.timers k ≡ s.timers k)

module _ (fuel : ℕ) (s : TimerList) (xs : List ℕ) (wf : Wf s (s.s_timer_list ∷ xs)) where
  rest-Wf : Wf (timer_list_remove s.s_timer_list s) xs
  rest-Wf =
      let t : ℕ = s.s_timer_list in
      subst (λ ys. Wf (timer_list_remove t s) ys)
        (ap (λ b. if b then xs else t ∷ erase t xs) (eq→== t t refl))
        (timer_list_remove-Wf s t (t ∷ xs) wf (ground arith))

  expire_once : is_zero (s.timers s.s_timer_list).interval ≡ true → Expired fuel s xs
  unfolding timer_expire
  expire_once e =
      let t : ℕ = s.s_timer_list in
      let i = timer_list_remove-field s t (λ r. r.interval) refl in
      (
        timer_list_remove t s,
        xs,
        rw (ap is_zero i ∙ e) refl,
        rest-Wf,
        over e i (timer_list_remove-field s t (λ r. r.pf_callback) refl),
        timer_list_remove-timers s t,
      )

  expire_repeat :
      is_zero (s.timers s.s_timer_list).interval ≡ false → length xs ≤ fuel → Expired fuel s xs
  unfolding timer_expire
  expire_repeat e room =
      let t : ℕ = s.s_timer_list in
      let s1 = timer_list_remove t s in
      let r1 = renewed (s1.timers t) in
      let s2 = set_timer t r1 s1 in
      let same = timer_list_remove-repeat s t e in
      let on : is_zero (s1.timers t).interval ≡ false = ap (λ r. is_zero r.interval) same ∙ e in
      let n = wf.ring.2.0 in
      let here : s2.timers t ≡ renewed (s.timers t) = rw (eq→== t t refl) (ap renewed same) in
      let there : (k : ℕ) → k ≢ t → s2.timers k ≡ s.timers k =
        λ k ne. rw (ne→== t k (λ b. ne (sym b))) (timer_list_remove-timers s t k ne) in
      let old = wf.normal t (ground arith) in
      let (s3, run, wf3, kept) =
        timer_list_add-Wf fuel s2 t xs (set_timer-Wf s1 t xs rest-Wf r1 n)
          (ground (arith, wf.ring.3))
          (subst NormalTimer (sym here)
            (add_time-IsNormal (s.timers t).abstime (s.timers t).interval old.0 old.1, old.1))
          room in
      (
        s3,
        insert_by (λ p. time_before (next_time (s.timers t)) (abstime_of s p)) t xs,
        rw (on, run) refl,
        subst (λ ys. Wf s3 ys)
            (insert_by_same (λ p. time_before (abstime_of s2 t) (abstime_of s2 p))
              (λ p. time_before (next_time (s.timers t)) (abstime_of s p)) t xs
              (λ k i.
                let ne = has-apart k t xs i n in
                ap (λ q. time_before q.abstime (abstime_of s2 k)) here
                ∙ ap (λ q. time_before (next_time (s.timers t)) q.abstime) (there k ne)))
            wf3,
        again e (ap (λ g. g t) kept ∙ here),
        λ k ne. ap (λ g. g k) kept ∙ there k ne,
      )

-- With fuel for the list, the timer in front goes out of the list when it runs once; otherwise it
-- comes back with its next time, in front of the first timer that runs out later. The list stays in
-- order, and the other timers stay as they are.
pub timer_expire-Wf :
    (fuel : ℕ) (s : TimerList) (x : ℕ) (xs : List ℕ)
    → Wf s (x ∷ xs)
    → length xs ≤ fuel
    → Expired fuel s xs
timer_expire-Wf fuel s x xs wf room =
    let wf1 = subst (λ k. Wf s (k ∷ xs)) (sym wf.ring.0) wf in
    elim (Bool-cases (is_zero (s.timers s.s_timer_list).interval)) [
      | inl e ↦ expire_once fuel s xs wf1 e
      | inr e ↦ expire_repeat fuel s xs wf1 e room
    ]
