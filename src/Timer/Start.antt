-- ===== src/Timer/Start.antt =====
-- timerd/_timer.c: `_timer_start`, `u_timer_stop` and `u_timer_delete` on the list of timers.
use multithreading.Prelude.{
  ℕ, ◌+◌, ◌^◌, ◌<◌, ◌≤◌, true, false, Option, some, List, ◌≡◌, ◌≢◌, ◌⊎◌, refl, sym, ap, ◌∙◌, subst,
  ◌==◌, arith, inl, inr, Bool-cases, erase, has, length, erase_absent, length-erase, has-apart,
  has-erase_self, ℕ_discrete, eq→==, ne→==,
}
use multithreading.Os.{Osr, Timespec, IsNormal, add_time, of_ms, add_time-IsNormal, nanos}
use multithreading.Ring.Remove.{Ring-zero, previous_inside, Ring-Distinct}
use multithreading.Ring.Insert.{insert_by, insert_by_same}
use multithreading.Timer.{
  TimerCbfctArgs, Callback, TimerList, TimerFlag, once, repeat, other_flag, time_before, abstime_of,
  timer_list_remove, set_timer,
}
use multithreading.Timer.Api.{
  bad_start, started, taken_out, timer_start, u_timer_stop, u_timer_delete, time_left,
}
use multithreading.Timer.Add.{NormalTimer, Wf, timer_list_add-Wf}
use multithreading.Timer.Remove.{timer_list_remove-Wf, timer_list_remove-timers, set_timer-Wf}

module _ (s : TimerList) (h : ℕ) (xs : List ℕ) (wf : Wf s xs) where
  -- A timer whose field `previous` is NULL is not in the list.
  pub off_list : s.links.previous h ≡ 0 → has h xs ≡ false
  off_list e = elim (Bool-cases (has h xs)) [
    | inl p ↦
        let before = previous_inside s.links s.s_timer_list h xs wf.ring p in
        let zero = Ring-zero s.links s.s_timer_list xs wf.ring in
        absurd (has-apart (s.links.previous h) 0 xs before zero e)
    | inr p ↦ p
  ]

  on_list : s.links.previous h ≢ 0 → has h xs ≡ true
  on_list ne = elim (Bool-cases (has h xs)) [ inl p ↦ p | inr p ↦ absurd (ne (wf.off h p)) ]

  pub taken_out-Wf : Wf (taken_out h s) (erase h xs)
  taken_out-Wf = elim (ℕ_discrete (s.links.previous h) 0) [
    | yes p ↦
        rw (eq→== (s.links.previous h) 0 p)
          (subst (λ ys. Wf s ys) (sym (erase_absent h xs (off_list p))) wf)
    | no p ↦ rw (ne→== (s.links.previous h) 0 p) (timer_list_remove-Wf s h xs wf (on_list p))
  ]

  taken_out-timers : (k : ℕ) → k ≢ h → (taken_out h s).timers k ≡ s.timers k
  taken_out-timers k ne = elim (Bool-cases (s.links.previous h == 0)) [
    | inl p ↦ rw p refl
    | inr p ↦ rw p (timer_list_remove-timers s h k ne)
  ]

module _ (now : Timespec) (delay : ℕ) (args : Option TimerCbfctArgs) (normal : IsNormal now) where
  of_ms-IsNormal : IsNormal (of_ms delay)
  of_ms-IsNormal = omega arith

  started-NormalTimer :
      (flags : TimerFlag) (f : Option Callback) → NormalTimer (started now delay flags f args)
  started-NormalTimer once f =
      (add_time-IsNormal now (of_ms delay) normal of_ms-IsNormal, ground arith)
  started-NormalTimer repeat f =
      (add_time-IsNormal now (of_ms delay) normal of_ms-IsNormal, of_ms-IsNormal)
  started-NormalTimer (other_flag n) f =
      (add_time-IsNormal now (of_ms delay) normal of_ms-IsNormal, of_ms-IsNormal)

  good_start :
      (f : Callback) (flags : TimerFlag)
      → 0 < delay
      → (flags ≡ once) ⊎ (flags ≡ repeat)
      → bad_start (some f) delay flags ≡ false
  good_start f flags d (inl e) = rw e (ground arith)
  good_start f flags d (inr e) = rw e (ground arith)

-- `_timer_start` with a callback, a delay and a flag, of a timer in the list or not in it, with fuel
-- for the list, returns OSR_OK. Then the timer is in the list once, with the new time, interval and
-- arguments, in front of the first other one that runs out later; the other timers stay as they are.
pub timer_start-Wf :
    (fuel : ℕ) (now : Timespec) (h delay : ℕ) (flags : TimerFlag) (f : Callback)
    (args : Option TimerCbfctArgs) (s : TimerList) (xs : List ℕ)
    → Wf s xs
    → IsNormal now
    → h ≢ 0
    → 0 < delay
    → (flags ≡ once) ⊎ (flags ≡ repeat)
    → length xs ≤ fuel
    → (s' : TimerList) × (timer_start fuel now h delay flags (some f) args s ≡ some (Osr.ok, s'))
      × Wf s' (
          insert_by (λ p. time_before (add_time now (of_ms delay)) (abstime_of s p)) h (erase h xs))
      × (s'.timers h ≡ started now delay flags (some f) args)
      × ((k : ℕ) → k ≢ h → s'.timers k ≡ s.timers k)
unfolding timer_start
timer_start-Wf fuel now h delay flags f args s xs wf normal nz d good room =
    let r = started now delay flags (some f) args in
    let s1 = set_timer h r (taken_out h s) in
    let gone = has-erase_self h xs (Ring-Distinct s.links s.s_timer_list xs wf.ring) in
    let wf1 : Wf s1 (erase h xs) =
      set_timer-Wf (taken_out h s) h (erase h xs) (taken_out-Wf s h xs wf) r gone in
    let here : s1.timers h ≡ r = rw (eq→== h h refl) refl in
    let there : (k : ℕ) → k ≢ h → s1.timers k ≡ s.timers k =
      λ k ne. rw (ne→== h k (λ e. ne (sym e))) (taken_out-timers s h xs wf k ne) in
    let (s2, run, wf2, same) =
      timer_list_add-Wf fuel s1 h (erase h xs) wf1 (ground (arith, gone))
        (subst NormalTimer (sym here) (started-NormalTimer now delay args normal flags (some f)))
        (omega (arith, length-erase h xs)) in
    (
      s2,
      rw (good_start now delay args normal f flags d good, run) refl,
      subst (λ ys. Wf s2 ys)
          (insert_by_same (λ p. time_before (abstime_of s1 h) (abstime_of s1 p))
            (λ p. time_before (add_time now (of_ms delay)) (abstime_of s p)) h (erase h xs)
            (λ k i.
              let ne = has-apart k h (erase h xs) i gone in
              ap (λ a. time_before a (abstime_of s1 k)) (ap (λ q. q.abstime) here)
              ∙ ap (λ q. time_before (add_time now (of_ms delay)) q.abstime) (there k ne)))
          wf2,
      ap (λ g. g h) same ∙ here,
      λ k ne. ap (λ g. g k) same ∙ there k ne,
    )

-- The time that `u_timer_stop` keeps of a time that is not over is what is left of it.
pub nanos-time_left :
    (a now : Timespec)
    → IsNormal a
    → IsNormal now
    → a.tv_sec < 2 ^ 32
    → nanos now ≤ nanos a
    → (nanos (time_left a now) + nanos now ≡ nanos a) × IsNormal (time_left a now)
unfolding time_left
nanos-time_left a now p q w h = ground arith

module _ (now : Timespec) (h : ℕ) (s : TimerList) where
  stop-code : (u_timer_stop now h s).0 ≡ Osr.ok
  unfolding u_timer_stop
  stop-code = elim (Bool-cases (s.links.previous h == 0)) [ inl p ↦ rw p refl | inr p ↦ rw p refl ]

  stop-timers : (k : ℕ) → k ≢ h → (u_timer_stop now h s).1.timers k ≡ s.timers k
  unfolding u_timer_stop
  stop-timers k ne = elim (Bool-cases (s.links.previous h == 0)) [
    | inl p ↦ rw p refl
    | inr p ↦ rw (p, ne→== h k (λ e. ne (sym e))) (timer_list_remove-timers s h k ne)
  ]

  stop-Wf : (xs : List ℕ) → Wf s xs → Wf (u_timer_stop now h s).1 (erase h xs)
  unfolding u_timer_stop
  stop-Wf xs wf = elim (ℕ_discrete (s.links.previous h) 0) [
    | yes p ↦
        rw (eq→== (s.links.previous h) 0 p)
          (subst (λ ys. Wf s ys) (sym (erase_absent h xs (off_list s h xs wf p))) wf)
    | no p ↦
        let gone = has-erase_self h xs (Ring-Distinct s.links s.s_timer_list xs wf.ring) in
        rw (ne→== (s.links.previous h) 0 p) (
          set_timer-Wf (timer_list_remove h s) h (erase h xs)
            (timer_list_remove-Wf s h xs wf (on_list s h xs wf p))
            (record ((timer_list_remove h s).timers h) {
              abstime = time_left ((timer_list_remove h s).timers h).abstime now;
            })
            gone)
  ]

-- `u_timer_stop` and `u_timer_delete` of any timer return OSR_OK and leave the list without it, in
-- order, and the other timers as they are.
pub u_timer_stop-Wf :
    (now : Timespec) (h : ℕ) (s : TimerList) (xs : List ℕ)
    → Wf s xs
    → ((u_timer_stop now h s).0 ≡ Osr.ok)
      × Wf (u_timer_stop now h s).1 (erase h xs)
      × ((k : ℕ) → k ≢ h → (u_timer_stop now h s).1.timers k ≡ s.timers k)
      × ((u_timer_delete h s).0 ≡ Osr.ok)
      × Wf (u_timer_delete h s).1 (erase h xs)
      × ((k : ℕ) → k ≢ h → (u_timer_delete h s).1.timers k ≡ s.timers k)
unfolding u_timer_stop u_timer_delete
u_timer_stop-Wf now h s xs wf = (
  stop-code now h s,
  stop-Wf now h s xs wf,
  stop-timers now h s,
  refl,
  taken_out-Wf s h xs wf,
  taken_out-timers s h xs wf,
)
