-- ===== src/Timer/Loop.antt =====
-- timerd/_timer.c: the inner loop of `TimerProc`.
use multithreading.Prelude.{
  ℕ, zero, suc, ◌+◌, ◌-◌, ◌<◌, ◌≤◌, Bool, true, false, Option, none, some, List, [], ◌∷◌, ◌++◌, ◌≡◌,
  ◌≢◌, refl, sym, ap, ◌∙◌, subst, arith, inl, inr, Bool-cases, has, length, has-apart, ℕ_discrete,
}
use multithreading.Os.{Timespec, IsNormal, nanos, nanos-add_time}
use multithreading.Ring.Insert.{insert_by, has-insert_by}
use multithreading.Timer.{
  TimerCbfctArgs, Callback, AppMsg, OsTimerLight, TimerList, time_before, abstime_of, is_zero,
  args_for_call, timer_call, run_callback, call_back, args_copied, copy_args,
}
use multithreading.Timer.Api.{fire, due, expire_due}
use multithreading.Timer.Order.{time_before-nanos}
use multithreading.Timer.Add.{NormalTimer, Wf}
use multithreading.Timer.Expire.{next_time, After, over, again, timer_expire-Wf}

-- `u_timer_start` gives every timer arguments.
abbrev pub Armed : TimerList → List ℕ → Type 0
Armed s xs = (k : ℕ) → has k xs ≡ true → (a : TimerCbfctArgs) × ((s.timers k).pt_args ≡ some a)

-- How long the timers of a list are over, in all.
abbrev pub overdue : (now : Timespec) → TimerList → List ℕ → ℕ
overdue now s [] = 0
overdue now s (x ∷ xs) = (nanos now - nanos (abstime_of s x)) + overdue now s xs

overdue-insert_by :
    (now : Timespec) (s : TimerList) (test : ℕ → Bool) (t : ℕ) (xs : List ℕ)
    → overdue now s (insert_by test t xs) ≡ (nanos now - nanos (abstime_of s t)) + overdue now s xs
overdue-insert_by now s test t [] = refl
overdue-insert_by now s test t (x ∷ xs) = elim (Bool-cases (test x)) [
  | inl p ↦ rw p refl
  | inr p ↦ rw p (omega (arith, overdue-insert_by now s test t xs))
]

overdue_frame :
    (now : Timespec) (s s' : TimerList) (xs : List ℕ)
    → ((k : ℕ) → has k xs ≡ true → s'.timers k ≡ s.timers k)
    → overdue now s' xs ≡ overdue now s xs
overdue_frame now s s' [] h = refl
overdue_frame now s s' (x ∷ xs) h =
    let tail = overdue_frame now s s' xs (λ k i. h k (ground arith)) in
    rw tail (ap (λ r. (nanos now - nanos r.abstime) + overdue now s xs) (h x (ground arith)))

-- The callback of a timer with arguments finds what it needs.
back_returns :
    (f : Option Callback) (z : Bool) (a : TimerCbfctArgs) (args : Option TimerCbfctArgs)
    → (sent : List AppMsg) × (call_back f z args (args_copied f z (some a)) ≡ some sent)
back_returns none z a args = ([], refl)
back_returns (some f) true a args = (run_callback f (some (copy_args a)), refl)
back_returns (some f) false a args = (run_callback f args, refl)

call_returns :
    (r r' : OsTimerLight) (a : TimerCbfctArgs)
    → r'.interval ≡ r.interval
    → r'.pf_callback ≡ r.pf_callback
    → r.pt_args ≡ some a
    → (sent : List AppMsg) × (timer_call r' (args_for_call r) ≡ some sent)
call_returns r r' a i f e =
    let (sent, h) = back_returns r.pf_callback (is_zero r.interval) a r'.pt_args in
    (
      sent,
      ap (λ p. call_back p (is_zero r'.interval) r'.pt_args (args_for_call r)) f
          ∙ ap (λ q. call_back r.pf_callback (is_zero q) r'.pt_args (args_for_call r)) i
          ∙ ap
              (λ q.
                call_back r.pf_callback (is_zero r.interval) r'.pt_args
                  (args_copied r.pf_callback (is_zero r.interval) q))
              e
          ∙ h,
    )

-- What the timer in front costs the rest.
After-fields :
    (s s' : TimerList) (xs ys : List ℕ)
    → After s xs s' ys
    → ((s'.timers s.s_timer_list).interval ≡ (s.timers s.s_timer_list).interval)
      × ((s'.timers s.s_timer_list).pf_callback ≡ (s.timers s.s_timer_list).pf_callback)
After-fields s s' xs ys (over e i f) = (i, f)
After-fields s s' xs ys (again e h) = (ap (λ r. r.interval) h, ap (λ r. r.pf_callback) h)

pub After-Armed :
    (s s' : TimerList) (xs ys : List ℕ)
    → After s xs s' ys
    → ((k : ℕ) → k ≢ s.s_timer_list → s'.timers k ≡ s.timers k)
    → has s.s_timer_list xs ≡ false
    → Armed s (s.s_timer_list ∷ xs)
    → Armed s' ys
After-Armed s s' xs ys (over e i f) there n armed k h =
    subst (λ r. (a : TimerCbfctArgs) × (r.pt_args ≡ some a))
      (sym (there k (has-apart k s.s_timer_list xs h n))) (armed k (ground arith))
After-Armed s s' xs ys (again e r) there n armed k h = elim (ℕ_discrete k s.s_timer_list) [
  | yes p ↦
      let (a, b) = armed s.s_timer_list (ground arith) in
      (a, subst (λ j. (s'.timers j).pt_args ≡ some a) (sym p) (ap (λ q. q.pt_args) r ∙ b))
  | no p ↦
      let inside =
        sym (
          has-insert_by (λ p. time_before (next_time (s.timers s.s_timer_list)) (abstime_of s p)) k
            s.s_timer_list xs)
        ∙ h in
      subst (λ q. (a : TimerCbfctArgs) × (q.pt_args ≡ some a)) (sym (there k p))
        (armed k (ground arith))
]

After-overdue :
    (now : Timespec) (s s' : TimerList) (xs ys : List ℕ)
    → After s xs s' ys
    → ((k : ℕ) → k ≢ s.s_timer_list → s'.timers k ≡ s.timers k)
    → has s.s_timer_list xs ≡ false
    → nanos (abstime_of s s.s_timer_list) < nanos now
    → overdue now s' ys < overdue now s (s.s_timer_list ∷ xs)
After-overdue now s s' xs ys (over e i f) there n behind =
    let tail = overdue_frame now s s' xs (λ k h. there k (has-apart k s.s_timer_list xs h n)) in
    omega arith
After-overdue now s s' xs ys (again e r) there n behind =
    let t : ℕ = s.s_timer_list in
    let tail = overdue_frame now s s' xs (λ k h. there k (has-apart k t xs h n)) in
    let all =
      overdue-insert_by now s' (λ p. time_before (next_time (s.timers t)) (abstime_of s p)) t xs in
    let step : nanos (abstime_of s' t) ≡ nanos (abstime_of s t) + nanos (s.timers t).interval =
      ap (λ q. nanos q.abstime) r ∙ nanos-add_time (s.timers t).abstime (s.timers t).interval in
    let on : 0 < nanos (s.timers t).interval = ground (arith, e) in
    omega (arith, all, tail, step, on)

length-insert_by :
    (test : ℕ → Bool) (t : ℕ) (xs : List ℕ) → length (insert_by test t xs) ≡ suc (length xs)
length-insert_by test t [] = refl
length-insert_by test t (x ∷ xs) = elim (Bool-cases (test x)) [
  | inl p ↦ rw p refl
  | inr p ↦ rw p (ap suc (length-insert_by test t xs))
]

After-length : (s s' : TimerList) (xs ys : List ℕ) → After s xs s' ys → length ys ≤ suc (length xs)
After-length s s' xs ys (over e i f) = omega arith
After-length s s' xs ys (again e r) = omega (
  arith,
  length-insert_by (λ p. time_before (next_time (s.timers s.s_timer_list)) (abstime_of s p))
      s.s_timer_list xs,
)

due-late :
    (now : Timespec) (s : TimerList)
    → IsNormal (abstime_of s s.s_timer_list)
    → IsNormal now
    → due now s ≡ true
    → nanos (abstime_of s s.s_timer_list) < nanos now
due-late now s p q e =
    let b = time_before-nanos (abstime_of s s.s_timer_list) now p q in ground (arith, e)

-- What a round of the loop comes to.
abbrev Fired :
    (others behind : TimerList → TimerList) (room : ℕ) → Timespec → TimerList → List ℕ → Type 0
Fired others behind room now s xs =
    (s' : TimerList) × (ys : List ℕ) × (sent : List AppMsg) × (fire others behind room s
      ≡ some (s', sent))
    × Wf s' ys
    × Armed s' ys
    × (overdue now s' ys < overdue now s xs)
    × (length ys ≤ length xs)

fire_lem :
    (others behind : TimerList → TimerList) (room : ℕ) (now : Timespec) (s : TimerList) (x : ℕ)
    (xs : List ℕ)
    → Wf s (x ∷ xs)
    → Armed s (x ∷ xs)
    → IsNormal now
    → due now s ≡ true
    → length xs ≤ room
    → ((r : TimerList) → others r ≡ r)
    → ((r : TimerList) → behind r ≡ r)
    → Fired others behind room now s (x ∷ xs)
unfolding fire
fire_lem others behind room now s x xs wf armed normal e fits calm quiet =
    let t : ℕ = s.s_timer_list in
    let (s1, ys, run, wf1, after, there) = timer_expire-Wf room s x xs wf fits in
    let head = wf.ring.0 in
    let n : has t xs ≡ false = subst (λ k. has k xs ≡ false) (sym head) wf.ring.2.0 in
    let armed0 : Armed s (t ∷ xs) = subst (λ k. Armed s (k ∷ xs)) (sym head) armed in
    let (a, given) = armed0 t (ground arith) in
    let (i, f) = After-fields s s1 xs ys after in
    let (sent, call) = call_returns (s.timers t) (s1.timers t) a i f given in
    let old : NormalTimer (s.timers t) =
      subst (λ k. NormalTimer (s.timers k)) (sym head) (wf.normal x (ground arith)) in
    let less = After-overdue now s s1 xs ys after there n (due-late now s old.0 normal e) in
    (
      s1,
      ys,
      sent,
      rw (fire, run, calm s1, call)
          (ap (λ (r : TimerList). some (r, sent)) (quiet (others s1) ∙ calm s1)),
      wf1,
      After-Armed s s1 xs ys after there n armed0,
      subst (λ k. overdue now s1 ys < overdue now s (k ∷ xs)) head less,
      After-length s s1 xs ys after,
    )

-- What the loop leaves.
abbrev pub Settled :
    (others behind : ℕ → TimerList → TimerList) (fuel room : ℕ) → Timespec → TimerList → Type 0
Settled others behind fuel room now s =
    (s' : TimerList) × (ys : List ℕ) × (sent : List AppMsg) × (expire_due others behind fuel room
        now s
      ≡ some (s', sent))
    × Wf s' ys
    × Armed s' ys
    × (due now s' ≡ false)

not_due :
    (others behind : ℕ → TimerList → TimerList) (fuel room : ℕ) (now : Timespec) (s : TimerList)
    (xs : List ℕ)
    → Wf s xs
    → Armed s xs
    → due now s ≡ false
    → Settled others behind (suc fuel) room now s
unfolding expire_due
not_due others behind fuel room now s xs wf armed e = (s, xs, [], rw e refl, wf, armed, e)

-- The inner loop of `TimerProc` without interference, that is when no other thread changes the list or the
-- timers while the loop has released the mutex for a callback: with fuel for the time by which the timers of
-- the list are over and room for the list, it comes to its end when every timer has arguments, as
-- `u_timer_start` gives them; no callback goes through NULL, and at the end the list is in order and its
-- first timer is not due.
pub expire_due-Settled :
    (others behind : ℕ → TimerList → TimerList) (fuel room : ℕ) (now : Timespec) (s : TimerList)
    (xs : List ℕ)
    → Wf s xs
    → Armed s xs
    → IsNormal now
    → overdue now s xs < fuel
    → length xs ≤ room
    → ((k : ℕ) (r : TimerList) → others k r ≡ r)
    → ((k : ℕ) (r : TimerList) → behind k r ≡ r)
    → Settled others behind fuel room now s
unfolding expire_due
expire_due-Settled others behind zero room now s xs wf armed normal enough fits calm quiet =
    absurd (omega arith)
expire_due-Settled others behind (suc fuel) room now s [] wf armed normal enough fits calm quiet =
    not_due others behind fuel room now s [] wf armed (let r = wf.ring in ground arith)
expire_due-Settled others behind (suc fuel) room now s (x ∷ xs) wf armed normal enough fits calm
      quiet =
    elim (Bool-cases (due now s)) [
      | inr e ↦ not_due others behind fuel room now s (x ∷ xs) wf armed e
      | inl e ↦
          let (s1, ys, sent, run, wf1, armed1, less, short) =
            fire_lem (others fuel) (behind fuel) room now s x xs wf armed normal e (omega arith)
              (calm fuel) (quiet fuel) in
          let (s2, zs, later, rest, wf2, armed2, still) =
            expire_due-Settled others behind fuel room now s1 ys wf1 armed1 normal (omega arith)
              (omega arith) calm quiet in
          (s2, zs, sent ++ later, rw (e, run, rest) refl, wf2, armed2, still)
    ]
