-- ===== src/Timer/Remove.antt =====
-- timerd/_timer.c: `timer_list_remove` on the list of timers in order.
use multithreading.Prelude.{
  ℕ, true, false, none, List, [], ◌∷◌, ◌≡◌, ◌≢◌, refl, sym, ap, ◌∙◌, subst, ◌==◌, if◌then◌else◌,
  arith, inl, inr, Bool-cases, erase, has, has-apart, has-erase_self, has-erase_other, erase-has,
  ℕ_discrete, eq→==, ne→==,
}
use multithreading.Os.{IsNormal}
use multithreading.Ring.{Links, unlink}
use multithreading.Ring.Walk.{Ring, Walk-frame}
use multithreading.Ring.Remove.{alone, Ring-cut, Ring-Distinct, next_inside}
use multithreading.Timer.{
  OsTimerLight, TimerList, abstime_of, free_args, clear_links, list_cut, timer_list_remove,
  set_timer, is_zero,
}
use multithreading.Timer.Order.{Sorted, erase-Sorted, Sorted-frame}
use multithreading.Timer.Add.{NormalTimer, Wf}

-- The fields of a timer that is not in the list can change.
pub Ring-clear_links :
    (l : Links) (h t : ℕ) (xs : List ℕ)
    → Ring l h xs
    → has t xs ≡ false
    → Ring (clear_links t l) h xs
Ring-clear_links l h t [] r n = r
Ring-clear_links l h t (x ∷ xs) (e, w, d, o) n = (
  e,
  Walk-frame l (clear_links t l) x x xs w
      (λ k b. let a = has-apart k t (x ∷ xs) b n in ground arith)
      (λ k b. let a = has-apart k t (x ∷ xs) b n in ground arith),
  d,
  o,
)

module _ (s : TimerList) (t : ℕ) where
  list_cut-Ring :
      (xs : List ℕ)
      → Ring s.links s.s_timer_list xs
      → has t xs ≡ true
      → Ring (list_cut t s).links (list_cut t s).s_timer_list (erase t xs)
  unfolding list_cut
  list_cut-Ring xs r h =
      let gone = has-erase_self t xs (Ring-Distinct s.links s.s_timer_list xs r) in
      elim (Bool-cases (s.links.previous t == t)) [
        | inl p ↦
            let ys = alone s.links s.s_timer_list t xs r h (ground arith) in
            rw p (subst (λ zs. Ring (clear_links t s.links) 0 zs) (sym ys) refl)
        | inr p ↦
            let ne : s.links.previous t ≢ t = ground arith in
            let cut = Ring-cut s.links s.s_timer_list t xs r h ne in
            rw p (
              Ring-clear_links (unlink t s.links)
                (if s.s_timer_list == t then (unlink t s.links).next t else s.s_timer_list) t
                (erase t xs) cut gone)
      ]

  list_cut-previous :
      (k : ℕ) → k ≢ t → k ≢ s.links.next t → (list_cut t s).links.previous k ≡ s.links.previous k
  unfolding list_cut unlink
  list_cut-previous k a b = ground arith

  list_cut-previous_self : (list_cut t s).links.previous t ≡ 0
  unfolding list_cut unlink
  list_cut-previous_self = ground arith

  list_cut-timers : (list_cut t s).timers ≡ s.timers
  unfolding list_cut
  list_cut-timers = elim (Bool-cases (s.links.previous t == t)) [
    | inl p ↦ rw p refl
    | inr p ↦ rw p refl
  ]

-- The callbacks and the arguments have no part in it.
pub Wf-timers :
    (s : TimerList) (timers : ℕ → OsTimerLight) (xs : List ℕ)
    → ((k : ℕ) → has k xs ≡ true → (timers k).abstime ≡ (s.timers k).abstime)
    → ((k : ℕ) → has k xs ≡ true → (timers k).interval ≡ (s.timers k).interval)
    → Wf s xs
    → Wf (record s { timers = timers }) xs
Wf-timers s timers xs a b wf = record {
  ring = wf.ring;
  order = Sorted-frame (abstime_of s) (λ k. (timers k).abstime) xs a wf.order;
  off = wf.off;
  normal = λ k i. (
    subst IsNormal (sym (a k i)) (wf.normal k i).0,
    subst IsNormal (sym (b k i)) (wf.normal k i).1,
  );
}

module _ (s : TimerList) (t : ℕ) (xs : List ℕ) (wf : Wf s xs) where
  -- A timer that is not in the list.
  pub set_timer-Wf : (r : OsTimerLight) → has t xs ≡ false → Wf (set_timer t r s) xs
  set_timer-Wf r n =
      Wf-timers s (set_timer t r s).timers xs
        (λ k i. rw (ne→== t k (λ e. has-apart k t xs i n (sym e))) refl)
        (λ k i. rw (ne→== t k (λ e. has-apart k t xs i n (sym e))) refl) wf

  same_field :
      {A : Type 0} (k : ℕ) (f : OsTimerLight → A)
      → f (record (s.timers t) { pt_args = none }) ≡ f (s.timers t)
      → f (if t == k then record (s.timers t) { pt_args = none } else s.timers k) ≡ f (s.timers k)
  same_field k f e = elim (ℕ_discrete t k) [
    | yes p ↦ rw (eq→== t k p) (e ∙ ap (λ j. f (s.timers j)) p)
    | no p ↦ rw (ne→== t k p) refl
  ]

  free_args-Wf : Wf (free_args t s) xs
  free_args-Wf = elim (Bool-cases (is_zero (s.timers t).interval)) [
    | inl p ↦ rw p (
        Wf-timers s (set_timer t (record (s.timers t) { pt_args = none }) s).timers xs
          (λ k i. same_field k (λ r. r.abstime) refl) (λ k i. same_field k (λ r. r.interval) refl)
          wf)
    | inr p ↦ rw p wf
  ]

  list_cut-Wf : has t xs ≡ true → Wf (list_cut t s) (erase t xs)
  list_cut-Wf h = record {
    ring = list_cut-Ring s t xs wf.ring h;
    order =
        subst (λ f. Sorted (λ k. (f k).abstime) (erase t xs)) (sym (list_cut-timers s t))
          (erase-Sorted (abstime_of s) t xs wf.order);
    off = λ k b. elim (ℕ_discrete k t) [
      | yes p ↦
          subst (λ j. (list_cut t s).links.previous j ≡ 0) (sym p) (list_cut-previous_self s t)
      | no p ↦
          let out : has k xs ≡ false = sym (has-erase_other k t xs p) ∙ b in
          let inside = next_inside s.links s.s_timer_list t xs wf.ring h in
          list_cut-previous s t k p (λ e. has-apart (s.links.next t) k xs inside out (sym e))
          ∙ wf.off k out
    ];
    normal = λ k b.
        subst (λ f. NormalTimer (f k)) (sym (list_cut-timers s t))
          (wf.normal k (erase-has k t xs b));
  }

-- `timer_list_remove` of a timer of the list leaves the list without it, in order.
pub timer_list_remove-Wf :
    (s : TimerList) (t : ℕ) (xs : List ℕ)
    → Wf s xs
    → has t xs ≡ true
    → Wf (timer_list_remove t s) (erase t xs)
unfolding timer_list_remove
timer_list_remove-Wf s t xs wf h = list_cut-Wf (free_args t s) t xs (free_args-Wf s t xs wf) h

module _ (s : TimerList) (t : ℕ) where
  free_args-timers : (k : ℕ) → k ≢ t → (free_args t s).timers k ≡ s.timers k
  free_args-timers k ne = elim (Bool-cases (is_zero (s.timers t).interval)) [
    | inl p ↦ rw (p, ne→== t k (λ e. ne (sym e))) refl
    | inr p ↦ rw p refl
  ]

  pub timer_list_remove-timers : (k : ℕ) → k ≢ t → (timer_list_remove t s).timers k ≡ s.timers k
  unfolding timer_list_remove
  timer_list_remove-timers k ne =
      ap (λ f. f k) (list_cut-timers (free_args t s) t) ∙ free_args-timers k ne

  -- The other fields of the timer itself stay too.
  pub timer_list_remove-field :
      {A : Type 0} (f : OsTimerLight → A)
      → f (record (s.timers t) { pt_args = none }) ≡ f (s.timers t)
      → f ((timer_list_remove t s).timers t) ≡ f (s.timers t)
  unfolding timer_list_remove
  timer_list_remove-field f e =
      ap (λ g. f (g t)) (list_cut-timers (free_args t s) t)
      ∙ elim (Bool-cases (is_zero (s.timers t).interval)) [
        | inl p ↦ rw (p, eq→== t t refl) e
        | inr p ↦ rw p refl
      ]

  -- A timer that repeats keeps its arguments.
  pub timer_list_remove-repeat :
      is_zero (s.timers t).interval ≡ false → (timer_list_remove t s).timers t ≡ s.timers t
  unfolding timer_list_remove
  timer_list_remove-repeat e = ap (λ g. g t) (list_cut-timers (free_args t s) t) ∙ rw e refl
