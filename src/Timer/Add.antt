-- ===== src/Timer/Add.antt =====
-- timerd/_timer.c: `timer_list_add` on the list of timers in order.
use multithreading.Prelude.{
  ℕ, zero, suc, ◌<◌, ◌≤◌, true, false, some, List, [], ◌∷◌, ◌≡◌, ◌≢◌, refl, sym, ap, ◌∙◌, subst,
  ◌==◌, ◌||◌, arith, inl, inr, Bool-cases, has, length, has-apart,
}
use multithreading.Os.{IsNormal}
use multithreading.Ring.{store, insert_before}
use multithreading.Ring.Walk.{Walk, Ring}
use multithreading.Ring.Insert.{
  insert_by, place, place-has, has-insert_by, Ring-insert_by, Ring-first, previous_other,
}
use multithreading.Timer.{
  OsTimerLight, TimerList, time_before, abstime_of, find_place, timer_list_add,
}
use multithreading.Timer.Order.{Sorted, insert_by-Sorted}

-- The fields of a timer that can be in the list.
abbrev pub NormalTimer : OsTimerLight → Type 0
NormalTimer r = IsNormal r.abstime × IsNormal r.interval

-- The list holds the timers `xs`, in the order in which they run out, and a timer is in it when its
-- field `previous` is not NULL.
pub record Wf (s : TimerList) (xs : List ℕ) : Type 0 where
  pub ring : Ring s.links s.s_timer_list xs
  pub order : Sorted (abstime_of s) xs
  pub off : (t : ℕ) → has t xs ≡ false → s.links.previous t ≡ 0
  pub normal : (t : ℕ) → has t xs ≡ true → NormalTimer (s.timers t)

-- The list with a new timer.
abbrev pub scheduled : TimerList → ℕ → List ℕ → List ℕ
scheduled s t xs = insert_by (λ p. time_before (abstime_of s t) (abstime_of s p)) t xs

module _ (s : TimerList) (t : ℕ) where
  -- The search stops at the place of the new timer, or comes round to the first one.
  find_place_run :
      (fuel : ℕ) (a : ℕ) (xs : List ℕ)
      → has s.s_timer_list xs ≡ false
      → Walk s.links a xs s.s_timer_list
      → length xs < fuel
      → find_place fuel t s (s.links.next a)
        ≡ some (place (λ p. time_before (abstime_of s t) (abstime_of s p)) xs s.s_timer_list)
  unfolding find_place
  find_place_run zero a xs n w b = absurd (omega arith)
  find_place_run (suc fuel) a [] n (e, f) b =
      let same : (s.links.next a == s.s_timer_list) ≡ true = ground arith in rw same (ap some e)
  find_place_run (suc fuel) a (y ∷ ys) n (e, f, w) b =
      let rest = find_place_run fuel y ys (ground arith) w (omega arith) in
      let other : (y == s.s_timer_list) ≡ false = ground arith in
      rw (e, other)
        (elim (Bool-cases (time_before (abstime_of s t) (abstime_of s y))) [
          | inl p ↦ rw p refl
          | inr p ↦ rw p rest
        ])

  -- `t` in front of the timer `p` of the list.
  abbrev before : (h p : ℕ) → TimerList
  before h p = record s { s_timer_list = h; links = insert_before t p s.links }

  before-Wf :
      (h p : ℕ) (xs : List ℕ)
      → Wf s xs
      → has t (0 ∷ xs) ≡ false
      → NormalTimer (s.timers t)
      → has p xs ≡ true
      → Ring (insert_before t p s.links) h (scheduled s t xs)
      → Wf (before h p) (scheduled s t xs)
  before-Wf h p xs wf n normal inside ring =
      let test = λ (k : ℕ). time_before (abstime_of s t) (abstime_of s k) in
      let np : t ≢ p = λ b. has-apart p t xs inside (ground arith) (sym b) in
      record {
        ring = ring;
        order = insert_by-Sorted (abstime_of s) t xs wf.order;
        off = λ k b.
            let gone : ((t == k) || has k xs) ≡ false = sym (has-insert_by test k t xs) ∙ b in
            previous_other s.links t p np k (ground arith)
              (λ i. has-apart p k xs inside (ground arith) (sym i))
            ∙ wf.off k (ground arith);
        normal = λ k b.
            let there : ((t == k) || has k xs) ≡ true = sym (has-insert_by test k t xs) ∙ b in
            elim (Bool-cases (t == k)) [
              | inl i ↦
                  let same : t ≡ k = ground arith in
                  subst (λ j. NormalTimer (s.timers j)) same normal
              | inr i ↦ wf.normal k (ground arith)
            ];
      }

-- What `timer_list_add` does to a list.
abbrev pub Added : (fuel : ℕ) → TimerList → ℕ → List ℕ → Type 0
Added fuel s t xs =
    (s' : TimerList) × (timer_list_add fuel t s ≡ some s')
    × Wf s' (scheduled s t xs)
    × (s'.timers ≡ s.timers)

module _ (fuel : ℕ) (s : TimerList) (t : ℕ) (normal : NormalTimer (s.timers t)) where
  add_empty : Wf s [] → t ≢ 0 → Added fuel s t []
  unfolding timer_list_add
  add_empty wf n = (
    record s {
      s_timer_list = t;
      links = record { next = store s.links.next t t; previous = store s.links.previous t t };
    },
    simp wf.ring refl,
    record {
      ring = (refl, (ground arith, ground arith), (refl, tt), ground arith);
      order = (tt, tt);
      off = λ k b. ground (arith, wf.off k refl);
      normal = λ k b.
          let same : t ≡ k = ground arith in subst (λ j. NormalTimer (s.timers j)) same normal;
    },
    refl,
  )

  module _ (x : ℕ) (xs : List ℕ) (wf : Wf s (x ∷ xs)) (n : has t (0 ∷ x ∷ xs) ≡ false)
      (e : s.s_timer_list ≡ x) where
    some_first : (s.s_timer_list == 0) ≡ false
    some_first = let r = wf.ring.3 in ground arith

    add_first : time_before (abstime_of s t) (abstime_of s x) ≡ true → Added fuel s t (x ∷ xs)
    unfolding timer_list_add
    add_first h =
        let test : time_before (abstime_of s t) (abstime_of s s.s_timer_list) ≡ true =
          ap (λ k. time_before (abstime_of s t) (abstime_of s k)) e ∙ h in
        let ys : scheduled s t (x ∷ xs) ≡ t ∷ x ∷ xs = rw h refl in
        (
          before s t t x,
          rw (some_first, test) (ap (λ p. some (before s t t p)) e),
          before-Wf s t t x (x ∷ xs) wf (ground arith) normal (ground arith) (
              subst (λ zs. Ring (insert_before t x s.links) t zs) (sym ys)
                (Ring-first s.links t x xs n (refl, wf.ring.1, wf.ring.2, wf.ring.3))),
          refl,
        )

    add_behind :
        time_before (abstime_of s t) (abstime_of s x) ≡ false
        → length xs < fuel
        → Added fuel s t (x ∷ xs)
    unfolding timer_list_add
    add_behind h b =
        let test : time_before (abstime_of s t) (abstime_of s s.s_timer_list) ≡ false =
          ap (λ k. time_before (abstime_of s t) (abstime_of s k)) e ∙ h in
        let q = place (λ p. time_before (abstime_of s t) (abstime_of s p)) xs x in
        let ys : scheduled s t (x ∷ xs) ≡ x ∷ scheduled s t xs = rw h refl in
        let run : find_place fuel t s (s.links.next s.s_timer_list) ≡ some q =
          find_place_run s t fuel s.s_timer_list xs
            (subst (λ k. has k xs ≡ false) (sym e) wf.ring.2.0)
            (subst (λ k. Walk s.links k xs k) (sym e) wf.ring.1) b
          ∙ ap (λ k. some (place (λ p. time_before (abstime_of s t) (abstime_of s p)) xs k)) e in
        (
          before s t s.s_timer_list q,
          rw (some_first, test, run) refl,
          before-Wf s t s.s_timer_list q (x ∷ xs) wf (ground arith) normal
              (place-has s.links (λ p. time_before (abstime_of s t) (abstime_of s p)) x xs)
              (subst (λ zs. Ring (insert_before t q s.links) s.s_timer_list zs) (sym ys)
                (subst (λ k. Ring (insert_before t q s.links) k (x ∷ scheduled s t xs)) (sym e)
                  (Ring-insert_by s.links (λ p. time_before (abstime_of s t) (abstime_of s p)) t x
                    xs n (refl, wf.ring.1, wf.ring.2, wf.ring.3)))),
          refl,
        )

-- `timer_list_add` of a timer that is not in the list, with fuel for the list, gives the list with
-- the timer in front of the first one that runs out later, and behind those that do not.
pub timer_list_add-Wf :
    (fuel : ℕ) (s : TimerList) (t : ℕ) (xs : List ℕ)
    → Wf s xs
    → has t (0 ∷ xs) ≡ false
    → NormalTimer (s.timers t)
    → length xs ≤ fuel
    → Added fuel s t xs
timer_list_add-Wf fuel s t [] wf n normal b = add_empty fuel s t normal wf (ground arith)
timer_list_add-Wf fuel s t (x ∷ xs) wf n normal b =
    elim (Bool-cases (time_before (abstime_of s t) (abstime_of s x))) [
      | inl p ↦ add_first fuel s t normal x xs wf n wf.ring.0 p
      | inr p ↦ add_behind fuel s t normal x xs wf n wf.ring.0 p (omega arith)
    ]
