-- ===== src/Timer/Order.antt =====
-- `time_before`, and lists of timers in its order.
use multithreading.Prelude.{
  ℕ, Bool, true, false, List, [], ◌∷◌, ◌≡◌, sym, ap, ◌∙◌, subst, ◌==◌, ltb, arith, inl, inr,
  Bool-cases, erase, has,
}
use multithreading.Os.{Timespec, nanos, IsNormal}
use multithreading.Timer.{time_before}
use multithreading.Ring.Insert.{insert_by}

pub time_before-nanos :
    (a b : Timespec) → IsNormal a → IsNormal b → time_before a b ≡ ltb (nanos a) (nanos b)
time_before-nanos a b p q = ground arith

-- None of the timers runs out before `a`.
abbrev pub Later : (ℕ → Timespec) → Timespec → List ℕ → Type 0
Later key a [] = Unit
Later key a (x ∷ xs) = (time_before (key x) a ≡ false) × Later key a xs

-- No timer comes behind one that runs out later.
abbrev pub Sorted : (ℕ → Timespec) → List ℕ → Type 0
Sorted key [] = Unit
Sorted key (x ∷ xs) = Later key (key x) xs × Sorted key xs

module _ (key : ℕ → Timespec) where
  Later-trans :
      (a b : Timespec) (xs : List ℕ) → time_before b a ≡ false → Later key b xs → Later key a xs
  Later-trans a b [] h s = tt
  Later-trans a b (x ∷ xs) h (e, s) = (ground arith, Later-trans a b xs h s)

  Later-insert_by :
      (test : ℕ → Bool) (a : Timespec) (t : ℕ) (xs : List ℕ)
      → time_before (key t) a ≡ false
      → Later key a xs
      → Later key a (insert_by test t xs)
  Later-insert_by test a t [] h s = (h, tt)
  Later-insert_by test a t (x ∷ xs) h (e, s) = elim (Bool-cases (test x)) [
    | inl p ↦ rw p (h, (e, s))
    | inr p ↦ rw p (e, Later-insert_by test a t xs h s)
  ]

  -- A timer goes in front of the first one that runs out later.
  pub insert_by-Sorted :
      (t : ℕ) (xs : List ℕ)
      → Sorted key xs
      → Sorted key (insert_by (λ p. time_before (key t) (key p)) t xs)
  insert_by-Sorted t [] s = (tt, tt)
  insert_by-Sorted t (x ∷ xs) (e, s) = elim (Bool-cases (time_before (key t) (key x))) [
    | inl p ↦
        let behind : time_before (key x) (key t) ≡ false = ground arith in
        rw p ((behind, Later-trans (key t) (key x) xs behind e), (e, s))
    | inr p ↦ rw p (
      Later-insert_by (λ k. time_before (key t) (key k)) (key x) t xs p e,
      insert_by-Sorted t xs s,
    )
  ]

  Later-erase : (a : Timespec) (t : ℕ) (xs : List ℕ) → Later key a xs → Later key a (erase t xs)
  Later-erase a t [] s = tt
  Later-erase a t (x ∷ xs) (e, s) = elim (Bool-cases (x == t)) [
    | inl p ↦ rw p s
    | inr p ↦ rw p (e, Later-erase a t xs s)
  ]

  pub erase-Sorted : (t : ℕ) (xs : List ℕ) → Sorted key xs → Sorted key (erase t xs)
  erase-Sorted t [] s = tt
  erase-Sorted t (x ∷ xs) (e, s) = elim (Bool-cases (x == t)) [
    | inl p ↦ rw p s
    | inr p ↦ rw p (Later-erase (key x) t xs e, erase-Sorted t xs s)
  ]

module _ (key key' : ℕ → Timespec) where
  Later-frame :
      (a : Timespec) (xs : List ℕ)
      → ((k : ℕ) → has k xs ≡ true → key' k ≡ key k)
      → Later key a xs
      → Later key' a xs
  Later-frame a [] h s = tt
  Later-frame a (x ∷ xs) h (e, s) = (
    ap (λ k. time_before k a) (h x (ground arith)) ∙ e,
    Later-frame a xs (λ k b. h k (ground arith)) s,
  )

  -- The order depends on the times of the members.
  pub Sorted-frame :
      (xs : List ℕ) → ((k : ℕ) → has k xs ≡ true → key' k ≡ key k) → Sorted key xs → Sorted key' xs
  Sorted-frame [] h s = tt
  Sorted-frame (x ∷ xs) h (e, s) = (
    subst (λ a. Later key' a xs) (sym (h x (ground arith)))
        (Later-frame (key x) xs (λ k b. h k (ground arith)) e),
    Sorted-frame xs (λ k b. h k (ground arith)) s,
  )
