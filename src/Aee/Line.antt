-- ===== src/Aee/Line.antt =====
-- A singly linked list that ends with NULL; the link of the address 0 is the variable at its start.
use multithreading.Prelude.{
  ℕ, zero, suc, ◌<◌, Bool, true, false, some, List, [], ◌∷◌, ◌==◌, ◌≡◌, ◌≢◌, refl, sym, ap, ◌∙◌,
  subst, length, has, erase, Distinct, arith, inl, inr, Bool-cases, eq→==, ne→==, has-apart,
}
use multithreading.Ring.{store}
use multithreading.Ring.Insert.{place}
use multithreading.Aee.{remove_loop, walk}

-- From `p` the links lead through `xs` to NULL.
abbrev pub Line : (ℕ → ℕ) → ℕ → List ℕ → Type 0
Line next p [] = p ≡ 0
Line next p (x ∷ xs) = (p ≡ x) × (x ≢ 0) × Line next (next x) xs

pub Line-frame :
    (next next' : ℕ → ℕ) (p : ℕ) (xs : List ℕ)
    → ((k : ℕ) → has k xs ≡ true → next' k ≡ next k)
    → Line next p xs
    → Line next' p xs
Line-frame next next' p [] h l = l
Line-frame next next' p (x ∷ xs) h (e, n, l) = (
  e,
  n,
  subst (λ k. Line next' k xs) (sym (h x (ground arith)))
      (Line-frame next next' (next x) xs (λ k i. h k (ground arith)) l),
)

-- The walk finds the first that passes the test, or NULL.
pub walk-place :
    (test : ℕ → Bool) (next : ℕ → ℕ) (fuel p : ℕ) (xs : List ℕ)
    → Line next p xs
    → length xs < fuel
    → walk fuel test next p ≡ some (place test xs 0)
unfolding walk
walk-place test next zero p xs l b = absurd (omega arith)
walk-place test next (suc fuel) p [] l b = rw (eq→== p 0 l) refl
walk-place test next (suc fuel) p (x ∷ xs) (e, n, l) b =
    let some_object : (x == 0) ≡ false = ne→== x 0 n in
    let rest = walk-place test next fuel (next x) xs l (omega arith) in
    ap (λ k. walk (suc fuel) test next k) e ∙ elim (Bool-cases (test x)) [
      | inl h ↦ rw (walk, some_object, h) refl
      | inr h ↦ rw (walk, some_object, h) rest
    ]

-- The links behind `slot` after the removal of `t`.
pub remove_loop-Line :
    (fuel slot t : ℕ) (next : ℕ → ℕ) (xs : List ℕ)
    → Line next (next slot) xs
    → Distinct (slot ∷ xs)
    → length xs < fuel
    → (next' : ℕ → ℕ) × (remove_loop fuel slot t next ≡ some next')
      × Line next' (next' slot) (erase t xs)
      × ((k : ℕ) → has k (slot ∷ xs) ≡ false → next' k ≡ next k)
unfolding remove_loop
remove_loop-Line zero slot t next xs l d b = absurd (omega arith)
remove_loop-Line (suc fuel) slot t next [] l d b =
    (next, rw (eq→== (next slot) 0 l) refl, l, λ k i. refl)
remove_loop-Line (suc fuel) slot t next (x ∷ xs) (e, n, l) (m, (c, d)) b =
    let some_object : (next slot == 0) ≡ false = ne→== (next slot) 0 (λ z. n (sym e ∙ z)) in
    elim (Bool-cases (x == t)) [
      | inl p ↦
          let here : (next slot == t) ≡ true = ground arith in
          let same : x ≡ t = ground arith in
          (
            store next slot (next t),
            rw (some_object, here) refl,
            rw (p, eq→== slot slot refl)
                (Line-frame next (store next slot (next t)) (next t) xs
                  (λ k i.
                    rw (ne→== slot k (λ z. has-apart k slot xs i (ground arith) (sym z))) refl)
                  (subst (λ k. Line next (next k) xs) same l)),
            λ k i. let other : (slot == k) ≡ false = ground arith in rw other refl,
          )
      | inr p ↦
          let on : (next slot == t) ≡ false = ground arith in
          let (next', run, rest, frame) =
            remove_loop-Line fuel x t next xs l (c, d) (omega arith) in
          let start = frame slot (ground arith) in
          (
            next',
            rw (some_object, on) (ap (λ k. remove_loop fuel k t next) e ∙ run),
            rw p (start ∙ e, n, rest),
            λ k i. frame k (ground arith),
          )
    ]
