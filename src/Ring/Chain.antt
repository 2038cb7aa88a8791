-- ===== src/Ring/Chain.antt =====
-- mw/os_pthread/os_pthread_thread.c: a circular list with the variable that points at its first object.
-- The list of the threads and the list of the private data of one thread are both of this form.
use multithreading.Prelude.{
  ℕ, zero, suc, ◌<◌, ◌≤◌, Bool, true, false, Option, none, some, List, [], ◌∷◌, ◌++◌, ◌==◌, not,
  ◌≡◌, refl, sym, ap, ◌∙◌, subst, if◌then◌else◌, length, has, erase, arith, inl, inr, Bool-cases,
  eq→==,
}
use multithreading.Ring.{Links, store, insert_before, unlink}
use multithreading.Ring.Walk.{Walk, Ring}
use multithreading.Ring.Insert.{place, Ring-last}
use multithreading.Ring.Remove.{Ring-cut, alone}

pub record Chain : Type 0 where
  pub links : Links
  pub first : ℕ

unfoldable pub add_last : ℕ → Chain → Chain
add_last t c =
    if not (c.first == 0) then record c { links = insert_before t c.first c.links } else record {
      links = record { next = store c.links.next t t; previous = store c.links.previous t t };
      first = t;
    }

unfoldable pub take_out : ℕ → Chain → Chain
take_out t c =
    if c.links.previous t == t
    then record c { first = 0 }
    else let l = unlink t c.links in
      record { links = l; first = if c.first == t then l.next t else c.first }

-- The loop of a search at the object `p`; the result 0 is NULL, `none` is the end of the fuel.
unfoldable pub find_from : (fuel : ℕ) (test : ℕ → Bool) → Chain → (p : ℕ) → Option ℕ
find_from zero test c p = none
find_from (suc fuel) test c p =
    let rest = find_from fuel test c (c.links.next p) in
    if test p then some p else if c.links.next p == c.first then some 0 else rest

unfoldable pub find_first : (fuel : ℕ) (test : ℕ → Bool) → Chain → Option ℕ
find_first fuel test c = if c.first == 0 then some 0 else find_from fuel test c c.first

-- The chain goes through the objects `xs`.
abbrev pub Through : Chain → List ℕ → Type 0
Through c xs = Ring c.links c.first xs

pub add_last-Through :
    (c : Chain) (t : ℕ) (xs : List ℕ)
    → Through c xs
    → has t (0 ∷ xs) ≡ false
    → Through (add_last t c) (xs ++ t ∷ [])
unfolding add_last
add_last-Through c t [] r n =
    rw (eq→== c.first 0 r) (refl, (ground arith, ground arith), (refl, tt), ground arith)
add_last-Through c t (x ∷ xs) (e, w, d, o) n =
    let some_object : (c.first == 0) ≡ false = ground arith in
    rw some_object (
      subst (λ k. Ring (insert_before t k c.links) k (x ∷ xs ++ t ∷ [])) (sym e)
        (Ring-last c.links t x xs n (refl, w, d, o)))

pub take_out-Through :
    (c : Chain) (t : ℕ) (xs : List ℕ)
    → Through c xs
    → has t xs ≡ true
    → Through (take_out t c) (erase t xs)
unfolding take_out
take_out-Through c t xs r h = elim (Bool-cases (c.links.previous t == t)) [
  | inl p ↦
      let ys = alone c.links c.first t xs r h (ground arith) in
      rw p (subst (λ zs. Ring c.links 0 zs) (sym ys) refl)
  | inr p ↦ rw p (Ring-cut c.links c.first t xs r h (ground arith))
]

module _ (test : ℕ → Bool) (c : Chain) where
  find_from-place :
      (fuel x : ℕ) (xs : List ℕ)
      → Walk c.links x xs c.first
      → has c.first xs ≡ false
      → length xs < fuel
      → find_from fuel test c x ≡ some (place test (x ∷ xs) 0)
  unfolding find_from
  find_from-place zero x xs w n b = absurd (omega arith)
  find_from-place (suc fuel) x [] (e, f) n b =
      let last : (c.links.next x == c.first) ≡ true = ground arith in
      elim (Bool-cases (test x)) [ inl p ↦ rw p refl | inr p ↦ rw (p, last) refl ]
  find_from-place (suc fuel) x (y ∷ ys) (e, f, w) n b =
      let rest = find_from-place fuel y ys w (ground arith) (omega arith) in
      let on : (y == c.first) ≡ false = ground arith in
      elim (Bool-cases (test x)) [ inl p ↦ rw p refl | inr p ↦ rw (p, e, on, rest) refl ]

  -- The search finds the first object that passes the test, or NULL, with fuel for the list.
  pub find_first-place :
      (fuel : ℕ) (xs : List ℕ)
      → Through c xs
      → length xs ≤ fuel
      → find_first fuel test c ≡ some (place test xs 0)
  unfolding find_first
  find_first-place fuel [] r b = rw (eq→== c.first 0 r) refl
  find_first-place fuel (x ∷ xs) (e, w, d, o) b =
      let some_object : (c.first == 0) ≡ false = ground arith in
      rw some_object (
        ap (λ k. find_from fuel test c k) e
        ∙ find_from-place fuel x xs (subst (λ k. Walk c.links x xs k) (sym e) w)
            (subst (λ k. has k xs ≡ false) (sym e) d.0) (omega arith))
