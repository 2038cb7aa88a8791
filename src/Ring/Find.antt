-- ===== src/Ring/Find.antt =====
-- What a search of a circular list tells, and lists in which no two objects clash.
use multithreading.Prelude.{
  ℕ, Bool, true, false, List, [], ◌∷◌, ◌++◌, ◌==◌, ◌≡◌, ◌≢◌, refl, sym, ap, ◌∙◌, subst, has, erase,
  if◌then◌else◌, arith, inl, inr, Bool-cases,
}
use multithreading.Ring.Insert.{place}

-- No object passes the test.
abbrev pub NoneOf : (ℕ → Bool) → List ℕ → Type 0
NoneOf test [] = Unit
NoneOf test (x ∷ xs) = (test x ≡ false) × NoneOf test xs

-- No object clashes with a later one.
abbrev pub Apart {ℓ} : {K : Type ℓ} → (K → K → Bool) → (ℕ → K) → List ℕ → Type 0
Apart clash keys [] = Unit
Apart clash keys (x ∷ xs) = NoneOf (λ y. clash (keys x) (keys y)) xs × Apart clash keys xs

pub place_zero :
    (test : ℕ → Bool) (xs : List ℕ) → has 0 xs ≡ false → place test xs 0 ≡ 0 → NoneOf test xs
place_zero test [] o e = tt
place_zero test (x ∷ xs) o e = elim (Bool-cases (test x)) [
  | inl p ↦
      absurd
        (let q : x ≡ 0 = sym (ap (λ b. if b then x else place test xs 0) p) ∙ e in ground arith)
  | inr p ↦ (
    p,
    place_zero test xs (ground arith) (sym (ap (λ b. if b then x else place test xs 0) p) ∙ e),
  )
]

pub NoneOf-place : (test : ℕ → Bool) (xs : List ℕ) → NoneOf test xs → place test xs 0 ≡ 0
NoneOf-place test [] n = refl
NoneOf-place test (x ∷ xs) (e, n) = rw e (NoneOf-place test xs n)

-- What the search finds is in the list and passes the test.
pub place_found :
    (test : ℕ → Bool) (xs : List ℕ)
    → place test xs 0 ≢ 0
    → (has (place test xs 0) xs ≡ true) × (test (place test xs 0) ≡ true)
place_found test [] n = absurd (n refl)
place_found test (x ∷ xs) n = elim (Bool-cases (test x)) [
  | inl p ↦
      let here : place test (x ∷ xs) 0 ≡ x = rw p refl in
      subst (λ k. (has k (x ∷ xs) ≡ true) × (test k ≡ true)) (sym here) (ground arith, p)
  | inr p ↦
      let on : place test (x ∷ xs) 0 ≡ place test xs 0 = rw p refl in
      let (a, b) = place_found test xs (λ e. n (on ∙ e)) in
      subst (λ k. (has k (x ∷ xs) ≡ true) × (test k ≡ true)) (sym on) (ground (arith, a), b)
]

pub place_same :
    (test test' : ℕ → Bool) (xs : List ℕ)
    → ((k : ℕ) → has k xs ≡ true → test' k ≡ test k)
    → place test' xs 0 ≡ place test xs 0
place_same test test' [] h = refl
place_same test test' (x ∷ xs) h =
    rw (h x (ground arith), place_same test test' xs (λ k i. h k (ground arith))) refl

pub NoneOf-same :
    (test test' : ℕ → Bool) (xs : List ℕ)
    → ((k : ℕ) → has k xs ≡ true → test' k ≡ test k)
    → NoneOf test xs
    → NoneOf test' xs
NoneOf-same test test' [] h n = tt
NoneOf-same test test' (x ∷ xs) h (e, n) =
    (h x (ground arith) ∙ e, NoneOf-same test test' xs (λ k i. h k (ground arith)) n)

pub NoneOf-less :
    (test test' : ℕ → Bool) (xs : List ℕ)
    → ((k : ℕ) → test k ≡ false → test' k ≡ false)
    → NoneOf test xs
    → NoneOf test' xs
NoneOf-less test test' [] h n = tt
NoneOf-less test test' (x ∷ xs) h (e, n) = (h x e, NoneOf-less test test' xs h n)

NoneOf-end :
    (test : ℕ → Bool) (t : ℕ) (xs : List ℕ)
    → NoneOf test xs
    → test t ≡ false
    → NoneOf test (xs ++ t ∷ [])
NoneOf-end test t [] n e = (e, tt)
NoneOf-end test t (x ∷ xs) (m, n) e = (m, NoneOf-end test t xs n e)

NoneOf-erase : (test : ℕ → Bool) (t : ℕ) (xs : List ℕ) → NoneOf test xs → NoneOf test (erase t xs)
NoneOf-erase test t [] n = tt
NoneOf-erase test t (x ∷ xs) (m, n) = elim (Bool-cases (x == t)) [
  | inl p ↦ rw p n
  | inr p ↦ rw p (m, NoneOf-erase test t xs n)
]

module _ {ℓ} {K : Type ℓ} (clash : K → K → Bool) where
  -- A new object behind the others, which no other one clashes with.
  pub Apart-end :
      (keys keys' : ℕ → K) (t : ℕ) (xs : List ℕ)
      → ((k : ℕ) → has k xs ≡ true → keys' k ≡ keys k)
      → Apart clash keys xs
      → NoneOf (λ y. clash (keys y) (keys' t)) xs
      → Apart clash keys' (xs ++ t ∷ [])
  Apart-end keys keys' t [] h a n = (tt, tt)
  Apart-end keys keys' t (x ∷ xs) h (m, a) (e, n) =
      let same = h x (ground arith) in
      (
        NoneOf-end (λ y. clash (keys' x) (keys' y)) t xs
            (NoneOf-same (λ y. clash (keys x) (keys y)) (λ y. clash (keys' x) (keys' y)) xs
              (λ k i. ap (λ a. clash a (keys' k)) same ∙ ap (clash (keys x)) (h k (ground arith)))
              m)
            (ap (λ a. clash a (keys' t)) same ∙ e),
        Apart-end keys keys' t xs (λ k i. h k (ground arith)) a n,
      )

  pub Apart-erase :
      (keys : ℕ → K) (t : ℕ) (xs : List ℕ) → Apart clash keys xs → Apart clash keys (erase t xs)
  Apart-erase keys t [] a = tt
  Apart-erase keys t (x ∷ xs) (m, a) = elim (Bool-cases (x == t)) [
    | inl p ↦ rw p a
    | inr p ↦ rw p (NoneOf-erase (λ y. clash (keys x) (keys y)) t xs m, Apart-erase keys t xs a)
  ]

  -- The keys are the same.
  pub Apart-same :
      (keys keys' : ℕ → K) (xs : List ℕ)
      → ((k : ℕ) → keys' k ≡ keys k)
      → Apart clash keys xs
      → Apart clash keys' xs
  Apart-same keys keys' [] h a = tt
  Apart-same keys keys' (x ∷ xs) h (m, a) = (
    NoneOf-same (λ y. clash (keys x) (keys y)) (λ y. clash (keys' x) (keys' y)) xs
        (λ k i. ap (λ a. clash a (keys' k)) (h x) ∙ ap (clash (keys x)) (h k)) m,
    Apart-same keys keys' xs h a,
  )
