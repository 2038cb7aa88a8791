-- ===== src/Prelude/Lists.antt =====
-- Lists measured and indexed by native numbers, under the library's names.
use Prim.Native.Nat.{ℕ, zero, suc, ◌+◌, ◌<◌, ◌≤◌}
use mathlib.Core.Path.{◌≡◌, refl, ap}
use mathlib.Core.Logic.{◌≢◌}
use mathlib.Core.List.{List, [], ◌∷◌, ◌++◌}
use mathlib.Core.Option.{Option, none, some}
use mathlib.Core.Bool.{Bool, true, false, ◌||◌}
use native.Mathlib.Omega.{arith}
use native.Mathlib.Decide.{ℕ_discrete}
use multithreading.Prelude.Tests.{◌==◌, if◌then◌else◌}

module _ {ℓ} {A : Type ℓ} where
  abbrev pub length : List A → ℕ
  length [] = 0
  length (x ∷ xs) = suc (length xs)

  abbrev pub get_elem? : List A → ℕ → Option A
  get_elem? [] i = none
  get_elem? (x ∷ xs) zero = some x
  get_elem? (x ∷ xs) (suc i) = get_elem? xs i

  pub length-append : (xs ys : List A) → length (xs ++ ys) ≡ length xs + length ys
  length-append [] ys = omega arith
  length-append (x ∷ xs) ys = omega (arith, length-append xs ys)

-- The first `n` elements.
abbrev pub take {ℓ} : {A : Type ℓ} → ℕ → List A → List A
take zero xs = []
take (suc n) [] = []
take (suc n) (x ∷ xs) = x ∷ take n xs

pub get_elem-append_left :
    {A : Type 0} (xs ys : List A) (i : ℕ) → i < length xs → get_elem? (xs ++ ys) i ≡ get_elem? xs i
get_elem-append_left [] ys i h = absurd (omega arith)
get_elem-append_left (x ∷ xs) ys zero h = refl
get_elem-append_left (x ∷ xs) ys (suc i) h = get_elem-append_left xs ys i (omega arith)

pub get_elem-append_end :
    {A : Type 0} (xs : List A) (y : A) → get_elem? (xs ++ y ∷ []) (length xs) ≡ some y
get_elem-append_end [] y = refl
get_elem-append_end (x ∷ xs) y = get_elem-append_end xs y

pub take_all : {A : Type 0} (n : ℕ) (xs : List A) → length xs ≤ n → take n xs ≡ xs
take_all zero [] h = refl
take_all zero (x ∷ xs) h = absurd (omega arith)
take_all (suc n) [] h = refl
take_all (suc n) (x ∷ xs) h = ap (λ ys. x ∷ ys) (take_all n xs (omega arith))

abbrev pub has : ℕ → List ℕ → Bool
has a [] = false
has a (x ∷ xs) = (x == a) || has a xs

-- The list without the first `a`.
abbrev pub erase : ℕ → List ℕ → List ℕ
erase a [] = []
erase a (x ∷ xs) = if x == a then xs else x ∷ erase a xs

abbrev pub Distinct : List ℕ → Type 0
Distinct [] = Unit
Distinct (x ∷ xs) = (has x xs ≡ false) × Distinct xs

pub has-append : (a : ℕ) (xs ys : List ℕ) → has a (xs ++ ys) ≡ (has a xs || has a ys)
has-append a [] ys = refl
has-append a (x ∷ xs) ys = ground (arith, has-append a xs ys)

-- A member differs from what is not a member.
pub has-apart : (k t : ℕ) (xs : List ℕ) → has k xs ≡ true → has t xs ≡ false → k ≢ t
has-apart k t xs h n e = ground (arith, ap (λ j. has j xs) e)

pub Distinct-end : (t : ℕ) (xs : List ℕ) → Distinct xs → has t xs ≡ false → Distinct (xs ++ t ∷ [])
Distinct-end t [] d n = (refl, tt)
Distinct-end t (x ∷ xs) (m, d) n =
    (ground (arith, has-append x xs (t ∷ [])), Distinct-end t xs d (ground arith))

pub erase-append_end : (t : ℕ) (xs : List ℕ) → has t xs ≡ false → erase t (xs ++ t ∷ []) ≡ xs
erase-append_end t [] n = ground arith
erase-append_end t (x ∷ xs) n = ground (arith, erase-append_end t xs)

pub has-erase : (k t : ℕ) (xs : List ℕ) → has k xs ≡ false → has k (erase t xs) ≡ false
has-erase k t [] n = refl
has-erase k t (x ∷ xs) n = ground (arith, has-erase k t xs)

pub Distinct-erase : (t : ℕ) (xs : List ℕ) → Distinct xs → Distinct (erase t xs)
Distinct-erase t [] d = tt
Distinct-erase t (x ∷ xs) (m, d) = ground (arith, has-erase x t xs m, Distinct-erase t xs d)

-- The first `t` is gone, and there was one.
pub has-erase_self : (t : ℕ) (xs : List ℕ) → Distinct xs → has t (erase t xs) ≡ false
has-erase_self t [] d = refl
has-erase_self t (x ∷ xs) (m, d) = ground (arith, has-erase_self t xs d)

pub has-erase_other : (k t : ℕ) (xs : List ℕ) → k ≢ t → has k (erase t xs) ≡ has k xs
has-erase_other k t [] ne = refl
has-erase_other k t (x ∷ xs) ne = elim (ℕ_discrete x t) [
  | yes p ↦ let q : (x == t) ≡ true = ground arith in rw q (ground arith)
  | no p ↦
      let q : (x == t) ≡ false = ground arith in
      rw q (ap (λ b. (x == k) || b) (has-erase_other k t xs ne))
]

pub erase-has : (k t : ℕ) (xs : List ℕ) → has k (erase t xs) ≡ true → has k xs ≡ true
erase-has k t [] h = h
erase-has k t (x ∷ xs) h = ground (arith, erase-has k t xs)

pub erase_absent : (t : ℕ) (xs : List ℕ) → has t xs ≡ false → erase t xs ≡ xs
erase_absent t [] h = refl
erase_absent t (x ∷ xs) h =
    let other : (x == t) ≡ false = ground arith in
    rw other (ap (λ ys. x ∷ ys) (erase_absent t xs (ground arith)))

pub length-erase : (t : ℕ) (xs : List ℕ) → length (erase t xs) ≤ length xs
length-erase t [] = omega arith
length-erase t (x ∷ xs) = ground (arith, length-erase t xs)
