-- ===== src/Ring/Walk.antt =====
-- The paths through a circular list, forwards and backwards.
use multithreading.Prelude.{ℕ, ◌≡◌, ◌∙◌, true, false, List, [], ◌∷◌, ◌++◌, has, Distinct, arith}
use multithreading.Ring.{Links}

-- From `a` the links lead through `xs` to `z`, and back.
abbrev pub Walk : Links → ℕ → List ℕ → ℕ → Type 0
Walk l a [] z = (l.next a ≡ z) × (l.previous z ≡ a)
Walk l a (x ∷ xs) z = (l.next a ≡ x) × (l.previous x ≡ a) × Walk l x xs z

-- `head` is the first of the objects `zs`, or NULL.
abbrev pub Ring : Links → (head : ℕ) → List ℕ → Type 0
Ring l head [] = head ≡ 0
Ring l head (x ∷ xs) = (head ≡ x) × Walk l x xs x × Distinct (x ∷ xs) × (has 0 (x ∷ xs) ≡ false)

-- A walk depends on `next` at its start and at what it goes through, on `previous` at its end too.
pub Walk-frame :
    (l l' : Links) (a z : ℕ) (xs : List ℕ)
    → Walk l a xs z
    → ((k : ℕ) → has k (a ∷ xs) ≡ true → l'.next k ≡ l.next k)
    → ((k : ℕ) → has k (z ∷ xs) ≡ true → l'.previous k ≡ l.previous k)
    → Walk l' a xs z
Walk-frame l l' a z [] (e, f) h k = (h a (ground arith) ∙ e, k z (ground arith) ∙ f)
Walk-frame l l' a z (x ∷ xs) (e, f, w) h k = (
  h a (ground arith) ∙ e,
  k x (ground arith) ∙ f,
  Walk-frame l l' x z xs w (λ j b. h j (ground arith)) (λ j b. k j (ground arith)),
)

pub Walk-end :
    (l : Links) (a t z : ℕ) (xs : List ℕ)
    → Walk l a (xs ++ t ∷ []) z
    → Walk l a xs t × (l.next t ≡ z) × (l.previous z ≡ t)
Walk-end l a t z [] (e, f, (g, h)) = ((e, f), g, h)
Walk-end l a t z (x ∷ xs) (e, f, w) = let (v, g, h) = Walk-end l x t z xs w in ((e, f, v), g, h)

pub Walk-append :
    (l : Links) (a t z : ℕ) (xs : List ℕ)
    → Walk l a xs t
    → l.next t ≡ z
    → l.previous z ≡ t
    → Walk l a (xs ++ t ∷ []) z
Walk-append l a t z [] (e, f) g h = (e, f, (g, h))
Walk-append l a t z (x ∷ xs) (e, f, w) g h = (e, f, Walk-append l x t z xs w g h)
