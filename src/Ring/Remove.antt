-- ===== src/Ring/Remove.antt =====
-- An object is taken out of a circular list.
use multithreading.Prelude.{
  ℕ, ◌≡◌, ◌≢◌, refl, sym, ◌∙◌, subst, true, false, List, [], ◌∷◌, ◌++◌, ◌==◌, has, erase, Distinct,
  has-append, arith, if◌then◌else◌, Bool-cases, inl, inr, eq→==, has-erase, Distinct-erase,
  has-apart, Distinct-end, erase-append_end,
}
use multithreading.Ring.{Links, unlink}
use multithreading.Ring.Walk.{Walk, Ring, Walk-frame, Walk-append}

module _ (l : Links) where
  -- The neighbours of a member are members, or the ends.
  previous_has :
      (t a z : ℕ) (xs : List ℕ)
      → Walk l a xs z
      → has t xs ≡ true
      → has (l.previous t) (a ∷ xs) ≡ true
  previous_has t a z [] w h = absurd (ground arith)
  previous_has t a z (x ∷ xs) (e, f, w) h = elim (Bool-cases (x == t)) [
    | inl p ↦
        let same : x ≡ t = ground arith in
        subst (λ k. has (l.previous k) (a ∷ x ∷ xs) ≡ true) same (ground arith)
    | inr p ↦ ground (arith, previous_has t x z xs w (ground arith))
  ]

  next_of : (a z : ℕ) (xs : List ℕ) → Walk l a xs z → has (l.next a) (z ∷ xs) ≡ true
  next_of a z [] w = ground arith
  next_of a z (x ∷ xs) w = ground arith

  next_has :
      (t a z : ℕ) (xs : List ℕ) → Walk l a xs z → has t xs ≡ true → has (l.next t) (z ∷ xs) ≡ true
  next_has t a z [] w h = absurd (ground arith)
  next_has t a z (x ∷ xs) (e, f, w) h = elim (Bool-cases (x == t)) [
    | inl p ↦
        let same : x ≡ t = ground arith in
        subst (λ k. has (l.next k) (z ∷ x ∷ xs) ≡ true) same (ground (arith, next_of x z xs w))
    | inr p ↦ ground (arith, next_has t x z xs w (ground arith))
  ]

module _ (l : Links) (t : ℕ) (several : l.previous t ≢ t) where
  next_before : (unlink t l).next (l.previous t) ≡ l.next t
  unfolding unlink
  next_before = ground arith

  next_other : (k : ℕ) → k ≢ l.previous t → (unlink t l).next k ≡ l.next k
  unfolding unlink
  next_other k a = ground arith

  previous_after : (unlink t l).previous (l.next t) ≡ l.previous t
  unfolding unlink
  previous_after = ground arith

  previous_other : (k : ℕ) → k ≢ l.next t → (unlink t l).previous k ≡ l.previous k
  unfolding unlink
  previous_other k a = ground arith

  drop_front :
      (a z : ℕ) (xs : List ℕ)
      → Walk l a (t ∷ xs) z
      → has a (t ∷ xs) ≡ false
      → has z (t ∷ xs) ≡ false
      → Distinct xs
      → Walk (unlink t l) a xs z
  drop_front a z [] (e, f, (g, h)) m o d = (
    subst (λ k. (unlink t l).next k ≡ z) f (next_before ∙ g),
    subst (λ k. (unlink t l).previous k ≡ a) g (previous_after ∙ f),
  )
  drop_front a z (y ∷ ys) (e, f, (g, h, w)) m o (c, d) = (
    subst (λ k. (unlink t l).next k ≡ y) f (next_before ∙ g),
    subst (λ k. (unlink t l).previous k ≡ a) g (previous_after ∙ f),
    Walk-frame l (unlink t l) y z ys w
        (λ k b. next_other k (λ i. has-apart k a (y ∷ ys) b (ground arith) (i ∙ f)))
        (λ k b. previous_other k (λ i. has-apart k y (z ∷ ys) b (ground arith) (i ∙ g))),
  )

  pub Walk-erase :
      (a z : ℕ) (xs : List ℕ)
      → Walk l a xs z
      → has t xs ≡ true
      → has a xs ≡ false
      → has z xs ≡ false
      → Distinct xs
      → Walk (unlink t l) a (erase t xs) z
  Walk-erase a z [] w h m o d = absurd (ground arith)
  Walk-erase a z (x ∷ xs) (e, f, w) h m o (c, d) = elim (Bool-cases (x == t)) [
    | inl p ↦
        let same : t ≡ x = ground arith in
        rw p (
          drop_front a z xs
            (
              e ∙ sym same,
              subst (λ k. l.previous k ≡ a) (sym same) f,
              subst (λ k. Walk l k xs z) (sym same) w,
            )
            (ground arith) (ground arith) d)
    | inr p ↦
        let there : has t xs ≡ true = ground arith in
        let before = previous_has l t x z xs w there in
        let after = next_has l t x z xs w there in
        rw p (
          next_other a (λ i. has-apart (l.previous t) a (x ∷ xs) before m (sym i)) ∙ e,
          previous_other x (λ i. has-apart (l.next t) x (z ∷ xs) after (ground arith) (sym i)) ∙ f,
          Walk-erase x z xs w there c (ground arith) d,
        )
  ]

previous_end :
    (l : Links) (a z : ℕ) (xs : List ℕ) → Walk l a xs z → has (l.previous z) (a ∷ xs) ≡ true
previous_end l a z [] w = ground arith
previous_end l a z (x ∷ xs) (e, f, w) = ground (arith, previous_end l x z xs w)

previous_apart :
    (l : Links) (t a z : ℕ) (xs : List ℕ)
    → Walk l a xs z
    → Distinct (a ∷ xs)
    → has t xs ≡ true
    → l.previous t ≢ t
previous_apart l t a z [] w d h = absurd (ground arith)
previous_apart l t a z (x ∷ xs) (e, f, w) (m, d) h = elim (Bool-cases (x == t)) [
  | inl p ↦
      let same : x ≡ t = ground arith in
      subst (λ k. l.previous k ≢ k) same (λ b. has-apart x a (x ∷ xs) (ground arith) m (sym b ∙ f))
  | inr p ↦ previous_apart l t x z xs w d (ground arith)
]

-- An object is its own neighbour in the list of one object only.
alone_at :
    (l : Links) (t x : ℕ) (xs : List ℕ)
    → Ring l x (x ∷ xs)
    → has t (x ∷ xs) ≡ true
    → l.previous t ≡ t
    → (x ≡ t) × (xs ≡ [])
alone_at l t x [] r h e = (ground arith, refl)
alone_at l t x (y ∷ ys) (i, (f, g, w), (c, d), o) h e = elim (Bool-cases (x == t)) [
  | inl p ↦
      let same : t ≡ x = ground arith in
      let last = previous_end l y x ys w in
      absurd (has-apart (l.previous x) x (y ∷ ys) last c (subst (λ k. l.previous k ≡ k) same e))
  | inr p ↦ absurd (previous_apart l t x x (y ∷ ys) (f, g, w) (c, d) (ground arith) e)
]

-- The first object.
Ring-behind :
    (l : Links) (t : ℕ) (xs : List ℕ)
    → l.previous t ≢ t
    → Ring l t (t ∷ xs)
    → Ring (unlink t l) (l.next t) xs
Ring-behind l t [] ne (e, (g, h), (c, d), o) = absurd (ne h)
Ring-behind l t (y ∷ ys) ne (e, (g, h, w), (c, (d, b)), o) = (
  g,
  subst (λ zs. Walk (unlink t l) y zs y) (erase-append_end t ys (ground arith))
      (Walk-erase l t ne y y (ys ++ t ∷ []) (Walk-append l y t y ys w g h)
        (ground (arith, has-append t ys (t ∷ []))) (ground (arith, has-append y ys (t ∷ [])))
        (ground (arith, has-append y ys (t ∷ []))) (Distinct-end t ys b (ground arith))),
  (d, b),
  ground arith,
)

-- Another object.
Ring-erase :
    (l : Links) (t x : ℕ) (xs : List ℕ)
    → l.previous t ≢ t
    → has t xs ≡ true
    → Ring l x (x ∷ xs)
    → Ring (unlink t l) x (x ∷ erase t xs)
Ring-erase l t x xs ne h (e, w, (c, d), o) = (
  e,
  Walk-erase l t ne x x xs w h c c d,
  (has-erase x t xs c, Distinct-erase t xs d),
  ground (arith, has-erase 0 t xs (ground arith)),
)

-- One of the objects of the list, and there are others.
pub Ring-cut :
    (l : Links) (h t : ℕ) (xs : List ℕ)
    → Ring l h xs
    → has t xs ≡ true
    → l.previous t ≢ t
    → Ring (unlink t l) (if h == t then (unlink t l).next t else h) (erase t xs)
Ring-cut l h t [] r i ne = absurd (ground arith)
Ring-cut l h t (x ∷ xs) (e, w, d, o) i ne = elim (Bool-cases (x == t)) [
  | inl q ↦
      let same : x ≡ t = ground arith in
      let here : (h == t) ≡ true = ground arith in
      let r = subst (λ k. Ring l k (k ∷ xs)) same (refl, w, d, o) in
      let n = next_other l t ne t (λ b. ne (sym b)) in rw (q, here, n) (Ring-behind l t xs ne r)
  | inr q ↦
      let there : (h == t) ≡ false = ground arith in
      rw (q, there)
        (subst (λ k. Ring (unlink t l) k (x ∷ erase t xs)) (sym e)
          (Ring-erase l t x xs ne (ground arith) (refl, w, d, o)))
]

-- An object that is its own neighbour is the only one.
pub alone :
    (l : Links) (h t : ℕ) (xs : List ℕ)
    → Ring l h xs
    → has t xs ≡ true
    → l.previous t ≡ t
    → erase t xs ≡ []
alone l h t [] r i e = refl
alone l h t (x ∷ xs) (b, w, d, o) i e =
    let (same, empty) = alone_at l t x xs (refl, w, d, o) i e in rw (eq→== x t same) empty

pub Ring-Distinct : (l : Links) (h : ℕ) (xs : List ℕ) → Ring l h xs → Distinct xs
Ring-Distinct l h [] r = tt
Ring-Distinct l h (x ∷ xs) (b, w, d, o) = d

pub next_inside :
    (l : Links) (h t : ℕ) (xs : List ℕ) → Ring l h xs → has t xs ≡ true → has (l.next t) xs ≡ true
next_inside l h t [] r i = i
next_inside l h t (x ∷ xs) (b, w, d, o) i = elim (Bool-cases (x == t)) [
  | inl p ↦
      let same : x ≡ t = ground arith in
      subst (λ k. has (l.next k) (x ∷ xs) ≡ true) same (next_of l x x xs w)
  | inr p ↦ next_has l t x x xs w (ground arith)
]

pub Ring-zero : (l : Links) (h : ℕ) (xs : List ℕ) → Ring l h xs → has 0 xs ≡ false
Ring-zero l h [] r = refl
Ring-zero l h (x ∷ xs) (b, w, d, o) = o

pub previous_inside :
    (l : Links) (h t : ℕ) (xs : List ℕ)
    → Ring l h xs
    → has t xs ≡ true
    → has (l.previous t) xs ≡ true
previous_inside l h t [] r i = i
previous_inside l h t (x ∷ xs) (b, w, d, o) i = elim (Bool-cases (x == t)) [
  | inl p ↦
      let same : x ≡ t = ground arith in
      subst (λ k. has (l.previous k) (x ∷ xs) ≡ true) same (previous_end l x x xs w)
  | inr p ↦ previous_has l t x x xs w (ground arith)
]
