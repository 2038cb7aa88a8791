-- ===== src/Ring/Insert.antt =====
-- An object is put in front of another one.
use multithreading.Prelude.{
  ℕ, ◌≡◌, ◌≢◌, refl, sym, ap, ◌∙◌, Bool, true, false, List, [], ◌∷◌, ◌++◌, ◌==◌, ◌||◌, has,
  Distinct, has-append, arith, if◌then◌else◌, Bool-cases, inl, inr, Distinct-end, subst, has-apart,
}
use multithreading.Ring.{Links, insert_before}
use multithreading.Ring.Walk.{Walk, Ring, Walk-frame, Walk-end}

-- The first object of `xs` that passes the test, or the end.
abbrev pub place : (ℕ → Bool) → List ℕ → (z : ℕ) → ℕ
place test [] z = z
place test (x ∷ xs) z = if test x then x else place test xs z

abbrev pub insert_by : (ℕ → Bool) → ℕ → List ℕ → List ℕ
insert_by test t [] = t ∷ []
insert_by test t (x ∷ xs) = if test x then t ∷ x ∷ xs else x ∷ insert_by test t xs

module _ (l : Links) (test : ℕ → Bool) where
  previous-place :
      (a z : ℕ) (xs : List ℕ) → Walk l a xs z → has (l.previous (place test xs z)) (a ∷ xs) ≡ true
  previous-place a z [] (e, f) = ground arith
  previous-place a z (x ∷ xs) (e, f, w) = ground (arith, previous-place x z xs w)

  pub place-has : (z : ℕ) (xs : List ℕ) → has (place test xs z) (z ∷ xs) ≡ true
  place-has z [] = ground arith
  place-has z (x ∷ xs) = ground (arith, place-has z xs)

module _ (l : Links) (t p : ℕ) (other : t ≢ p) where
  -- The fields after the insertion.
  next_new : l.previous p ≢ t → (insert_before t p l).next t ≡ p
  unfolding insert_before
  next_new ne = ground arith

  next_before : (insert_before t p l).next (l.previous p) ≡ t
  unfolding insert_before
  next_before = ground arith

  next_other : (k : ℕ) → k ≢ t → k ≢ l.previous p → (insert_before t p l).next k ≡ l.next k
  unfolding insert_before
  next_other k a b = ground arith

  previous_new : (insert_before t p l).previous t ≡ l.previous p
  unfolding insert_before
  previous_new = ground arith

  previous_at : (insert_before t p l).previous p ≡ t
  unfolding insert_before
  previous_at = ground arith

  pub previous_other : (k : ℕ) → k ≢ t → k ≢ p → (insert_before t p l).previous k ≡ l.previous k
  unfolding insert_before
  previous_other k a b = ground arith

-- What the insertion asks for: `t` is new, and the ends are not inside.
unfoldable pub Fresh : (t a z : ℕ) → List ℕ → Type 0
Fresh t a z xs =
    (has t (a ∷ z ∷ xs) ≡ false) × (has a xs ≡ false) × (has z xs ≡ false) × Distinct xs

put_end :
    (l : Links) (t a z : ℕ)
    → t ≢ a
    → t ≢ z
    → Walk l a [] z
    → Walk (insert_before t z l) a (t ∷ []) z
put_end l t a z na nz (e, f) = (
  subst (λ k. (insert_before t z l).next k ≡ t) f (next_before l t z nz),
  previous_new l t z nz ∙ f,
  (next_new l t z nz (λ b. na (sym b ∙ f)), previous_at l t z nz),
)

put_front :
    (l : Links) (t a z x : ℕ) (xs : List ℕ)
    → Fresh t a z (x ∷ xs)
    → Walk l a (x ∷ xs) z
    → Walk (insert_before t x l) a (t ∷ x ∷ xs) z
unfolding Fresh
put_front l t a z x xs (n, m, o, (c, d)) (e, f, w) =
    let nx : t ≢ x = ground arith in
    let na : t ≢ a = ground arith in
    (
      subst (λ k. (insert_before t x l).next k ≡ t) f (next_before l t x nx),
      previous_new l t x nx ∙ f,
      (
        next_new l t x nx (λ b. na (sym b ∙ f)),
        previous_at l t x nx,
        Walk-frame l (insert_before t x l) x z xs w
            (λ k h.
              next_other l t x nx k (has-apart k t (x ∷ xs) h (ground arith))
                (λ b. has-apart k a (x ∷ xs) h m (b ∙ f)))
            (λ k h.
              previous_other l t x nx k (has-apart k t (z ∷ xs) h (ground arith))
                (has-apart k x (z ∷ xs) h (ground arith))),
      ),
    )

pub Walk-insert_by :
    (l : Links) (test : ℕ → Bool) (t a z : ℕ) (xs : List ℕ)
    → Fresh t a z xs
    → Walk l a xs z
    → Walk (insert_before t (place test xs z) l) a (insert_by test t xs) z
unfolding Fresh
Walk-insert_by l test t a z [] (n, m, o, d) w = put_end l t a z (ground arith) (ground arith) w
Walk-insert_by l test t a z (x ∷ xs) (n, m, o, (c, d)) (e, f, w) = elim (Bool-cases (test x)) [
  | inl here ↦ rw here (put_front l t a z x xs (n, m, o, (c, d)) (e, f, w))
  | inr on ↦
      let p = place test xs z in
      let inside = place-has l test z xs in
      let np : t ≢ p = λ b. has-apart p t (z ∷ xs) inside (ground arith) (sym b) in
      let before = previous-place l test x z xs w in
      rw on (
        next_other l t p np a (ground arith)
              (λ b. has-apart (l.previous p) a (x ∷ xs) before m (sym b))
            ∙ e,
        previous_other l t p np x (ground arith)
              (λ b. has-apart p x (z ∷ xs) inside (ground arith) (sym b))
            ∙ f,
        Walk-insert_by l test t x z xs (ground arith, c, ground arith, d) w,
      )
]

insert_by_last : (t : ℕ) (xs : List ℕ) → insert_by (λ k. false) t xs ≡ xs ++ t ∷ []
insert_by_last t [] = refl
insert_by_last t (x ∷ xs) = ap (λ ys. x ∷ ys) (insert_by_last t xs)

place_last : (z : ℕ) (xs : List ℕ) → place (λ k. false) xs z ≡ z
place_last z [] = refl
place_last z (x ∷ xs) = place_last z xs

pub has-insert_by :
    (test : ℕ → Bool) (k t : ℕ) (xs : List ℕ) → has k (insert_by test t xs) ≡ ((t == k) || has k xs)
has-insert_by test k t [] = refl
has-insert_by test k t (x ∷ xs) = elim (Bool-cases (test x)) [
  | inl p ↦ rw p refl
  | inr p ↦ rw p (ground (arith, has-insert_by test k t xs))
]

Distinct-insert_by :
    (test : ℕ → Bool) (t : ℕ) (xs : List ℕ)
    → Distinct xs
    → has t xs ≡ false
    → Distinct (insert_by test t xs)
Distinct-insert_by test t [] d n = (refl, tt)
Distinct-insert_by test t (x ∷ xs) (c, d) n = elim (Bool-cases (test x)) [
  | inl p ↦ rw p (n, (c, d))
  | inr p ↦
      rw p (has-insert_by test x t xs ∙ ground arith, Distinct-insert_by test t xs d (ground arith))
]

-- Behind the first object.
pub Ring-insert_by :
    (l : Links) (test : ℕ → Bool) (t x : ℕ) (xs : List ℕ)
    → has t (0 ∷ x ∷ xs) ≡ false
    → Ring l x (x ∷ xs)
    → Ring (insert_before t (place test xs x) l) x (x ∷ insert_by test t xs)
unfolding Fresh
Ring-insert_by l test t x xs n (e, w, (c, d), o) = (
  e,
  Walk-insert_by l test t x x xs (ground arith, c, c, d) w,
  (has-insert_by test x t xs ∙ ground arith, Distinct-insert_by test t xs d (ground arith)),
  ground (arith, has-insert_by test 0 t xs),
)

-- In front of the first object, and so as the last one.
last_new :
    (l : Links) (t x : ℕ) (xs : List ℕ)
    → has t (x ∷ xs) ≡ false
    → has x xs ≡ false
    → Distinct xs
    → Walk l x xs x
    → Walk (insert_before t x l) x (xs ++ t ∷ []) x
unfolding Fresh
last_new l t x xs n c d w =
    subst (λ p. Walk (insert_before t p l) x (xs ++ t ∷ []) x) (place_last x xs)
      (subst (λ ys. Walk (insert_before t (place (λ k. false) xs x) l) x ys x) (insert_by_last t xs)
        (Walk-insert_by l (λ k. false) t x x xs (ground arith, c, c, d) w))

pub Ring-last :
    (l : Links) (t x : ℕ) (xs : List ℕ)
    → has t (0 ∷ x ∷ xs) ≡ false
    → Ring l x (x ∷ xs)
    → Ring (insert_before t x l) x (x ∷ xs ++ t ∷ [])
Ring-last l t x xs n (e, w, (c, d), o) = (
  e,
  last_new l t x xs (ground arith) c d w,
  (ground (arith, has-append x xs (t ∷ [])), Distinct-end t xs d (ground arith)),
  ground (arith, has-append 0 xs (t ∷ [])),
)

pub Ring-first :
    (l : Links) (t x : ℕ) (xs : List ℕ)
    → has t (0 ∷ x ∷ xs) ≡ false
    → Ring l x (x ∷ xs)
    → Ring (insert_before t x l) t (t ∷ x ∷ xs)
Ring-first l t x xs n (e, w, (c, d), o) =
    let (v, g, h) =
      Walk-end (insert_before t x l) x t x xs (last_new l t x xs (ground arith) c d w) in
    (refl, (g, h, v), (ground arith, (c, d)), ground arith)

pub insert_by_same :
    (test test' : ℕ → Bool) (t : ℕ) (xs : List ℕ)
    → ((k : ℕ) → has k xs ≡ true → test k ≡ test' k)
    → insert_by test t xs ≡ insert_by test' t xs
insert_by_same test test' t [] h = refl
insert_by_same test test' t (x ∷ xs) h =
    rw (h x (ground arith), insert_by_same test test' t xs (λ k i. h k (ground arith))) refl
