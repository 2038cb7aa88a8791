-- ===== src/Crit/Exclusive.antt =====
-- os_pthread_crit.c: at most one thread is in the section, and it knows how often.
use multithreading.Prelude.{
  ℕ, suc, ◌+◌, ◌%◌, ◌^◌, ◌<◌, true, false, List, [], ◌∷◌, length, ◌≡◌, ◌≢◌, ◌==◌, refl, sym, ap,
  ◌∙◌, subst, if◌then◌else◌, arith, eq→==, ne→==, ℕ_discrete,
}
use multithreading.Crit.{
  Place, calm, locking, entering, counting, clearing, unlocking, aborted, Crit, go, asserts,
  count_up, count_down, Step, start_again, start_first, lock, set_thread, count, end_, clear,
  unlock, Steps, stay, more,
}

-- The levels of a thread that is inside, one below the other down to 1.
abbrev pub Levels : List ℕ → Type 0
Levels [] = Unit
Levels (l ∷ ls) = (l ≡ suc (length ls)) × Levels ls

-- What holds of the shared state when the thread `t` is at a place.
abbrev pub Local : (t mutex thread i2_selfcount : ℕ) → Place → Type 0
Local t m th c (calm []) = (m ≢ t) × (th ≢ t)
Local t m th c (calm (l ∷ ls)) =
    (m ≡ t) × (th ≡ t) × (c ≡ suc (length ls)) × (length ls < 32766) × Levels (l ∷ ls)
Local t m th c (locking ls) = (ls ≡ []) × (m ≢ t) × (th ≢ t)
Local t m th c (entering ls) = (ls ≡ []) × (m ≡ t) × (th ≡ 0) × (c ≡ 0)
Local t m th c (counting ls) = (m ≡ t) × (th ≡ t) × (c ≡ length ls) × Levels ls
Local t m th c clearing = (m ≡ t) × (th ≡ t) × (c ≡ 0)
Local t m th c unlocking = (m ≡ t) × (th ≡ 0) × (c ≡ 0)
Local t m th c aborted = ⊥

pub record IsCrit (s : Crit) : Type 0 where
  pub local : (t : ℕ) → t ≢ 0 → Local t s.mutex s.thread s.i2_selfcount (s.places t)
  pub idle : s.mutex ≡ 0 → (s.thread ≡ 0) × (s.i2_selfcount ≡ 0)

-- A thread that does not hold the mutex is outside.
outside :
    (u m th c m' th' c' : ℕ) (p : Place)
    → Local u m th c p
    → m ≢ u
    → m' ≢ u
    → th' ≢ u
    → Local u m' th' c' p
outside u m th c m' th' c' (calm []) l a b d = (b, d)
outside u m th c m' th' c' (calm (k ∷ ks)) l a b d = absurd (a l.0)
outside u m th c m' th' c' (locking k) l a b d = (l.0, b, d)
outside u m th c m' th' c' (entering k) l a b d = absurd (a l.1)
outside u m th c m' th' c' (counting k) l a b d = absurd (a l.0)
outside u m th c m' th' c' clearing l a b d = absurd (a l.0)
outside u m th c m' th' c' unlocking l a b d = absurd (a l.0)
outside u m th c m' th' c' aborted l a b d = absurd l

-- One thread takes a step, the others stay outside.
moved :
    (t : ℕ) (p : Place) (s : Crit) (m' th' c' : ℕ)
    → IsCrit s
    → Local t m' th' c' p
    → ((u : ℕ) → u ≢ 0 → u ≢ t → s.mutex ≢ u)
    → ((u : ℕ) → u ≢ 0 → u ≢ t → m' ≢ u)
    → ((u : ℕ) → u ≢ 0 → u ≢ t → th' ≢ u)
    → (u : ℕ) → u ≢ 0
    → Local u m' th' c' (go t p s.places u)
moved t p s m' th' c' i l a b d u nz = elim (ℕ_discrete t u) [
  | yes e ↦ rw (eq→== t u e) (subst (λ k. Local k m' th' c' p) e l)
  | no n ↦ rw (ne→== t u n) (
      outside u s.mutex s.thread s.i2_selfcount m' th' c' (s.places u) (i.local u nz)
        (a u nz (λ e. n (sym e))) (b u nz (λ e. n (sym e))) (d u nz (λ e. n (sym e))))
]

at :
    (t : ℕ) (p : Place) (s : Crit)
    → IsCrit s
    → t ≢ 0
    → s.places t ≡ p
    → Local t s.mutex s.thread s.i2_selfcount p
at t p s i nz e = subst (Local t s.mutex s.thread s.i2_selfcount) e (i.local t nz)

other : (t m : ℕ) → m ≡ t → (u : ℕ) → u ≢ 0 → u ≢ t → m ≢ u
other t m e u nz n f = n (sym f ∙ e)

none : (m : ℕ) → m ≡ 0 → (u t : ℕ) → u ≢ 0 → u ≢ t → m ≢ u
none m e u t nz n f = nz (sym f ∙ e)

moved_same :
    (t : ℕ) (p : Place) (s : Crit)
    → IsCrit s
    → Local t s.mutex s.thread s.i2_selfcount p
    → (u : ℕ) → u ≢ 0
    → Local u s.mutex s.thread s.i2_selfcount (go t p s.places u)
moved_same t p s i l u nz = elim (ℕ_discrete t u) [
  | yes e ↦ rw (eq→== t u e) (subst (λ k. Local k s.mutex s.thread s.i2_selfcount p) e l)
  | no n ↦ rw (ne→== t u n) (i.local u nz)
]

again :
    (t m th c : ℕ) (ls : List ℕ) → Local t m th c (calm ls) → th ≡ t → Local t m th c (counting ls)
again t m th c [] l e = absurd (l.1 e)
again t m th c (k ∷ ks) (a, b, d, f, g) e = (a, b, d, g)

first :
    (t m th c : ℕ) (ls : List ℕ) → Local t m th c (calm ls) → th ≢ t → Local t m th c (locking ls)
first t m th c [] l n = (refl, l.0, l.1)
first t m th c (k ∷ ks) l n = absurd (n l.1)

deeper :
    (t m th : ℕ) (ls : List ℕ)
    → m ≡ t
    → th ≡ t
    → length ls < 32766
    → Levels ls
    → Local t m th (length ls) (if length ls == 0 then clearing else calm ls)
deeper t m th [] a b f g = (a, b, refl)
deeper t m th (k ∷ ks) a b f g =
    let some_left : (suc (length ks) == 0) ≡ false = ground arith in
    rw some_left (a, b, refl, omega arith, g)

-- The thread that counts down to 0 leaves.
down :
    (t m th c l : ℕ) (ls : List ℕ)
    → Local t m th c (calm (l ∷ ls))
    → Local t m th ((c + 65535) % 2 ^ 16) (if (c + 65535) % 2 ^ 16 == 0 then clearing else calm ls)
down t m th c l ls (a, b, e, f, (g, h)) =
    let left : (c + 65535) % 2 ^ 16 ≡ length ls = omega (arith, e, f) in
    rw left (deeper t m th ls a b f h)

asserts_inside :
    (t l : ℕ) (ls : List ℕ) (s : Crit)
    → Local t s.mutex s.thread s.i2_selfcount (calm (l ∷ ls))
    → asserts t l s ≡ true
asserts_inside t l ls s (a, b, e, f, (g, h)) =
    rw (eq→== s.thread t b, eq→== s.i2_selfcount l (e ∙ sym g)) refl

step-IsCrit : (s r : Crit) → IsCrit s → Step s r → IsCrit r
unfolding count_up count_down
step-IsCrit s r i (start_again t ls nz p e) = record {
  local =
      moved_same t (counting ls) s i
        (again t s.mutex s.thread s.i2_selfcount ls (at t (calm ls) s i nz p) e);
  idle = i.idle;
}
step-IsCrit s r i (start_first t ls nz p n) = record {
  local =
      moved_same t (locking ls) s i
        (first t s.mutex s.thread s.i2_selfcount ls (at t (calm ls) s i nz p) n);
  idle = i.idle;
}
step-IsCrit s r i (lock t ls nz p e) =
    let (d0, m, th) = at t (locking ls) s i nz p in
    let (th0, c0) = i.idle e in
    record {
      local =
          moved t (entering ls) s t s.thread s.i2_selfcount i (d0, refl, th0, c0)
            (λ u z f. none s.mutex e u t z f) (other t t refl) (λ u z f. none s.thread th0 u t z f);
      idle = λ x. absurd (nz x);
    }
step-IsCrit s r i (set_thread t ls nz p) =
    let (d0, m, th, c) = at t (entering ls) s i nz p in
    record {
      local =
          moved t (counting ls) s s.mutex t s.i2_selfcount i
            (m, refl, c ∙ sym (ap length d0), subst Levels (sym d0) tt) (other t s.mutex m)
            (other t s.mutex m) (other t t refl);
      idle = λ x. absurd (nz (sym m ∙ x));
    }
step-IsCrit s r i (count t ls nz p b) =
    let (m, th, c, g) = at t (counting ls) s i nz p in
    record {
      local =
          moved t (calm ((s.i2_selfcount + 1) % 2 ^ 16 ∷ ls)) s s.mutex s.thread
            ((s.i2_selfcount + 1) % 2 ^ 16) i
            (m, th, omega (arith, c, b), b, (omega (arith, c, b), g)) (other t s.mutex m)
            (other t s.mutex m) (other t s.thread th);
      idle = λ x. absurd (nz (sym m ∙ x));
    }
step-IsCrit s r i (end_ t l ls nz p) =
    let inside = at t (calm (l ∷ ls)) s i nz p in
    rw (asserts_inside t l ls s inside) (record {
      local =
          moved t (if (s.i2_selfcount + 65535) % 2 ^ 16 == 0 then clearing else calm ls) s s.mutex
            s.thread ((s.i2_selfcount + 65535) % 2 ^ 16) i
            (down t s.mutex s.thread s.i2_selfcount l ls inside) (other t s.mutex inside.0)
            (other t s.mutex inside.0) (other t s.thread inside.1);
      idle = λ x. absurd (nz (sym inside.0 ∙ x));
    })
step-IsCrit s r i (clear t nz p) =
    let (m, th, c) = at t clearing s i nz p in
    record {
      local =
          moved t unlocking s s.mutex 0 s.i2_selfcount i (m, refl, c) (other t s.mutex m)
            (other t s.mutex m) (λ u z f x. z (sym x));
      idle = λ x. absurd (nz (sym m ∙ x));
    }
step-IsCrit s r i (unlock t nz p) =
    let (m, th, c) = at t unlocking s i nz p in
    record {
      local =
          moved t (calm []) s 0 s.thread s.i2_selfcount i
            (λ x. nz (sym x), λ x. nz (sym (sym th ∙ x))) (other t s.mutex m) (λ u z f x. z (sym x))
            (λ u z f. none s.thread th u t z f);
      idle = λ x. (th, c);
    }

pub Steps-IsCrit : (s r : Crit) → IsCrit s → Steps s r → IsCrit r
Steps-IsCrit s r i stay = i
Steps-IsCrit s r i (more {s = _} {r = q} {q = _} a b) = Steps-IsCrit q r (step-IsCrit s q i a) b

both :
    (t u m th c k l : ℕ) (ks ls : List ℕ)
    → Local t m th c (calm (k ∷ ks))
    → Local u m th c (calm (l ∷ ls))
    → t ≡ u
both t u m th c k l ks ls p q = sym p.0 ∙ q.0

-- Nobody is in the section.
abbrev pub IsFree : Crit → Type 0
IsFree s = (s.mutex ≡ 0) × (s.thread ≡ 0) × (s.i2_selfcount ≡ 0) × ((t : ℕ) → s.places t ≡ calm [])

free-IsCrit : (s : Crit) → IsFree s → IsCrit s
free-IsCrit s (m, th, c, o) = record {
  local = λ t nz.
      subst (Local t s.mutex s.thread s.i2_selfcount) (sym (o t))
        (λ x. nz (sym x ∙ m), λ x. nz (sym x ∙ th));
  idle = λ x. (th, c);
}

-- Whatever steps the threads take from a free section on, in any order: two threads that are both inside
-- are the same thread.
pub exclusive :
    (s r : Crit) (t u k l : ℕ) (ks ls : List ℕ)
    → IsFree s
    → Steps s r
    → t ≢ 0
    → u ≢ 0
    → r.places t ≡ calm (k ∷ ks)
    → r.places u ≡ calm (l ∷ ls)
    → t ≡ u
exclusive s r t u k l ks ls f x tz uz p q =
    let i = Steps-IsCrit s r (free-IsCrit s f) x in
    both t u r.mutex r.thread r.i2_selfcount k l ks ls (at t (calm (k ∷ ks)) r i tz p)
      (at u (calm (l ∷ ls)) r i uz q)

-- Whatever steps the threads take from a free section on, in any order, no thread being inside more than 32766
-- times, where each `u_crit_end` is given the level that the last `u_crit_start` of its thread that is not
-- yet ended has returned: both assertions of
-- `u_crit_end` hold of a thread that is inside, no thread has failed one, and the level is the number of the
-- calls of `u_crit_start` of the thread that are not yet ended.
pub asserted :
    (s r : Crit) (t l : ℕ) (ls : List ℕ)
    → IsFree s
    → Steps s r
    → t ≢ 0
    → r.places t ≡ calm (l ∷ ls)
    → (asserts t l r ≡ true) × (l ≡ length (l ∷ ls)) × ((u : ℕ) → u ≢ 0 → r.places u ≢ aborted)
asserted s r t l ls f x tz p =
    let i = Steps-IsCrit s r (free-IsCrit s f) x in
    let inside = at t (calm (l ∷ ls)) r i tz p in
    let (a, b, c, d, (e, g)) = inside in
    (asserts_inside t l ls r inside, e, λ u uz q. at u aborted r i uz q)

all_out : (t m th c : ℕ) → Local t m th c (calm []) → m ≢ t
all_out t m th c l = l.0

-- When every thread is outside again and nobody is on its way, the section is free as before.
pub free_again :
    (s r : Crit)
    → IsFree s
    → Steps s r
    → ((t : ℕ) → r.places t ≡ calm [])
    → (r.mutex ≡ 0) × (r.thread ≡ 0) × (r.i2_selfcount ≡ 0)
free_again s r f x o =
    let i = Steps-IsCrit s r (free-IsCrit s f) x in
    elim (ℕ_discrete r.mutex 0) [
      | yes e ↦ (e, (i.idle e).0, (i.idle e).1)
      | no n ↦ absurd (
          all_out r.mutex r.mutex r.thread r.i2_selfcount (at r.mutex (calm []) r i n (o r.mutex))
            refl)
    ]
