-- ===== src/MsgQ/Registry.antt =====
-- os_pthread_msg_q.c: the list of the queues by name, as a list in which every name stands once.
use multithreading.Prelude.{
  ℕ, zero, suc, ◌<◌, ◌≤◌, true, false, some, List, [], ◌∷◌, ◌++◌, ◌==◌, ◌≡◌, refl, sym, ap, ◌∙◌,
  subst, if◌then◌else◌, take, length, has, erase, arith, inl, inr, Bool-cases, eq→==,
}
use multithreading.Ring.Walk.{Walk, Ring}
use multithreading.MsgQ.Names.{
  MsgQList, name_len, same_name, same_string, find_loop, msg_q_find_obj,
}

-- The first of the queues with that name, or NULL.
abbrev pub named : (ℕ → List ℕ) → List ℕ → List ℕ → ℕ
named names name [] = 0
named names name (x ∷ xs) = if same_name (names x) name then x else named names name xs

-- No queue has the name.
abbrev pub Unused : (ℕ → List ℕ) → (name : List ℕ) → List ℕ → Type 0
Unused names name [] = Unit
Unused names name (x ∷ xs) = (same_name (names x) name ≡ false) × Unused names name xs

-- Every name stands once.
abbrev pub Unique : (ℕ → List ℕ) → List ℕ → Type 0
Unique names [] = Unit
Unique names (x ∷ xs) = Unused names (names x) xs × Unique names xs

-- The list holds the queues `xs`, each with a name of its own.
pub record Registry (s : MsgQList) (xs : List ℕ) : Type 0 where
  pub ring : Ring s.links s.s_msg_q_list xs
  pub unique : Unique s.names xs

module _ (name : List ℕ) (s : MsgQList) where
  find_loop-named :
      (fuel x : ℕ) (xs : List ℕ)
      → Walk s.links x xs s.s_msg_q_list
      → has s.s_msg_q_list xs ≡ false
      → length xs < fuel
      → find_loop fuel name s x ≡ some (named s.names name (x ∷ xs))
  unfolding find_loop
  find_loop-named zero x xs w n b = absurd (omega arith)
  find_loop-named (suc fuel) x [] (e, f) n b =
      let last : (s.links.next x == s.s_msg_q_list) ≡ true = ground arith in
      elim (Bool-cases (same_name (s.names x) name)) [
        | inl p ↦ rw p refl
        | inr p ↦ rw (p, last) refl
      ]
  find_loop-named (suc fuel) x (y ∷ ys) (e, f, w) n b =
      let rest = find_loop-named fuel y ys w (ground arith) (omega arith) in
      let on : (y == s.s_msg_q_list) ≡ false = ground arith in
      elim (Bool-cases (same_name (s.names x) name)) [
        | inl p ↦ rw p refl
        | inr p ↦ rw (p, e, on, rest) refl
      ]

  -- `msg_q_find_obj` finds the first queue with the name, with fuel for the list.
  pub msg_q_find_obj-named :
      (fuel : ℕ) (xs : List ℕ)
      → Ring s.links s.s_msg_q_list xs
      → length xs ≤ fuel
      → msg_q_find_obj fuel name s ≡ some (named s.names name xs)
  unfolding msg_q_find_obj
  msg_q_find_obj-named fuel [] r b = rw (eq→== s.s_msg_q_list 0 r) refl
  msg_q_find_obj-named fuel (x ∷ xs) (e, w, d, o) b =
      let some_queue : (s.s_msg_q_list == 0) ≡ false = ground arith in
      rw some_queue (
        ap (λ k. find_loop fuel name s k) e
        ∙ find_loop-named fuel x xs (subst (λ k. Walk s.links x xs k) (sym e) w)
            (subst (λ k. has k xs ≡ false) (sym e) d.0) (omega arith))

pub same_string_sym : (a b : List ℕ) → same_string a b ≡ same_string b a
same_string_sym [] [] = refl
same_string_sym [] (d ∷ b) = refl
same_string_sym (c ∷ a) [] = refl
same_string_sym (c ∷ a) (d ∷ b) = ground (arith, same_string_sym a b)

pub take_twice : (n : ℕ) (a : List ℕ) → take n (take n a) ≡ take n a
take_twice zero a = refl
take_twice (suc n) [] = refl
take_twice (suc n) (c ∷ a) = ap (λ b. c ∷ b) (take_twice n a)

pub named_zero :
    (names : ℕ → List ℕ) (name : List ℕ) (xs : List ℕ)
    → has 0 xs ≡ false
    → named names name xs ≡ 0
    → Unused names name xs
named_zero names name [] o e = tt
named_zero names name (x ∷ xs) o e = elim (Bool-cases (same_name (names x) name)) [
  | inl p ↦
      absurd
        (let q : x ≡ 0 = sym (ap (λ b. if b then x else named names name xs) p) ∙ e in ground arith)
  | inr p ↦ (
    p,
    named_zero names name xs (ground arith)
        (sym (ap (λ b. if b then x else named names name xs) p) ∙ e),
  )
]

pub Unused-frame :
    (names names' : ℕ → List ℕ) (name name' : List ℕ) (xs : List ℕ)
    → ((k : ℕ) → has k xs ≡ true → names' k ≡ names k)
    → take name_len name' ≡ take name_len name
    → Unused names name xs
    → Unused names' name' xs
Unused-frame names names' name name' [] h e u = tt
Unused-frame names names' name name' (x ∷ xs) h e (u, v) = (
  ap (λ n. same_name n name') (h x (ground arith))
      ∙ ap (λ b. same_string (take name_len (names x)) b) e
      ∙ u,
  Unused-frame names names' name name' xs (λ k i. h k (ground arith)) e v,
)

Unused-end :
    (names : ℕ → List ℕ) (name : List ℕ) (t : ℕ) (xs : List ℕ)
    → Unused names name xs
    → same_name (names t) name ≡ false
    → Unused names name (xs ++ t ∷ [])
Unused-end names name t [] u e = (e, tt)
Unused-end names name t (x ∷ xs) (u, v) e = (u, Unused-end names name t xs v e)

-- A queue whose name nobody else has.
pub Unique-end :
    (names names' : ℕ → List ℕ) (t : ℕ) (xs : List ℕ)
    → ((k : ℕ) → has k xs ≡ true → names' k ≡ names k)
    → Unique names xs
    → Unused names (names' t) xs
    → Unique names' (xs ++ t ∷ [])
Unique-end names names' t [] h u v = (tt, tt)
Unique-end names names' t (x ∷ xs) h (u, us) (v, vs) =
    let same = h x (ground arith) in
    (
      Unused-end names' (names' x) t xs
          (Unused-frame names names' (names x) (names' x) xs (λ k i. h k (ground arith))
            (ap (λ n. take name_len n) same) u)
          (same_string_sym (take name_len (names' t)) (take name_len (names' x))
            ∙ ap (λ n. same_name n (names' t)) same
            ∙ v),
      Unique-end names names' t xs (λ k i. h k (ground arith)) us vs,
    )

erase-Unused :
    (names : ℕ → List ℕ) (name : List ℕ) (t : ℕ) (xs : List ℕ)
    → Unused names name xs
    → Unused names name (erase t xs)
erase-Unused names name t [] u = tt
erase-Unused names name t (x ∷ xs) (u, us) = elim (Bool-cases (x == t)) [
  | inl p ↦ rw p us
  | inr p ↦ rw p (u, erase-Unused names name t xs us)
]

pub erase-Unique :
    (names : ℕ → List ℕ) (t : ℕ) (xs : List ℕ) → Unique names xs → Unique names (erase t xs)
erase-Unique names t [] u = tt
erase-Unique names t (x ∷ xs) (u, us) = elim (Bool-cases (x == t)) [
  | inl p ↦ rw p us
  | inr p ↦ rw p (erase-Unused names (names x) t xs u, erase-Unique names t xs us)
]
