-- ===== src/Am/Table.antt =====
-- am/am.c: the table of the applications, in which every name stands once.
use multithreading.Prelude.{
  ℕ, zero, suc, ◌+◌, ◌<◌, ◌≤◌, Bool, true, false, Option, none, some, List, [], ◌∷◌, ◌≡◌, ◌≢◌, refl,
  sym, ap, ◌∙◌, arith, inl, inr, Bool-cases, ne→==, ℕ_discrete,
}
use multithreading.MsgQ.Names.{same_string}
use multithreading.Am.{Am}
use multithreading.Am.Apps.{find_app, has_name, set_handle}

pub record Table (a : Am) : Type 0 where
  pub bound : a.ui4_app_id ≤ 30
  pub free : (i : ℕ) → a.ui4_app_id ≤ i → a.ah_app i ≡ 0
  pub apart :
      (i j : ℕ)
      → i < a.ui4_app_id
      → j < a.ui4_app_id
      → i ≢ j
      → same_string (a.as_app_name i) (a.as_app_name j) ≡ false

module _ (test : ℕ → Bool) where
  -- The search finds the only place that passes the test.
  pub find_app_only :
      (left i k : ℕ)
      → i ≤ k
      → k < i + left
      → test k ≡ true
      → ((j : ℕ) → i ≤ j → j < k → test j ≡ false)
      → find_app test left i ≡ some k
  unfolding find_app
  find_app_only zero i k a b e o = absurd (omega arith)
  find_app_only (suc left) i k a b e o = elim (ℕ_discrete i k) [
    | yes p ↦ let here : test i ≡ true = ap test p ∙ e in rw here (ap some p)
    | no n ↦
        let on : test i ≡ false = o i (omega arith) (omega arith) in
        rw on (
          find_app_only left (suc i) k (omega arith) (omega arith) e (λ j c d. o j (omega arith) d))
  ]

  pub find_app-none :
      (left i : ℕ) → ((j : ℕ) → i ≤ j → j < i + left → test j ≡ false) → find_app test left i ≡ none
  unfolding find_app
  find_app-none zero i o = refl
  find_app-none (suc left) i o =
      let on : test i ≡ false = o i (omega arith) (omega arith) in
      rw on (find_app-none left (suc i) (λ j c d. o j (omega arith) (omega arith)))

-- What the search finds.
abbrev pub Hit : (test : ℕ → Bool) (left i : ℕ) → Option ℕ → Type 0
Hit test left i none = Unit
Hit test left i (some k) = (test k ≡ true) × (i ≤ k) × (k < i + left)

wider :
    (test : ℕ → Bool) (left i : ℕ) (o : Option ℕ)
    → Hit test left (suc i) o
    → Hit test (suc left) i o
wider test left i none h = tt
wider test left i (some k) (e, a, b) = (e, omega arith, omega arith)

pub find_app-Hit : (test : ℕ → Bool) (left i : ℕ) → Hit test left i (find_app test left i)
unfolding find_app
find_app-Hit test zero i = tt
find_app-Hit test (suc left) i = elim (Bool-cases (test i)) [
  | inl e ↦ rw e (e, omega arith, omega arith)
  | inr e ↦ rw e (wider test left i (find_app test left (suc i)) (find_app-Hit test left (suc i)))
]

pub same_string_refl : (s : List ℕ) → same_string s s ≡ true
same_string_refl [] = refl
same_string_refl (c ∷ s) = ground (arith, same_string_refl s)

pub same_string_eq : (s t : List ℕ) → same_string s t ≡ true → s ≡ t
same_string_eq [] [] e = refl
same_string_eq [] (d ∷ t) e = absurd cc
same_string_eq (c ∷ s) [] e = absurd cc
same_string_eq (c ∷ s) (d ∷ t) e =
    let (p, q) : (c ≡ d) × (same_string s t ≡ true) = (ground arith, ground arith) in
    rw (p, same_string_eq s t q) refl

-- A handle of an application of the table is set.
pub set_handle-Table : (i h : ℕ) (a : Am) → Table a → i < a.ui4_app_id → Table (set_handle i h a)
set_handle-Table i h a t b = record {
  bound = t.bound;
  free = λ k c. rw (ne→== i k (λ e. absurd (omega (arith, e)))) (t.free k c);
  apart = t.apart;
}

-- The name of the table is the only one.
pub only_name :
    (n : List ℕ) (a : Am) (k j : ℕ)
    → Table a
    → k < a.ui4_app_id
    → j < a.ui4_app_id
    → j ≢ k
    → has_name n a k ≡ true
    → has_name n a j ≡ false
only_name n a k j t b c d e =
    ap (λ s. same_string s (a.as_app_name j)) (same_string_eq n (a.as_app_name k) e)
    ∙ t.apart k j b c (λ x. d (sym x))
