-- ===== src/Handle/Pool.antt =====
-- mw/handle.c: the pool of free structures. `FreeChain` follows `ui2_free_handles` through the
-- links of the free structures; `Pool` is what holds of the table between the calls.
pub mod Fill
pub mod Take
pub mod Give
pub mod Limits
pub use multithreading.Prelude.{has}
use multithreading.Prelude.{
  ℕ, zero, suc, ◌+◌, ◌-◌, ◌*◌, ◌/◌, ◌%◌, ◌^◌, ◌≤◌, ◌<◌, ◌≡◌, ◌≢◌, refl, Bool, true, false, List, [],
  ◌∷◌, ◌==◌, ◌||◌, if◌then◌else◌, length, arith, inl, inr, Bool-cases, sym, subst, ◌∙◌,
}
use multithreading.Handle.State.{HCtrl, State, update, null_idx}

-- From `i` the free list leads through the distinct, free structures `xs` of the first `n` to its
-- end.
pub data FreeChain (arr : ℕ → HCtrl) (n : ℕ) : ℕ → List ℕ → Type 0 where
  end : FreeChain arr n null_idx []
  step :
      {i : ℕ} {xs : List ℕ}
      → i ≢ null_idx
      → i ≤ n
      → (arr i).active ≡ false
      → has i xs ≡ false
      → FreeChain arr n (arr i).next xs
      → FreeChain arr n i (i ∷ xs)

abbrev pub bit : Bool → ℕ
bit true = 1
bit false = 0

-- The number of structures in use among the first `n`.
unfoldable pub used : ℕ → (ℕ → HCtrl) → ℕ
used zero arr = 0
used (suc n) arr = used n arr + bit (arr (suc n)).active

-- `out` structures are neither in use nor on the free list: one, while `u_handle_alloc` runs.
pub record PoolOf (n out : ℕ) (arr : ℕ → HCtrl) (first free : ℕ) (xs : List ℕ) : Type 0 where
  pub bound : n < 65536
  pub chain : FreeChain arr n first xs
  pub counted : free ≡ length xs
  pub balance : free + used n arr + out ≡ n
  -- the count is odd exactly while the structure is in use
  pub parity :
      (i : ℕ) → 0 < i → i ≤ n → ((arr i).count < 256) × ((arr i).count % 2 ≡ bit (arr i).active)

abbrev pub Pool : (n out : ℕ) → State → List ℕ → Type 0
Pool n out st xs = PoolOf n out st.arr st.free_handles st.num_free xs

module _ {arr : ℕ → HCtrl} {n : ℕ} where
  -- The chain depends on the structures that it goes through, and on their place in the table.
  pub frame :
      {brr : ℕ → HCtrl} {m i : ℕ} {xs : List ℕ}
      → n ≤ m
      → FreeChain arr n i xs
      → ((j : ℕ) → has j xs ≡ true → brr j ≡ arr j)
      → FreeChain brr m i xs
  frame le end same = end
  frame {brr} {m} le (step {i} {xs} ne small free out c) same =
      let e : brr i ≡ arr i = same i (ground arith) in
      let rest : FreeChain brr m (arr i).next xs = frame le c (λ j h. same j (ground arith)) in
      step ne (omega arith) (rw e free) out (rw e rest)

  pub relabel :
      {brr : ℕ → HCtrl} {i : ℕ} {xs : List ℕ}
      → FreeChain arr n i xs
      → ((j : ℕ) → ((brr j).active ≡ (arr j).active) × ((brr j).next ≡ (arr j).next))
      → FreeChain brr n i xs
  relabel end same = end
  relabel {brr} (step {i} {xs} ne small free out c) same =
      step ne small ((same i).0 ∙ free) out
        (subst (λ q. FreeChain brr n q xs) (sym (same i).1) (relabel c same))

  pub FreeChain-bound :
      {i : ℕ} {xs : List ℕ} (j : ℕ)
      → FreeChain arr n i xs
      → has j xs ≡ true
      → (0 < j) × (j ≤ n) × ((arr j).active ≡ false)
  FreeChain-bound j end h = absurd (cc)
  FreeChain-bound j (step {i} ne small free out c) h = elim (Bool-cases (i == j)) [
    | inl e ↦ ground arith
    | inr e ↦ FreeChain-bound j c (ground arith)
  ]

pub update_self : (arr : ℕ → HCtrl) (i : ℕ) (c : HCtrl) → update arr i c i ≡ c
update_self arr i c = ground arith

pub update_other : (arr : ℕ → HCtrl) (i j : ℕ) (c : HCtrl) → j ≢ i → update arr i c j ≡ arr j
update_other arr i j c ne = ground arith

used-update_of_lt :
    (n : ℕ) (arr : ℕ → HCtrl) (i : ℕ) (c : HCtrl) → n < i → used n (update arr i c) ≡ used n arr
unfolding used
used-update_of_lt zero arr i c h = refl
used-update_of_lt (suc n) arr i c h = ground (arith, used-update_of_lt n arr i c)

-- A write to one structure changes the number by what it changes there.
pub used-update :
    (n : ℕ) (arr : ℕ → HCtrl) (i : ℕ) (c : HCtrl)
    → 0 < i
    → i ≤ n
    → used n (update arr i c) + bit (arr i).active ≡ used n arr + bit c.active
unfolding used
used-update zero arr i c pos h = absurd (omega arith)
used-update (suc n) arr i c pos h = elim (Bool-cases (i == suc n)) [
  | inl last ↦ ground (arith, used-update_of_lt n arr i c)
  | inr below ↦ ground (arith, used-update n arr i c)
]

pub used-le : (n : ℕ) (arr : ℕ → HCtrl) → used n arr ≤ n
unfolding used
used-le zero arr = omega arith
used-le (suc n) arr = ground (arith, used-le n arr)
