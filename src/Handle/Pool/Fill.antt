-- ===== src/Handle/Pool/Fill.antt =====
-- mw/handle.c: the loops that fill the table, in `handle_init` and `realloc_handle_init`.
use multithreading.Prelude.{
  ℕ, zero, suc, ◌+◌, ◌-◌, ◌*◌, ◌%◌, ◌^◌, ◌≤◌, ◌<◌, ◌≡◌, refl, true, false, none, some, List, ◌∷◌,
  ◌==◌, ltb, inc16, not, ◌&&◌, length, arith, Bool-cases, inl, inr, ap, sym, subst, ◌∙◌,
}
use multithreading.Handle.State.{HCtrl, State, blank, Hr, ret}
use multithreading.Handle.Alloc.{add_free, fill, realloc_handle, max_num_handles}
use multithreading.Handle.Pool.{
  has, FreeChain, step, bit, used, Pool, frame, FreeChain-bound, used-update_of_lt,
}

-- The loop touches neither what was in the table nor the other variables.
pub record SameBelow (n : ℕ) (st t : State) : Type 0 where
  pub arr : (j : ℕ) → j ≤ n → t.arr j ≡ st.arr j
  pub num_total : t.num_total ≡ st.num_total
  pub peak : t.num_peak_used ≡ st.num_peak_used
  pub grp : t.num_used_per_grp ≡ st.num_used_per_grp
  pub autofree : t.autofree ≡ st.autofree
  pub links : t.links ≡ st.links
  pub init : t.init ≡ st.init

module _ (n out : ℕ) (st : State) (xs : List ℕ) (p : Pool n out st xs) (room : n + 1 < 65536) where
  add_free-parity :
      (i : ℕ)
      → 0 < i
      → i ≤ suc n
      → (((add_free n st).arr i).count < 256)
        × (((add_free n st).arr i).count % 2 ≡ bit ((add_free n st).arr i).active)
  add_free-parity i pos le = ground (arith, p.parity i)

  add_free-new : (add_free n st).arr (suc n) ≡ blank st.free_handles
  add_free-new = ground arith

  add_free-old : (j : ℕ) → j ≤ n → (add_free n st).arr j ≡ st.arr j
  add_free-old j h = ground arith

  not-has : has (suc n) xs ≡ false
  not-has = elim (Bool-cases (has (suc n) xs)) [
    | inl h ↦ let (a, b, d) = FreeChain-bound (suc n) p.chain h in absurd (omega arith)
    | inr h ↦ h
  ]

  add_free-chain : FreeChain (add_free n st).arr (suc n) (inc16 n) (suc n ∷ xs)
  add_free-chain =
      let rest : FreeChain (add_free n st).arr (suc n) st.free_handles xs =
        frame (omega arith) p.chain (λ j h. add_free-old j (FreeChain-bound j p.chain h).1) in
      let free : ((add_free n st).arr (suc n)).active ≡ false = ap HCtrl.active add_free-new in
      let next : ((add_free n st).arr (suc n)).next ≡ st.free_handles =
        ap HCtrl.next add_free-new in
      subst (λ i. FreeChain (add_free n st).arr (suc n) i (suc n ∷ xs)) (omega arith)
        (step (omega arith) (omega arith) free not-has
          (subst (λ i. FreeChain (add_free n st).arr (suc n) i xs) (sym next) rest))

  add_free-Pool : Pool (suc n) out (add_free n st) (suc n ∷ xs)
  unfolding used
  add_free-Pool = record {
    bound = omega arith;
    chain = add_free-chain;
    counted = ground (arith, p.counted, p.balance);
    balance =
        ground
          (arith, p.counted, p.balance, used-update_of_lt n st.arr (n + 1) (blank st.free_handles));
    parity = add_free-parity;
  }

add_free-SameBelow :
    (n : ℕ) (st t : State) → n + 1 < 65536 → SameBelow (suc n) (add_free n st) t → SameBelow n st t
add_free-SameBelow n st t room s = record {
  arr = λ j h. ground (arith, s.arr j);
  num_total = s.num_total;
  peak = s.peak;
  grp = s.grp;
  autofree = s.autofree;
  links = s.links;
  init = s.init;
}

add_free-new' :
    (idx : ℕ) (st : State) (j : ℕ) → j ≡ suc idx → ((add_free idx st).arr j).active ≡ false
add_free-new' idx st j e = ground arith

fill-step :
    (fuel idx limit : ℕ) (st : State)
    → ltb idx limit ≡ true
    → idx + 1 < 65536
    → fill (suc fuel) idx limit st ≡ fill fuel (suc idx) limit (add_free idx st)
unfolding fill
fill-step fuel idx limit st more small =
    rw more (ap (λ i. fill fuel i limit (add_free idx st)) (omega arith))

pub fill_lem :
    (fuel idx limit out : ℕ) (st : State) (xs : List ℕ)
    → limit < 65536
    → idx ≤ limit
    → limit < fuel + idx
    → Pool idx out st xs
    → (t : State) × (ys : List ℕ) × (fill fuel idx limit st ≡ some t)
      × Pool limit out t ys
      × SameBelow idx st t
      × (length ys ≡ length xs + (limit - idx))
      × ((j : ℕ) → j ≤ idx → has j ys ≡ has j xs)
      × ((j : ℕ) → idx < j → j ≤ limit → (t.arr j).active ≡ false)
unfolding fill
fill_lem zero idx limit out st xs small le enough p = absurd (omega arith)
fill_lem (suc fuel) idx limit out st xs small le enough p = elim (Bool-cases (ltb idx limit)) [
  | inl more ↦
      let q = add_free-Pool idx out st xs p (ground arith) in
      let (t, ys, e, r, s, len, old, fresh) =
        fill_lem fuel (suc idx) limit out (add_free idx st) (suc idx ∷ xs) small (ground arith)
          (omega arith) q in
      (
        t,
        ys,
        fill-step fuel idx limit st more (ground arith) ∙ e,
        r,
        add_free-SameBelow idx st t (ground arith) s,
        ground arith,
        λ j h. ground (arith, old j),
        λ j h k. ground (arith, fresh j, s.arr j, add_free-new' idx st j),
      )
  | inr stop ↦
      let here : idx ≡ limit = ground arith in
      (
        st,
        xs,
        rw stop refl,
        subst (λ i. Pool i out st xs) here p,
        record {
          arr = λ j h. refl;
          num_total = refl;
          peak = refl;
          grp = refl;
          autofree = refl;
          links = refl;
          init = refl;
        },
        omega arith,
        λ j h. refl,
        λ j h k. absurd (omega arith),
      )
]

-- The counter of the loop is 16 bits wide and its limit is not: with a limit of 65536 or more the
-- loop has no end.
pub fill-endless :
    (fuel idx limit : ℕ) (st : State) → 65536 ≤ limit → idx < 65536 → fill fuel idx limit st ≡ none
unfolding fill
fill-endless zero idx limit st big small = refl
fill-endless (suc fuel) idx limit st big small =
    ground (arith, fill-endless fuel (inc16 idx) limit (add_free idx st) big)

realloc_handle-fill :
    (ctrl_size add : ℕ) (st : State) {t : State}
    → 0 < ctrl_size
    → 0 < add
    → add < max_num_handles
    → fill (add + 1) st.num_total (st.num_total + add) st ≡ some t
    → realloc_handle ctrl_size true add st
      ≡ ret (Hr.ok, record t { num_total = (t.num_total + add) % 2 ^ 16; init = true })
unfolding realloc_handle
realloc_handle-fill ctrl_size add st size pos few e =
    let a : ltb 0 add ≡ true = ground arith in
    let b : (ltb add max_num_handles && not (ctrl_size * (st.num_total + add + 5) == 0)) ≡ true =
      ground arith in
    let c : ltb (ctrl_size * (add + 1)) (ctrl_size * (st.num_total + add + 5)) ≡ true =
      ground arith in
    rw (a, b, c, e)

-- `realloc_handle`, with memory, returns HR_OK and adds `add` free structures behind those of the
-- table, as long as the new total fits in 16 bits; the structures of the table and the lists of the
-- callers are as before.
pub realloc_handle-Pool :
    (ctrl_size add out : ℕ) (st : State) (xs : List ℕ)
    → 0 < ctrl_size
    → 0 < add
    → add < max_num_handles
    → st.num_total + add < 65536
    → Pool st.num_total out st xs
    → (t : State) × (ys : List ℕ) × (realloc_handle ctrl_size true add st ≡ ret (Hr.ok, t))
      × (t.num_total ≡ st.num_total + add)
      × (t.init ≡ true)
      × Pool t.num_total out t ys
      × (length ys ≡ length xs + add)
      × ((j : ℕ) → j ≤ st.num_total → t.arr j ≡ st.arr j)
      × (t.links ≡ st.links)
      × ((j : ℕ) → j ≤ st.num_total → has j ys ≡ has j xs)
      × ((j : ℕ) → st.num_total < j → j ≤ t.num_total → (t.arr j).active ≡ false)
realloc_handle-Pool ctrl_size add out st xs size pos few small p =
    let (t, ys, e, q, s, len, old, fresh) =
      fill_lem (add + 1) st.num_total (st.num_total + add) out st xs small (omega arith)
        (omega arith) p in
    let total : (t.num_total + add) % 2 ^ 16 ≡ st.num_total + add = omega (arith, s.num_total) in
    (
      record t { num_total = (t.num_total + add) % 2 ^ 16; init = true },
      ys,
      realloc_handle-fill ctrl_size add st size pos few e,
      total,
      refl,
      rw total q,
      omega (arith, len),
      s.arr,
      s.links,
      old,
      λ j h k. fresh j h (omega arith),
    )
