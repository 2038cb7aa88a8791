-- ===== src/Handle/Pool/Take.antt =====
-- mw/handle.c: `u_handle_alloc` on a table in order.
use multithreading.Prelude.{
  ℕ, ◌+◌, ◌≤◌, ◌<◌, ◌≡◌, ◌≢◌, ◌⊎◌, refl, true, false, List, ◌∷◌, leb, arith, Bool-cases, inl, inr,
  ap, subst, ◌∙◌, ne→==,
}
use multithreading.Handle.State.{
  HCtrl, State, update, null_idx, no_handle_type, Hr, ret, make_handle,
}
use multithreading.Handle.Alloc.{taken, hand_out, take_free, refill, realloc_num, u_handle_alloc}
use multithreading.Handle.Pool.{
  has, FreeChain, step, Pool, frame, used-update, update_self, update_other,
}
use multithreading.Handle.Pool.Fill.{realloc_handle-Pool}

module _ (e_type obj tag pf_free i : ℕ) (t : State) where
  pub arr-hand_out :
      (hand_out e_type obj tag pf_free i t).arr
      ≡ update t.arr i (taken e_type obj tag pf_free (t.arr i))
  arr-hand_out = ground arith

  same-hand_out :
      ((hand_out e_type obj tag pf_free i t).free_handles ≡ t.free_handles)
      × ((hand_out e_type obj tag pf_free i t).num_free ≡ t.num_free)
      × ((hand_out e_type obj tag pf_free i t).num_total ≡ t.num_total)
      × ((hand_out e_type obj tag pf_free i t).init ≡ t.init)
      × ((hand_out e_type obj tag pf_free i t).links ≡ t.links)
  same-hand_out = ground arith

  hand_out-Pool :
      (n : ℕ) (xs : List ℕ)
      → 0 < i
      → i ≤ n
      → (t.arr i).active ≡ false
      → has i xs ≡ false
      → Pool n 1 t xs
      → Pool n 0 (hand_out e_type obj tag pf_free i t) xs
  hand_out-Pool n xs pos le free out p =
      rw (arr-hand_out, same-hand_out.0, same-hand_out.1)
        (record {
          bound = p.bound;
          chain = frame (omega arith) p.chain (λ j h. ground arith);
          counted = p.counted;
          balance = ground (
            arith,
            p.balance,
            used-update n t.arr i (taken e_type obj tag pf_free (t.arr i)) pos le,
          );
          parity = λ j a b. ground (arith, p.parity j, p.parity i);
        })

uncons :
    {arr : ℕ → HCtrl} {n i p : ℕ} {xs : List ℕ}
    → FreeChain arr n p (i ∷ xs)
    → (p ≡ i)
      × (0 < p)
      × (p ≤ n)
      × ((arr p).active ≡ false)
      × (has p xs ≡ false)
      × FreeChain arr n (arr p).next xs
uncons (step ne small free out c) = (refl, omega arith, small, free, out, c)

module _ (n i : ℕ) (st : State) (xs : List ℕ) (p : Pool n 0 st (i ∷ xs)) where
  take_free-Pool : Pool n 1 (take_free st st.free_handles) xs
  take_free-Pool = record {
    bound = p.bound;
    chain = (uncons p.chain).5;
    counted = ground (arith, p.counted, p.balance);
    balance = ground (arith, p.counted, p.balance);
    parity = p.parity;
  }

-- What `u_handle_alloc` leaves, from a table `st`: the structure `i` is taken, all others up to the
-- old total are as before, and the table is in order.
pub record Taken (st t : State) (i e_type obj tag pf_free : ℕ) (ys : List ℕ) : Type 0 where
  pub pool : Pool t.num_total 0 t ys
  pub grown : st.num_total ≤ t.num_total
  pub init : t.init ≡ true
  pub new : t.arr i ≡ taken e_type obj tag pf_free (st.arr i)
  pub old : (j : ℕ) → j ≢ i → j ≤ st.num_total → t.arr j ≡ st.arr j
  pub fresh : (j : ℕ) → st.num_total < j → j ≤ t.num_total → (t.arr j).active ≡ false
  pub links : t.links ≡ st.links

-- Room for one more handle: more than 11 are free, or the table may grow.
abbrev pub HasRoom : State → Type 0
HasRoom st = (11 < st.num_free) ⊎ (st.num_total + realloc_num < 65536)

-- The growth of the table keeps what is in it.
record Refilled (st t : State) (xs ys : List ℕ) : Type 0 where
  pool : Pool t.num_total 1 t ys
  grown : st.num_total ≤ t.num_total
  init : t.init ≡ true
  old : (j : ℕ) → j ≤ st.num_total → t.arr j ≡ st.arr j
  fresh : (j : ℕ) → st.num_total < j → j ≤ t.num_total → (t.arr j).active ≡ false
  links : t.links ≡ st.links
  listed : (j : ℕ) → j ≤ st.num_total → has j ys ≡ has j xs

module _ (ctrl_size : ℕ) (size : 0 < ctrl_size) where
  refill-Pool :
      (st : State) (xs : List ℕ)
      → st.init ≡ true
      → Pool st.num_total 1 st xs
      → (10 < st.num_free) ⊎ (st.num_total + realloc_num < 65536)
      → (t : State) × (ys : List ℕ) × (refill ctrl_size true st ≡ ret (Hr.ok, t))
        × Refilled st t xs ys
  refill-Pool st xs init p room = elim (Bool-cases (leb st.num_free 10)) [
    | inl few ↦
        let (t, ys, e, total, on, q, len, old, links, listed, fresh) =
          realloc_handle-Pool ctrl_size realloc_num 1 st xs size (omega arith) (omega arith)
            (ground arith) p in
        (
          t,
          ys,
          rw few e,
          record {
            pool = q;
            grown = omega (arith, total);
            init = on;
            old = old;
            fresh = fresh;
            links = links;
            listed = listed;
          },
        )
    | inr many ↦ (
      st,
      xs,
      rw many refl,
      record {
        pool = p;
        grown = omega arith;
        init = init;
        old = λ j h. refl;
        fresh = λ j h k. absurd (omega arith);
        links = refl;
        listed = λ j h. refl;
      },
    )
  ]

  module _ (e_type obj tag pf_free : ℕ) (kind : e_type ≢ no_handle_type)
      (callback : pf_free ≢ 0) where
    Taken-hand_out :
        (st t : State) (xs ys : List ℕ)
        → Refilled (take_free st st.free_handles) t xs ys
        → (i : ℕ) → i ≤ st.num_total
        → Pool t.num_total 0 (hand_out e_type obj tag pf_free i t) ys
        → Taken st (hand_out e_type obj tag pf_free i t) i e_type obj tag pf_free ys
    Taken-hand_out st t xs ys r i le q =
        let (a, b, total, on, links) = same-hand_out e_type obj tag pf_free i t in
        let arr = arr-hand_out e_type obj tag pf_free i t in
        record {
          pool = rw total q;
          grown = omega (arith, total, r.grown);
          init = on ∙ r.init;
          new =
              ap (λ f. f i) arr
              ∙ update_self t.arr i _
              ∙ ap (taken e_type obj tag pf_free) (r.old i le);
          old = λ j ne h. ap (λ f. f j) arr ∙ update_other t.arr i j _ ne ∙ r.old j h;
          fresh = λ j h k.
              ap HCtrl.active (ap (λ f. f j) arr ∙ update_other t.arr i j _ (omega arith))
              ∙ r.fresh j h (omega (arith, total));
          links = links ∙ r.links;
        }

    -- The path through `u_handle_alloc` that hands out a structure.
    alloc-path :
        (st t : State)
        → st.init ≡ true
        → st.free_handles ≢ null_idx
        → refill ctrl_size true (take_free st st.free_handles) ≡ ret (Hr.ok, t)
        → u_handle_alloc ctrl_size true e_type obj tag pf_free true st
          ≡ ret (
            Hr.ok,
            make_handle (hand_out e_type obj tag pf_free st.free_handles t) st.free_handles,
            hand_out e_type obj tag pf_free st.free_handles t,
          )
    unfolding u_handle_alloc
    alloc-path st t init some_free e =
        rw (
          init,
          ne→== pf_free 0 callback,
          ne→== e_type 0 kind,
          ne→== st.free_handles 0 some_free,
          e,
        )

    pub u_handle_alloc-Taken :
        (st : State) (i : ℕ) (xs : List ℕ)
        → st.init ≡ true
        → HasRoom st
        → Pool st.num_total 0 st (i ∷ xs)
        → (t : State) × (ys : List ℕ) × (u_handle_alloc ctrl_size true e_type obj tag pf_free true
              st
            ≡ ret (Hr.ok, make_handle t i, t))
          × Taken st t i e_type obj tag pf_free ys
    u_handle_alloc-Taken st i xs init room p =
        let (first, pos, le, free, out, c) = uncons p.chain in
        let (t, ys, e, r) =
          refill-Pool (take_free st st.free_handles) xs init (take_free-Pool st.num_total i st xs p)
            (ground arith) in
        let same : t.arr st.free_handles ≡ st.arr st.free_handles = r.old st.free_handles le in
        let q =
          hand_out-Pool e_type obj tag pf_free st.free_handles t t.num_total ys pos
            (omega (arith, r.grown)) (ap HCtrl.active same ∙ free)
            (r.listed st.free_handles le ∙ out) r.pool in
        subst
          (λ k.
            (u : State) × (zs : List ℕ) × (u_handle_alloc ctrl_size true e_type obj tag pf_free true
                st
              ≡ ret (Hr.ok, make_handle u k, u))
            × Taken st u k e_type obj tag pf_free zs)
          first
          (
            hand_out e_type obj tag pf_free st.free_handles t,
            ys,
            alloc-path st t init (omega arith) e,
            Taken-hand_out st t xs ys r st.free_handles le q,
          )
