-- ===== src/Handle/Pool/Give.antt =====
-- mw/handle.c: `u_handle_free` on a table in order.
use multithreading.Prelude.{
  ℕ, ◌%◌, ◌^◌, ◌≤◌, ◌<◌, ◌≡◌, true, false, List, ◌∷◌, inc16, inc8, arith, Bool-cases, inl, inr, ap,
  sym, subst,
}
use multithreading.Handle.State.{HCtrl, State, update, null_idx}
use multithreading.Handle.Free.{give_back}
use multithreading.Handle.Pool.{
  has, FreeChain, step, Pool, frame, FreeChain-bound, used-update, update_self,
}

-- A structure that goes back, with the rest of the list behind it.
abbrev pub returned : ℕ → HCtrl → HCtrl
returned next c = record c { count = inc8 c.count; active = false; next = next; prev = null_idx }

module _ (i : ℕ) (st : State) where
  pub arr-give_back : (give_back i st).arr ≡ update st.arr i (returned st.free_handles (st.arr i))
  unfolding give_back
  arr-give_back = ground arith

  pub same-give_back :
      ((give_back i st).free_handles ≡ i % 2 ^ 16)
      × ((give_back i st).num_free ≡ inc16 st.num_free)
      × ((give_back i st).num_total ≡ st.num_total)
      × ((give_back i st).init ≡ st.init)
      × ((give_back i st).links ≡ st.links)
  unfolding give_back
  same-give_back = ground arith

  module _ (n : ℕ) (xs : List ℕ) (pos : 0 < i) (le : i ≤ n) (on : (st.arr i).active ≡ true)
      (p : Pool n 0 st xs) where
    free-not-has : has i xs ≡ false
    free-not-has = elim (Bool-cases (has i xs)) [
      | inl h ↦ ground (arith, FreeChain-bound i p.chain h)
      | inr h ↦ h
    ]

    brr : ℕ → HCtrl
    brr = update st.arr i (returned st.free_handles (st.arr i))

    give_back-chain : FreeChain brr n i (i ∷ xs)
    unfolding brr
    give_back-chain =
        let e : brr i ≡ returned st.free_handles (st.arr i) = update_self st.arr i _ in
        step (omega arith) le (ap HCtrl.active e) free-not-has (
          subst (λ k. FreeChain brr n k xs) (sym (ap HCtrl.next e))
            (frame (omega arith) p.chain λ j h. ground (arith, free-not-has)))

    -- The structure is one of the free ones, and its count is even again.
    pub give_back-Pool : Pool n 0 (give_back i st) (i ∷ xs)
    unfolding brr
    give_back-Pool =
        rw (arr-give_back, same-give_back.0, same-give_back.1)
          (record {
            bound = p.bound;
            chain =
                subst (λ k. FreeChain brr n k (i ∷ xs)) (omega (arith, p.bound)) give_back-chain;
            counted = ground (
              arith,
              p.counted,
              p.balance,
              p.bound,
              used-update n st.arr i (returned st.free_handles (st.arr i)) pos le,
            );
            balance = ground (
              arith,
              p.counted,
              p.balance,
              p.bound,
              used-update n st.arr i (returned st.free_handles (st.arr i)) pos le,
            );
            parity = λ j a b. ground (arith, p.parity j, p.parity i);
          })
