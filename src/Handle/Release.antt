-- ===== src/Handle/Release.antt =====
-- mw/handle.c: `u_handle_free` and the handles that stay valid.
use multithreading.Prelude.{
  ℕ, ◌+◌, ◌*◌, ◌%◌, ◌^◌, ◌≤◌, ◌<◌, ◌≡◌, ◌≢◌, refl, Bool, true, false, none, List, ◌∷◌, ◌==◌,
  if◌then◌else◌, arith, Bool-cases, inl, inr, ap, sym, ◌∙◌, ◌&&◌, ne→==, eq→==,
}
use multithreading.Handle.State.{
  HCtrl, State, null_idx, Hr, ret, make_handle, names_ctrl, word_of, idx_of, count_of, high_byte,
}
use multithreading.Handle.Free.{
  Clients, give_back, set_freeing, call_free, finish_free, free_ctrl, u_handle_free,
}
use multithreading.Handle.Pool.{relabel, used-update, Pool, update_self, update_other}
use multithreading.Handle.Pool.Give.{returned, arr-give_back, same-give_back, give_back-Pool}
use multithreading.Handle.Lookup.{view, entry, value-parts, view-entry, view-none}

entry-give_back :
    (st t : State) (hi i j c n : ℕ)
    → t.num_total ≡ st.num_total
    → ((t.arr i).active ≡ false)
    → (j ≢ i → t.arr j ≡ st.arr j)
    → n ≡ (st.arr i).count
    → entry t hi j c ≡ (if (hi == 0) && (j == i) && (c == n) then none else entry st hi j c)
entry-give_back st t hi i j c n total off old e = elim (Bool-cases (j == i)) [
  | inl same ↦ ground arith
  | inr other ↦ ground (arith, old (ground arith))
]

view-give_back :
    (i h : ℕ) (st : State) (xs : List ℕ)
    → st.init ≡ true
    → 0 < i
    → i ≤ st.num_total
    → Pool st.num_total 0 st xs
    → view (give_back i st) h ≡ (if word_of h == make_handle st i then none else view st h)
unfolding make_handle
view-give_back i h st xs init pos le p =
    let (a, b, total, on, l) = same-give_back i st in
    rw (value-parts h i (st.arr i).count (omega (arith, p.bound)) (p.parity i pos le).0) (
      view-entry (give_back i st) h (on ∙ init)
      ∙ entry-give_back st (give_back i st) (high_byte h) i (idx_of h) (count_of h) (st.arr i).count
          total
          (ap (λ f. (f i).active) (arr-give_back i st)
            ∙ ap HCtrl.active (update_self st.arr i (returned st.free_handles (st.arr i))))
          (λ ne.
            ap (λ f. f (idx_of h)) (arr-give_back i st) ∙ update_other st.arr i (idx_of h) _ ne)
          refl
      ∙ rw (view-entry st h init))

module _ (i : ℕ) (st : State) (b : Bool) where
  entry-set_freeing : (hi j c : ℕ) → entry (set_freeing st i b) hi j c ≡ entry st hi j c
  entry-set_freeing hi j c = elim (Bool-cases (i == j)) [
    | inl same ↦ ground arith
    | inr other ↦ ground arith
  ]

  view-set_freeing : (h : ℕ) → st.init ≡ true → view (set_freeing st i b) h ≡ view st h
  view-set_freeing h init =
      view-entry (set_freeing st i b) h init
      ∙ entry-set_freeing (high_byte h) (idx_of h) (count_of h)
      ∙ sym (view-entry st h init)

  freeing-same :
      (j : ℕ)
      → (((set_freeing st i b).arr j).active ≡ (st.arr j).active)
        × (((set_freeing st i b).arr j).next ≡ (st.arr j).next)
  freeing-same j = ground arith

  set_freeing-Pool :
      (n : ℕ) (xs : List ℕ) → 0 < i → i ≤ n → Pool n 0 st xs → Pool n 0 (set_freeing st i b) xs
  set_freeing-Pool n xs pos le p = record {
    bound = p.bound;
    chain = relabel p.chain λ j. freeing-same j;
    counted = p.counted;
    balance =
        ground
          (arith, p.balance, used-update n st.arr i (record (st.arr i) { freeing = b }) pos le);
    parity = λ j a c. ground (arith, p.parity j, p.parity i);
  }

-- The structure that a valid handle names.
names-idx :
    (st : State) (h : ℕ)
    → names_ctrl st h ≡ true
    → (0 < idx_of h) × (idx_of h ≤ st.num_total) × ((st.arr (idx_of h)).active ≡ true)
names-idx st h e = ground arith

names-value : (st : State) (h : ℕ) → names_ctrl st h ≡ true → make_handle st (idx_of h) ≡ word_of h
unfolding make_handle
names-value st h e = ground arith

-- A valid handle that `u_handle_free` may free by itself: it is in no list, and its callback is the
-- caller's, answers `agrees`, and does not call the library.
pub record Freeable (k : Clients) (st : State) (h : ℕ) (req agrees : Bool) : Type 0 where
  pub names : names_ctrl st h ≡ true
  pub not_freeing : (st.arr (idx_of h)).freeing ≡ false
  pub not_linked : (st.arr (idx_of h)).linked ≡ false
  pub not_hooked : (st.arr (idx_of h)).aux_link_head ≡ null_idx
  pub callback : (st.arr (idx_of h)).pf_free ≢ 0
  pub of_client : (st.arr (idx_of h)).pf_free ≢ k.aux_fct
  pub answer :
      (s : State)
      → k.on_free
          (st.arr (idx_of h)).pf_free
          h
          (st.arr (idx_of h)).e_type
          (st.arr (idx_of h)).obj
          (st.arr (idx_of h)).tag
          req
          s
        ≡ (agrees, s)

-- The state after the callback was called.
abbrev asked : State → ℕ → State
asked st h = set_freeing st (idx_of h) true

module _ (k : Clients) (st : State) (h : ℕ) (req : Bool) where
  call_free-answer :
      (agrees : Bool)
      → Freeable k st h req agrees
      → call_free k
          (st.arr (idx_of h)).pf_free
          h
          (st.arr (idx_of h)).e_type
          (st.arr (idx_of h)).obj
          (st.arr (idx_of h)).tag
          req
          (asked st h)
        ≡ ret (agrees, asked st h)
  unfolding call_free
  call_free-answer agrees f = rw (
    ne→== (st.arr (idx_of h)).pf_free 0 f.callback,
    ne→== (st.arr (idx_of h)).pf_free k.aux_fct f.of_client,
    f.answer (asked st h),
  )

  asked_self : (asked st h).arr (idx_of h) ≡ record (st.arr (idx_of h)) { freeing = true }
  asked_self = update_self st.arr (idx_of h) _

  free_ctrl-agreed :
      Freeable k st h req true
      → free_ctrl k (idx_of h) h req st ≡ ret (true, give_back (idx_of h) (asked st h))
  unfolding free_ctrl finish_free
  free_ctrl-agreed f =
      let linked : ((asked st h).arr (idx_of h)).linked ≡ false =
        ap HCtrl.linked asked_self ∙ f.not_linked in
      let hooked : (((asked st h).arr (idx_of h)).aux_link_head == null_idx) ≡ true =
        eq→== _ _ (ap HCtrl.aux_link_head asked_self ∙ f.not_hooked) in
      rw (call_free-answer true f, free_ctrl) (rw (linked, hooked, finish_free))

  free_ctrl-refused :
      Freeable k st h req false
      → free_ctrl k (idx_of h) h req st ≡ ret (false, set_freeing (asked st h) (idx_of h) false)
  unfolding free_ctrl
  free_ctrl-refused f = rw (call_free-answer false f, free_ctrl)

  free-path :
      (b : Bool) (t : State)
      → st.init ≡ true
      → names_ctrl st h ≡ true
      → (st.arr (idx_of h)).freeing ≡ false
      → free_ctrl k (idx_of h) h req st ≡ ret (b, t)
      → u_handle_free k h req st ≡ ret (if b then Hr.ok else Hr.free_not_allowed, t)
  unfolding u_handle_free
  free-path true t init n f e = simp (init, n, f, e)
  free-path false t init n f e = simp (init, n, f, e)

  free-invalid :
      st.init ≡ true → view st h ≡ none → u_handle_free k h req st ≡ ret (Hr.inv_handle, st)
  unfolding u_handle_free
  free-invalid init e = simp (init, view-none st h init e)

asked-handle :
    (st : State) (h : ℕ) → make_handle (asked st h) (idx_of h) ≡ make_handle st (idx_of h)
unfolding make_handle
asked-handle st h =
    ap (λ (c : HCtrl). idx_of h % 2 ^ 16 + c.count * 2 ^ 16)
      (update_self st.arr (idx_of h) (record (st.arr (idx_of h)) { freeing = true }))

-- With a table in order, `u_handle_free` of a valid handle that is in no list, and whose callback
-- agrees and does not call the library, returns HR_OK and leaves the table in order with the
-- structure at the front of the free list. Exactly that handle is invalid from then on: every other
-- HANDLE_T has the type and the object that it had, and to free the handle again gives
-- HR_INV_HANDLE and changes nothing.
pub u_handle_free-view :
    (k : Clients) (st : State) (h : ℕ) (req : Bool) (xs : List ℕ)
    → st.init ≡ true
    → Pool st.num_total 0 st xs
    → Freeable k st h req true
    → (t : State) × (u_handle_free k h req st ≡ ret (Hr.ok, t))
      × Pool t.num_total 0 t (idx_of h ∷ xs)
      × ((g : ℕ) → view t g ≡ (if word_of g == word_of h then none else view st g))
      × ((again : Bool) → u_handle_free k h again t ≡ ret (Hr.inv_handle, t))
u_handle_free-view k st h req xs init p f =
    let i : ℕ = idx_of h in
    let s = asked st h in
    let (pos, le, on) = names-idx st h f.names in
    let q = set_freeing-Pool i st true st.num_total xs pos le p in
    let on' : (s.arr i).active ≡ true = ap HCtrl.active (asked_self k st h req) ∙ on in
    let (a, b, total, init', l) = same-give_back i s in
    let look : (g : ℕ)
        → view (give_back i s) g ≡ (if word_of g == word_of h then none else view st g) =
      λ g.
        view-give_back i g s xs init pos le q
        ∙ ap (λ w. if word_of g == w then none else view s g)
            (asked-handle st h ∙ names-value st h f.names)
        ∙ ap (λ v. if word_of g == word_of h then none else v)
            (view-set_freeing i st true g init) in
    (
      give_back i s,
      free-path k st h req true _ init f.names f.not_freeing (free_ctrl-agreed k st h req f),
      rw total (give_back-Pool i s st.num_total xs pos le on' q),
      look,
      λ again.
          free-invalid k (give_back i s) h again (init' ∙ init)
            (look h ∙ rw (eq→== (word_of h) (word_of h) refl)),
    )

-- If the callback refuses, `u_handle_free` returns HR_FREE_NOT_ALLOWED, every handle keeps its type
-- and its object, and the table is in order as before.
pub u_handle_free-refused :
    (k : Clients) (st : State) (h : ℕ) (req : Bool) (xs : List ℕ)
    → st.init ≡ true
    → Pool st.num_total 0 st xs
    → Freeable k st h req false
    → (t : State) × (u_handle_free k h req st ≡ ret (Hr.free_not_allowed, t))
      × Pool t.num_total 0 t xs
      × ((g : ℕ) → view t g ≡ view st g)
u_handle_free-refused k st h req xs init p f =
    let i : ℕ = idx_of h in
    let (pos, le, on) = names-idx st h f.names in
    (
      set_freeing (asked st h) i false,
      free-path k st h req false _ init f.names f.not_freeing (free_ctrl-refused k st h req f),
      set_freeing-Pool i (asked st h) false st.num_total xs pos le
          (set_freeing-Pool i st true st.num_total xs pos le p),
      λ g. view-set_freeing i (asked st h) false g init ∙ view-set_freeing i st true g init,
    )
