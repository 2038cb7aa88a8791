-- ===== src/Handle/Lookup.antt =====
-- mw/handle.c: the handles that are valid, as a partial map from HANDLE_T to a type and an object.
use multithreading.Prelude.{
  ℕ, ◌+◌, ◌*◌, ◌%◌, ◌^◌, ◌≤◌, ◌<◌, ◌≡◌, ◌≢◌, true, false, Option, none, some, List, ◌∷◌, ◌==◌, ltb,
  leb, if◌then◌else◌, arith, Bool-cases, inl, inr, ap, sym, subst, ◌∙◌, ◌&&◌, ==_iff,
}
use multithreading.Handle.State.{
  HCtrl, State, set_ctrl, null_idx, no_handle_type, Hr, ret, make_handle, names_ctrl, word_of,
  idx_of, count_of, high_byte,
}
use multithreading.Handle.Alloc.{u_handle_alloc}
use multithreading.Handle.Access.{u_handle_get_type_obj, u_handle_set_obj}
use multithreading.Handle.Pool.{has, FreeChain-bound, Pool}
use multithreading.Handle.Pool.Take.{Taken, HasRoom, u_handle_alloc-Taken}

-- What `u_handle_get_type_obj` gives to a caller with both pointers.
abbrev pub view : State → ℕ → Option (ℕ × ℕ)
view st h = (u_handle_get_type_obj st h true).1

-- The value of the handle of the structure `i` with the count `n`.
abbrev pub value : (i n : ℕ) → ℕ
value i n = i % 2 ^ 16 + n * 2 ^ 16

-- A handle has the 32 bits of `value i n` exactly if its parts are these.
pub value-parts :
    (h i n : ℕ)
    → i < 65536
    → n < 256
    → (word_of h == value i n) ≡ ((high_byte h == 0) && (idx_of h == i) && (count_of h == n))
value-parts h i n small few = ground arith

-- `view` by the parts of a handle.
abbrev pub entry : State → (hi j c : ℕ) → Option (ℕ × ℕ)
entry st hi j c =
    if (hi == 0)
      && ltb null_idx j
      && leb j st.num_total
      && ((st.arr j).count == c)
      && (st.arr j).active
    then some ((st.arr j).e_type, (st.arr j).obj)
    else none

pub view-entry :
    (st : State) (h : ℕ)
    → st.init ≡ true
    → view st h ≡ entry st (high_byte h) (idx_of h) (count_of h)
unfolding u_handle_get_type_obj
view-entry st h init = ground arith

-- The structure that is taken.
entry-new :
    (st t : State) (hi i c e_type obj n : ℕ)
    → 0 < i
    → i ≤ st.num_total
    → i ≤ t.num_total
    → (st.arr i).active ≡ false
    → (t.arr i).active ≡ true
    → (t.arr i).e_type ≡ e_type
    → (t.arr i).obj ≡ obj
    → entry t hi i c ≡ (
        if (hi == 0) && (i == i) && (c == (t.arr i).count)
        then some (e_type, obj)
        else entry st hi i c)
entry-new st t hi i c e_type obj n pos le le' free on e o = ground arith

-- Any other structure.
entry-old :
    (st t : State) (hi i j c : ℕ) (v : ℕ × ℕ) (n : ℕ)
    → j ≢ i
    → st.num_total ≤ t.num_total
    → (j ≤ st.num_total → t.arr j ≡ st.arr j)
    → (st.num_total < j → j ≤ t.num_total → (t.arr j).active ≡ false)
    → entry t hi j c ≡ (if (hi == 0) && (j == i) && (c == n) then some v else entry st hi j c)
entry-old st t hi i j c v n ne le old fresh = ground arith

head-has : (i : ℕ) (xs : List ℕ) → has i (i ∷ xs) ≡ true
head-has i xs = ground arith

module _ {st t : State} {i e_type obj tag pf_free : ℕ} {ys : List ℕ} where
  entry-alloc :
      (hi j c : ℕ)
      → Taken st t i e_type obj tag pf_free ys
      → 0 < i
      → i ≤ st.num_total
      → (st.arr i).active ≡ false
      → entry t hi j c ≡ (
          if (hi == 0) && (j == i) && (c == (t.arr i).count)
          then some (e_type, obj)
          else entry st hi j c)
  entry-alloc hi j c k pos le free = elim (Bool-cases (j == i)) [
    | inl same ↦
        subst
          (λ x. entry t hi x c ≡ (
            if (hi == 0) && (x == i) && (c == (t.arr i).count)
            then some (e_type, obj)
            else entry st hi x c))
          (sym ((==_iff j i).0 same))
          (entry-new st t hi i c e_type obj 0 pos le (omega (arith, k.grown)) free
            (ap HCtrl.active k.new) (ap HCtrl.e_type k.new) (ap HCtrl.obj k.new))
    | inr other ↦
        entry-old st t hi i j c (e_type, obj) (t.arr i).count (ground arith) k.grown
          (k.old j (ground arith)) (k.fresh j)
  ]

  pub view-Taken :
      (h : ℕ)
      → Taken st t i e_type obj tag pf_free ys
      → st.init ≡ true
      → 0 < i
      → i ≤ st.num_total
      → (st.arr i).active ≡ false
      → view t h ≡ (if word_of h == make_handle t i then some (e_type, obj) else view st h)
  unfolding make_handle
  view-Taken h k init pos le free =
      let count = k.pool.parity i pos (omega (arith, k.grown)) in
      rw
        (
          view-entry t h k.init,
          view-entry st h init,
          value-parts h i (t.arr i).count (omega (arith, k.pool.bound, k.grown)) count.0,
        )
        (entry-alloc (high_byte h) (idx_of h) (count_of h) k pos le free)

-- With a table in order and room for one more handle, `u_handle_alloc` returns HR_OK, leaves the
-- table in order, and adds exactly one valid handle, the one that it returns, with the type and the
-- object that were given: a HANDLE_T is valid afterwards if its lower 32 bits are the new handle, or
-- if it was valid before, and then with the type and the object that it had.
pub u_handle_alloc-view :
    (ctrl_size e_type obj tag pf_free i : ℕ) (st : State) (xs : List ℕ)
    → 0 < ctrl_size
    → e_type ≢ no_handle_type
    → pf_free ≢ 0
    → st.init ≡ true
    → HasRoom st
    → Pool st.num_total 0 st (i ∷ xs)
    → (t : State) × (ys : List ℕ) × (u_handle_alloc ctrl_size true e_type obj tag pf_free true st
        ≡ ret (Hr.ok, make_handle t i, t))
      × Pool t.num_total 0 t ys
      × ((h : ℕ)
          → view t h ≡ (if word_of h == make_handle t i then some (e_type, obj) else view st h))
u_handle_alloc-view ctrl_size e_type obj tag pf_free i st xs size kind callback init room p =
    let (t, ys, e, k) =
      u_handle_alloc-Taken ctrl_size size e_type obj tag pf_free kind callback st i xs init room
        p in
    let (pos, le, free) = FreeChain-bound i p.chain (head-has i xs) in
    (t, ys, e, k.pool, λ h. view-Taken h k init pos le free)

pub view-none : (st : State) (h : ℕ) → st.init ≡ true → view st h ≡ none → names_ctrl st h ≡ false
unfolding u_handle_get_type_obj
view-none st h init e = ground arith

pub view-some :
    (st : State) (h e_type obj : ℕ)
    → st.init ≡ true
    → view st h ≡ some (e_type, obj)
    → (names_ctrl st h ≡ true) × ((st.arr (idx_of h)).e_type ≡ e_type)
unfolding u_handle_get_type_obj
view-some st h e_type obj init e = ground arith

set_obj-none :
    (h obj : ℕ) (st : State)
    → st.init ≡ true
    → obj ≢ 0
    → names_ctrl st h ≡ false
    → u_handle_set_obj h obj st ≡ (Hr.inv_handle, st)
unfolding u_handle_set_obj
set_obj-none h obj st init some_obj n = ground arith

-- The state with another object for the handle.
abbrev with_obj : (h obj : ℕ) → State → State
with_obj h obj st = set_ctrl st (idx_of h) (record (st.arr (idx_of h)) { obj = obj })

set_obj-some :
    (h obj : ℕ) (st : State)
    → st.init ≡ true
    → obj ≢ 0
    → names_ctrl st h ≡ true
    → u_handle_set_obj h obj st ≡ (Hr.ok, with_obj h obj st)
unfolding u_handle_set_obj
set_obj-some h obj st init some_obj n = ground arith

same-word :
    (g h : ℕ)
    → (word_of g == word_of h)
      ≡ ((high_byte g == high_byte h) && (idx_of g == idx_of h) && (count_of g == count_of h))
same-word g h = ground arith

entry-set_obj :
    (st : State) (hi j c hi' i c' obj e_type old : ℕ)
    → entry st hi' i c' ≡ some (e_type, old)
    → entry (set_ctrl st i (record (st.arr i) { obj = obj })) hi j c
      ≡ (if (hi == hi') && (j == i) && (c == c') then some (e_type, obj) else entry st hi j c)
entry-set_obj st hi j c hi' i c' obj e_type old e = elim (Bool-cases (j == i)) [
  | inl same ↦ ground arith
  | inr other ↦ ground arith
]

view-set_obj :
    (h g obj e_type old : ℕ) (st : State)
    → st.init ≡ true
    → view st h ≡ some (e_type, old)
    → view (with_obj h obj st) g
      ≡ (if word_of g == word_of h then some (e_type, obj) else view st g)
view-set_obj h g obj e_type old st init e =
    view-entry (with_obj h obj st) g init
    ∙ entry-set_obj st (high_byte g) (idx_of g) (count_of g) (high_byte h) (idx_of h) (count_of h)
        obj e_type old (sym (view-entry st h init) ∙ e)
    ∙ rw (same-word g h, view-entry st g init)

-- `u_handle_set_obj` of a valid handle, with an object that is not NULL, returns HR_OK and changes
-- the object of that handle and nothing else that a caller can see.
pub u_handle_set_obj-view :
    (h obj e_type old : ℕ) (st : State)
    → st.init ≡ true
    → obj ≢ 0
    → view st h ≡ some (e_type, old)
    → ((u_handle_set_obj h obj st).0 ≡ Hr.ok)
      × ((g : ℕ)
          → view (u_handle_set_obj h obj st).1 g
            ≡ (if word_of g == word_of h then some (e_type, obj) else view st g))
u_handle_set_obj-view h obj e_type old st init some_obj e =
    let path = set_obj-some h obj st init some_obj (view-some st h e_type old init e).0 in
    (
      ap (λ r. r.0) path,
      λ g. ap (λ (r : Hr × State). view r.1 g) path ∙ view-set_obj h g obj e_type old st init e,
    )

-- `u_handle_set_obj` of an invalid handle, with an object that is not NULL, returns HR_INV_HANDLE and
-- changes nothing.
pub u_handle_set_obj-invalid :
    (h obj : ℕ) (st : State)
    → st.init ≡ true
    → obj ≢ 0
    → view st h ≡ none
    → u_handle_set_obj h obj st ≡ (Hr.inv_handle, st)
u_handle_set_obj-invalid h obj st init some_obj e =
    set_obj-none h obj st init some_obj (view-none st h init e)
