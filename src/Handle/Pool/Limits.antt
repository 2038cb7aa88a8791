-- ===== src/Handle/Pool/Limits.antt =====
-- mw/handle.c: the first state of the table, and where its growth ends.
use multithreading.Prelude.{
  ℕ, ◌+◌, ◌-◌, ◌*◌, ◌/◌, ◌%◌, ◌^◌, ◌≤◌, ◌<◌, ◌≡◌, ◌≢◌, refl, true, false, none, some, List, [],
  ◌==◌, ltb, leb, length, arith, ap, ne→==,
}
use multithreading.Handle.State.{
  State, null_idx, no_handle_type, Hr, ret, fault, unfinished, group_size, nb_groups,
}
use multithreading.Handle.Alloc.{
  adjusted, new_size, cleared, fill, max_num_handles, realloc_num, realloc_handle, handle_init,
  u_handle_alloc, take_free, refill,
}
use multithreading.Handle.Access.{u_handle_get_type_obj, u_handle_autofree}
use multithreading.Handle.Pool.{end, used, Pool}
use multithreading.Handle.Pool.Fill.{fill_lem, fill-endless}

empty-Pool : (st : State) (n : ℕ) → Pool 0 0 (cleared st n) []
unfolding used
empty-Pool st n = record {
  bound = omega arith;
  chain = end;
  counted = refl;
  balance = refl;
  parity = λ i a b. absurd (omega arith);
}

init-fill :
    (ctrl_size n addr size : ℕ) (st : State) {t : State}
    → st.init ≡ false
    → 0 < n
    → n < max_num_handles
    → addr ≢ 0
    → ctrl_size * (n + 1) + addr % 4 < size
    → size < 2 ^ 64
    → fill (n + 1) 0 n (cleared st n) ≡ some t
    → handle_init ctrl_size n true addr size st
      ≡ ret (
        Hr.ok,
        adjusted addr % 2 ^ 32 + ctrl_size * (n + 1),
        new_size addr size - ctrl_size * (n + 1),
        record t { init = true },
      )
unfolding handle_init
init-fill ctrl_size n addr size st off pos few real enough wide e =
    let a : ltb 0 n ≡ true = ground arith in
    let b : ltb n max_num_handles ≡ true = ground arith in
    let c : (addr == 0) ≡ false = ne→== addr 0 real in
    let d : (size == 0) ≡ false = ne→== size 0 (omega arith) in
    let g : new_size addr size ≡ size - addr % 4 = omega (arith, enough, wide) in
    let f : ltb (ctrl_size * (n + 1)) (new_size addr size) ≡ true = ground (arith, g) in
    simp (e, a, b, c, d, f) (simp off)

-- On a library that is not set up, `handle_init` with a chunk of memory that is large enough returns
-- HR_OK and leaves `n` structures, all of them free, on a free list of that length, with no handle
-- in use.
pub handle_init-Pool :
    (ctrl_size n addr size : ℕ) (st : State)
    → st.init ≡ false
    → 0 < n
    → n < max_num_handles
    → addr ≢ 0
    → ctrl_size * (n + 1) + addr % 4 < size
    → size < 2 ^ 64
    → (t : State) × (ys : List ℕ) × (handle_init ctrl_size n true addr size st
        ≡ ret (
          Hr.ok,
          adjusted addr % 2 ^ 32 + ctrl_size * (n + 1),
          new_size addr size - ctrl_size * (n + 1),
          t,
        ))
      × Pool n 0 t ys
      × (length ys ≡ n)
      × (used n t.arr ≡ 0)
      × (t.num_total ≡ n)
      × (t.init ≡ true)
handle_init-Pool ctrl_size n addr size st off pos few real enough wide =
    let (t, ys, e, q, s, len, old, fresh) =
      fill_lem (n + 1) 0 n 0 (cleared st n) [] (omega arith) (omega arith) (omega arith)
        (empty-Pool st n) in
    (
      record t { init = true },
      ys,
      init-fill ctrl_size n addr size st off pos few real enough wide e,
      q,
      omega (arith, len),
      omega (arith, q.balance, q.counted, len),
      s.num_total,
      refl,
    )

-- The start address that `handle_init` works out is a multiple of 4 exactly if the address that it is
-- given is even.
pub adjusted-aligned : (addr : ℕ) → (adjusted addr % 4 == 0) ≡ (addr % 2 == 0)
unfolding adjusted
adjusted-aligned addr = ground arith

realloc-endless :
    (ctrl_size : ℕ) (st : State)
    → 0 < ctrl_size
    → st.num_total < 65536
    → 65536 ≤ st.num_total + realloc_num
    → realloc_handle ctrl_size true realloc_num st ≡ unfinished
unfolding realloc_handle
realloc-endless ctrl_size st size small big =
    let a : (ctrl_size * (st.num_total + realloc_num + 5) == 0) ≡ false = ground arith in
    let b : ltb (ctrl_size * (realloc_num + 1)) (ctrl_size * (st.num_total + realloc_num + 5))
        ≡ true =
      ground arith in
    simp
      (a, b, fill-endless (realloc_num + 1) st.num_total (st.num_total + realloc_num) st big small)

refill-endless :
    (ctrl_size : ℕ) (st : State)
    → 0 < ctrl_size
    → st.num_free ≤ 10
    → st.num_total < 65536
    → 65536 ≤ st.num_total + realloc_num
    → refill ctrl_size true st ≡ unfinished
refill-endless ctrl_size st size few small big =
    let a : leb st.num_free 10 ≡ true = ground arith in
    rw (a, realloc-endless ctrl_size st size small big)

-- On a table that may not grow by 1000 structures within 16 bits, the allocation that leaves 10 free ones
-- comes to the loop that adds the new ones and does not come out of it: `u_handle_alloc` has not returned at
-- the end of the fuel, and no fuel is enough for the loop.
pub u_handle_alloc-endless :
    (ctrl_size e_type obj tag pf_free : ℕ) (st : State)
    → 0 < ctrl_size
    → st.init ≡ true
    → pf_free ≢ 0
    → e_type ≢ no_handle_type
    → st.free_handles ≢ null_idx
    → st.num_free ≡ 11
    → st.num_total < 65536
    → 65536 ≤ st.num_total + realloc_num
    → (u_handle_alloc ctrl_size true e_type obj tag pf_free true st ≡ unfinished)
      × ((fuel : ℕ)
          → fill fuel st.num_total (st.num_total + realloc_num) (take_free st st.free_handles)
            ≡ none)
unfolding u_handle_alloc
u_handle_alloc-endless ctrl_size e_type obj tag pf_free st size init callback kind some_free low
      small big =
    (
      rw
          (
            init,
            ne→== pf_free 0 callback,
            ne→== e_type 0 kind,
            ne→== st.free_handles 0 some_free,
            refill-endless ctrl_size (take_free st st.free_handles) size (ground arith) small big,
          )
          refl,
      λ fuel.
          fill-endless fuel st.num_total (st.num_total + realloc_num) (take_free st st.free_handles)
            big small,
    )

-- `u_handle_autofree` of a valid handle whose type belongs to no counted group, such as a
-- read-write lock, reads past the end of the array of tables: whatever tables are set, and
-- whatever their functions do.
pub u_handle_autofree-group :
    (entry : ℕ → ℕ → ℕ) (call : ℕ → ℕ → ℕ → State → Hr × State) (h e_type obj : ℕ) (st : State)
    → u_handle_get_type_obj st h true ≡ (Hr.ok, some (e_type, obj))
    → nb_groups * group_size ≤ e_type
    → u_handle_autofree entry call h st ≡ fault
unfolding u_handle_autofree
u_handle_autofree-group entry call h e_type obj st e big =
    let out : ltb (e_type / group_size) nb_groups ≡ false = ground arith in
    let code = ap (λ p. p.0) e in
    let found = ap (λ p. p.1) e in rw (u_handle_autofree, code, found, out)
