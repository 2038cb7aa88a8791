-- ===== src/Handle/Examples.antt =====
-- mw/handle.c: a small table, and calls on it.
use multithreading.Prelude.{
  ◌+◌, ℕ, ◌%◌, ◌≤◌, ◌<◌, ◌≡◌, ◌==◌, refl, inr, List, [], ◌∷◌, none, some, arith, true, false, Bool,
  if◌then◌else◌,
}
use multithreading.Handle.State.{HCtrl, State, Hr, ret, unfinished, blank, make_handle, word_of}
use multithreading.Handle.Alloc.{fill, realloc_num, take_free, u_handle_alloc}
use multithreading.Handle.Access.{u_handle_get_type_obj}
use multithreading.Handle.Free.{Clients, u_handle_free}
use multithreading.Handle.Pool.{end, step, Pool, used}
use multithreading.Handle.Pool.Limits.{u_handle_alloc-endless}
use multithreading.Handle.Link.{u_handle_link}
use multithreading.Handle.Linked.{Linked, u_handle_link-Linked}
use multithreading.Handle.Linked as L
use multithreading.Handle.Lookup.{view, u_handle_alloc-view}
use multithreading.Handle.Release.{Freeable, u_handle_free-view}

-- Before the set-up.
abbrev raw : State
raw = record {
  arr = λ j. blank 0;
  free_handles = 0;
  num_total = 0;
  num_free = 0;
  num_peak_used = 0;
  num_used_per_grp = λ g. 0;
  init = false;
  autofree = λ g. 0;
  links = λ p. record { head = 0; tail = 0; h_count = 0; parsing = false; free_all = false };
}

-- Three structures; the first is a read-write lock with the object 42 and the callback 9.
abbrev small_arr : ℕ → HCtrl
small_arr j =
    if j == 1
    then record (blank 0) { count = 1; active = true; e_type = 129; obj = 42; pf_free = 9 }
    else if j == 3
    then blank 2
    else blank 0

abbrev small_table : State
small_table = record raw {
  arr = small_arr;
  free_handles = 3;
  num_total = 3;
  num_free = 2;
  num_peak_used = 1;
  init = true;
}

-- The handle of the first structure.
abbrev first_handle : ℕ
first_handle = 65537

small_table-parity :
    (i : ℕ)
    → 0 < i
    → i ≤ 3
    → ((small_arr i).count < 256)
      × ((small_arr i).count % 2 ≡ (if (small_arr i).active then 1 else 0))
small_table-parity i pos le = ground arith

small_table-Pool : Pool 3 0 small_table (3 ∷ 2 ∷ [])
unfolding used
small_table-Pool = record {
  bound = omega arith;
  chain =
      step (omega arith) (omega arith) refl refl (step (omega arith) (omega arith) refl refl end);
  counted = refl;
  balance = refl;
  parity = λ i pos le. ground (arith, small_table-parity i pos le);
}

small_table-view : view small_table first_handle ≡ some (129, 42)
unfolding u_handle_get_type_obj
small_table-view = refl

u_handle_alloc-view_example :
    (t : State) × (ys : List ℕ) × (u_handle_alloc 64 true 129 43 0 9 true small_table
      ≡ ret (Hr.ok, make_handle t 3, t))
    × Pool t.num_total 0 t ys
    × ((h : ℕ)
        → view t h ≡ (if word_of h == make_handle t 3 then some (129, 43) else view small_table h))
u_handle_alloc-view_example =
    u_handle_alloc-view 64 129 43 0 9 3 small_table (2 ∷ []) (omega arith) (omega arith)
      (omega arith) refl (inr (omega arith)) small_table-Pool

-- The structure 2 is free.
second_invalid : view small_table 131074 ≡ none
unfolding u_handle_get_type_obj
second_invalid = refl

-- Callbacks that agree, or refuse, and do nothing.
abbrev answering : Bool → Clients
answering b = record {
  on_free = λ fct h e_type obj tag req st. (b, st);
  on_aux_free = λ fct obj st. st;
  aux_fct = 1;
}

small_table-Freeable : (b : Bool) → Freeable (answering b) small_table first_handle true b
small_table-Freeable b = record {
  names = refl;
  not_freeing = refl;
  not_linked = refl;
  not_hooked = refl;
  callback = omega arith;
  of_client = omega arith;
  answer = λ s. refl;
}

u_handle_free-view_example :
    (t : State) × (u_handle_free (answering true) first_handle true small_table ≡ ret (Hr.ok, t))
    × Pool t.num_total 0 t (1 ∷ 3 ∷ 2 ∷ [])
    × ((g : ℕ)
        → view t g ≡ (if word_of g == word_of first_handle then none else view small_table g))
    × ((again : Bool)
        → u_handle_free (answering true) first_handle again t ≡ ret (Hr.inv_handle, t))
u_handle_free-view_example =
    u_handle_free-view (answering true) small_table first_handle true (3 ∷ 2 ∷ []) refl
      small_table-Pool (small_table-Freeable true)

-- A table of 65000 structures, 11 of them free.
abbrev wide_table : State
wide_table = record small_table { num_total = 65000; num_free = 11 }

u_handle_alloc-endless_example :
    (u_handle_alloc 64 true 129 43 0 9 true wide_table ≡ unfinished)
    × ((fuel : ℕ)
        → fill fuel wide_table.num_total
            (wide_table.num_total + realloc_num)
            (take_free wide_table wide_table.free_handles)
          ≡ none)
u_handle_alloc-endless_example =
    u_handle_alloc-endless 64 129 43 0 9 wide_table (omega arith) refl (omega arith) (omega arith)
      (omega arith) refl (omega arith) (omega arith)

small_table-lookup : u_handle_get_type_obj small_table first_handle true ≡ (Hr.ok, some (129, 42))
unfolding u_handle_get_type_obj
small_table-lookup = refl

-- The list at the address 5 is empty.
empty_list-Linked : Linked small_table 5 []
empty_list-Linked = record { segment = L.end; counted = refl; bound = omega arith }

u_handle_link-Linked_example :
    ((u_handle_link 5 first_handle small_table).0 ≡ Hr.ok)
    × Linked (u_handle_link 5 first_handle small_table).1 5 (1 ∷ [])
u_handle_link-Linked_example =
    u_handle_link-Linked 5 first_handle small_table [] refl (omega arith) refl (omega arith) refl
      (omega arith) empty_list-Linked
