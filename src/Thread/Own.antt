-- ===== src/Thread/Own.antt =====
-- os_pthread_thread.c: the private data of a thread. `known` says that the thread that calls is known,
-- `mem` is what `malloc` gives. The searches and the loop of `thread_key_destructor` have fuel, `none`
-- being the end of it.
use multithreading.Prelude.{
  ℕ, zero, suc, Bool, Option, none, some, [], ◌∷◌, ◌++◌, ◌==◌, not, if◌then◌else◌,
}
use multithreading.Os.{Osr}
use multithreading.Ring.Chain.{add_last, take_out, find_first}
use multithreading.Thread.{Pvt, PvtList}

unfoldable pub thread_find_pvt_key : (fuel ui4_key : ℕ) → PvtList → Option ℕ
thread_find_pvt_key fuel ui4_key p = find_first fuel (λ k. (p.blocks k).ui4_key == ui4_key) p.pt_pvt

abbrev pub put_block : ℕ → Pvt → PvtList → PvtList
put_block t b p = record p {
  pt_pvt = add_last t p.pt_pvt;
  blocks = λ k. if t == k then b else p.blocks k;
}

unfoldable pub u_thread_set_pvt :
    (fuel : ℕ) (known : Bool) (mem : Option ℕ) → Pvt → PvtList → Option (Osr × PvtList)
u_thread_set_pvt fuel known mem b p =
    if not known then some (Osr.not_exist, p) else elim (thread_find_pvt_key fuel b.ui4_key p) [
      | none ↦ none
      | some k ↦ if not (k == 0) then some (Osr.dup_key, p) else elim mem [
        | none ↦ some (Osr.no_resource, p)
        | some t ↦ some (Osr.ok, put_block t b p)
      ]
    ]

unfoldable pub u_thread_get_pvt :
    (fuel : ℕ) (known : Bool) (ui4_key : ℕ) → PvtList → Option (Osr × Option ℕ)
u_thread_get_pvt fuel known ui4_key p =
    if not known then some (Osr.not_exist, none) else elim (thread_find_pvt_key fuel ui4_key p) [
      | none ↦ none
      | some k ↦
          if k == 0 then some (Osr.key_not_found, none) else some (Osr.ok, some (p.blocks k).pv_pvt)
    ]

unfoldable pub u_thread_del_pvt_impl : ℕ → PvtList → PvtList
u_thread_del_pvt_impl t p =
    let b = p.blocks t in
    record p {
      pt_pvt = take_out t p.pt_pvt;
      calls = if not (b.pf_pvt_del == 0) then p.calls ++ b ∷ [] else p.calls;
    }

unfoldable pub u_thread_del_pvt :
    (fuel : ℕ) (known : Bool) (ui4_key : ℕ) → PvtList → Option (Osr × PvtList)
u_thread_del_pvt fuel known ui4_key p =
    if not known then some (Osr.not_exist, p) else elim (thread_find_pvt_key fuel ui4_key p) [
      | none ↦ none
      | some k ↦
          if k == 0 then some (Osr.key_not_found, p) else some (Osr.ok, u_thread_del_pvt_impl k p)
    ]

-- The loop of `thread_key_destructor`.
unfoldable pub delete_all : (fuel : ℕ) → PvtList → Option PvtList
delete_all zero p = none
delete_all (suc fuel) p =
    let rest = delete_all fuel (u_thread_del_pvt_impl p.pt_pvt.first p) in
    if not (p.pt_pvt.first == 0) then rest else some p
