-- ===== src/Thread/Exit.antt =====
-- os_pthread_thread.c: the end of a thread.
use multithreading.Prelude.{
  ℕ, ◌<◌, true, some, List, ◌++◌, map, ◌==◌, ◌≡◌, refl, ap, ◌∙◌, length, has, erase, arith, eq→==,
  Bool-cases, inl, inr,
}
use multithreading.Ring.Chain.{Through, take_out-Through}
use multithreading.Ring.Find.{Apart-erase, Apart-same}
use multithreading.Thread.{Threads, PvtList}
use multithreading.Thread.Names.{thread_list_remove, set_thread, thread_key_destructor}
use multithreading.Thread.Contents.{to_call}
use multithreading.Thread.Delete.{delete_all-to_call}
use multithreading.Thread.Create.{Registry, clash}

eq_of : (t k : ℕ) → (t == k) ≡ true → t ≡ k
eq_of t k h = ground arith

private_there :
    (t : ℕ) (p : PvtList) (s : Threads)
    → ((thread_list_remove t (set_thread t (record (s.threads t) { private = p }) s)).threads
        t).private
      ≡ p
unfolding thread_list_remove
private_there t p s = rw (eq→== t t refl) refl

remove-Registry :
    (t : ℕ) (p : PvtList) (s : Threads) (xs : List ℕ)
    → Registry s xs
    → has t xs ≡ true
    → Registry
        (thread_list_remove t (set_thread t (record (s.threads t) { private = p }) s))
        (erase t xs)
unfolding thread_list_remove
remove-Registry t p s xs reg i =
    let names : ℕ → List ℕ = λ k. (s.threads k).s_name in
    record {
      through = take_out-Through s.s_thread_list t xs reg.through i;
      unique =
          Apart-erase clash
            (λ k. ((set_thread t (record (s.threads t) { private = p }) s).threads k).s_name) t xs
            (Apart-same clash names
              (λ k. ((set_thread t (record (s.threads t) { private = p }) s).threads k).s_name) xs
              (λ k. elim (Bool-cases (t == k)) [
                | inl h ↦ rw h (ap names (eq_of t k h))
                | inr h ↦ rw h refl
              ])
              reg.unique);
    }

-- When a thread of the list ends, `thread_key_destructor` comes to an end, with fuel for its private
-- data. The thread is out of the list, in which still every name stands once, it has no private data
-- left, and the delete function of each block was called once, in the order of the list.
pub thread_key_destructor-Registry :
    (fuel t : ℕ) (s : Threads) (xs ys : List ℕ)
    → Registry s xs
    → has t xs ≡ true
    → Through (s.threads t).private.pt_pvt ys
    → length ys < fuel
    → (s' : Threads) × (thread_key_destructor fuel t s ≡ some s')
      × Registry s' (erase t xs)
      × ((s'.threads t).private.pt_pvt.first ≡ 0)
      × ((s'.threads t).private.calls
          ≡ (s.threads t).private.calls ++ to_call (map (s.threads t).private.blocks ys))
unfolding thread_key_destructor
thread_key_destructor-Registry fuel t s xs ys reg i r b =
    let (p, run, empty, calls) = delete_all-to_call fuel ys (s.threads t).private r b in
    let s' = thread_list_remove t (set_thread t (record (s.threads t) { private = p }) s) in
    let here : (s'.threads t).private ≡ p = private_there t p s in
    (
      s',
      rw (thread_key_destructor, run) refl,
      remove-Registry t p s xs reg i,
      ap (λ (q : PvtList). q.pt_pvt.first) here ∙ empty,
      ap (λ (q : PvtList). q.calls) here ∙ calls,
    )
