-- ===== src/Thread/Create.antt =====
-- os_pthread_thread.c: `u_thread_create` and `u_thread_self` keep the list of the threads.
use multithreading.Prelude.{
  ℕ, ◌-◌, ◌%◌, ◌^◌, ◌<◌, ◌≤◌, Bool, true, false, Option, none, some, List, [], ◌∷◌, ◌++◌, ◌==◌,
  ◌&&◌, not, ◌≡◌, ◌≢◌, refl, sym, ap, ◌∙◌, subst, if◌then◌else◌, take, length, has, arith, inl, inr,
  Bool-cases, eq→==, ne→==, has-apart,
}
use multithreading.Os.{Osr}
use multithreading.Ring.Insert.{place}
use multithreading.Ring.Remove.{Ring-zero}
use multithreading.Ring.Chain.{Through, add_last-Through, find_first-place}
use multithreading.Ring.Find.{NoneOf, Apart, place_zero, NoneOf-less, Apart-end}
use multithreading.MsgQ.Names.{same_name, same_string}
use multithreading.MsgQ.Registry.{take_twice}
use multithreading.Thread.{Thread, Threads}
use multithreading.Thread.Names.{
  thread_list_add, thread_find_obj, set_thread, is_empty, Request, invalid, stack_size, new_thread,
  u_thread_create,
}

-- A later name, not empty, that is the same as an earlier one.
abbrev pub clash : List ℕ → List ℕ → Bool
clash a b = not (is_empty b) && same_name a b

-- The threads of the list, in their order; a name that is not empty stands once.
pub record Registry (s : Threads) (xs : List ℕ) : Type 0 where
  pub through : Through s.s_thread_list xs
  pub unique : Apart clash (λ k. (s.threads k).s_name) xs

-- The first thread with the name, or NULL.
abbrev pub named : List ℕ → Threads → List ℕ → ℕ
named name s xs = place (λ k. same_name (s.threads k).s_name name) xs 0

-- The size of a stack covers the request, is not below the minimum and, with an aligned minimum, aligned.
pub stack_size_covers :
    (m z : ℕ)
    → z < 2 ^ 32 - 7
    → m % 8 ≡ 0
    → (z ≤ stack_size m z) × (m ≤ stack_size m z) × (stack_size m z % 8 ≡ 0)
unfolding stack_size
stack_size_covers m z a b = (ground arith, ground arith, ground arith)

put-Registry :
    (t : ℕ) (th : Thread) (s : Threads) (xs : List ℕ)
    → Registry s xs
    → has t (0 ∷ xs) ≡ false
    → NoneOf (λ k. clash (s.threads k).s_name th.s_name) xs
    → Registry (thread_list_add t (set_thread t th s)) (xs ++ t ∷ [])
unfolding thread_list_add
put-Registry t th s xs reg new free =
    let here : (set_thread t th s).threads t ≡ th = rw (eq→== t t refl) refl in
    record {
      through = add_last-Through s.s_thread_list t xs reg.through new;
      unique =
          Apart-end clash (λ k. (s.threads k).s_name) (λ k. ((set_thread t th s).threads k).s_name)
            t xs
            (λ k i.
              ap (λ b. (if b then th else s.threads k).s_name)
                (ne→== t k (λ e. has-apart k t xs i (ground arith) (sym e))))
            reg.unique
            (subst (λ r. NoneOf (λ k. clash (s.threads k).s_name r.s_name) xs) (sym here) free);
    }

-- What `u_thread_create` leaves behind a success.
abbrev pub Created : (t stack_min sched_priority : ℕ) → Request → (s s' : Threads) → List ℕ → Type 0
Created t stack_min sched_priority r s s' xs =
    Registry s' (xs ++ t ∷ []) × (s'.threads t ≡ new_thread stack_min sched_priority r)

not_first : (a b : Bool) → b ≡ false → (a && b) ≡ false
not_first true b e = e
not_first false b e = refl

-- No thread has the name that is kept, when no thread has the name that is given.
free_name :
    (name : List ℕ) (s : Threads) (xs : List ℕ)
    → has 0 xs ≡ false
    → named name s xs ≡ 0
    → NoneOf (λ k. clash (s.threads k).s_name (take 16 name)) xs
free_name name s xs o free =
    NoneOf-less (λ k. same_name (s.threads k).s_name name)
      (λ k. clash (s.threads k).s_name (take 16 name)) xs
      (λ k e.
        not_first (not (is_empty (take 16 name))) (same_name (s.threads k).s_name (take 16 name))
          (ap (λ n. same_string (take 16 (s.threads k).s_name) n) (take_twice 16 name) ∙ e))
      (place_zero (λ k. same_name (s.threads k).s_name name) xs o free)

-- Memory at a new address, or none.
abbrev pub IsFresh : Option ℕ → List ℕ → Type 0
IsFresh none xs = Unit
IsFresh (some t) xs = has t (0 ∷ xs) ≡ false

-- A result of `u_thread_create`: a new thread in the list, or an error that changes nothing.
abbrev pub Outcome :
    (m sp : ℕ) → Request → (s : Threads) → List ℕ → Osr × Threads × Option ℕ → Type 0
Outcome m sp r s xs (o, s', none) = (o ≢ Osr.ok) × (s' ≡ s)
Outcome m sp r s xs (o, s', some t) = (o ≡ Osr.ok) × Created t m sp r s s' xs

module _ (fuel m sp : ℕ) (r : Request) (s : Threads) (xs : List ℕ) (reg : Registry s xs)
    (room : length xs ≤ fuel) where
  found_at : thread_find_obj fuel r.ps_name s ≡ some (named r.ps_name s xs)
  unfolding thread_find_obj
  found_at =
      find_first-place (λ k. same_name (s.threads k).s_name r.ps_name) s.s_thread_list fuel xs
        reg.through room

  pub create_new :
      (t : ℕ)
      → has t (0 ∷ xs) ≡ false
      → invalid r ≡ false
      → named r.ps_name s xs ≡ 0
      → ((s' : Threads) × (u_thread_create fuel m sp (some t) true r s ≡ some (Osr.ok, s', some t))
          × Created t m sp r s s' xs)
        × (u_thread_create fuel m sp (some t) false r s ≡ some (Osr.fail, s, none))
  unfolding u_thread_create thread_list_add
  create_new t new valid free =
      let o = Ring-zero s.s_thread_list.links s.s_thread_list.first xs reg.through in
      (
        (
          thread_list_add t (set_thread t (new_thread m sp r) s),
          rw (valid, found_at ∙ ap some free) refl,
          (
            put-Registry t (new_thread m sp r) s xs reg new (free_name r.ps_name s xs o free),
            rw (eq→== t t refl) refl,
          ),
        ),
        rw (valid, found_at ∙ ap some free) refl,
      )

  with_args :
      (mem : Option ℕ) (started : Bool)
      → IsFresh mem xs
      → invalid r ≡ false
      → (c : Osr × Threads × Option ℕ) × (u_thread_create fuel m sp mem started r s ≡ some c)
        × Outcome m sp r s xs c
  unfolding u_thread_create
  with_args none started new valid =
      ((Osr.no_resource, s, none), rw valid refl, (λ e. absurd cc, refl))
  with_args (some t) started new valid = elim (Bool-cases (named r.ps_name s xs == 0)) [
    | inr used ↦ ((Osr.exist, s, none), rw (valid, found_at, used) refl, (λ e. absurd cc, refl))
    | inl free ↦ elim (Bool-cases started) [
      | inl run ↦
          let (s', made, created) = (create_new t new valid (ground arith)).0 in
          (
            (Osr.ok, s', some t),
            ap (λ b. u_thread_create fuel m sp (some t) b r s) run ∙ made,
            (refl, created),
          )
      | inr fails ↦
          ((Osr.fail, s, none), rw (valid, found_at, free, fails) refl, (λ e. absurd cc, refl))
    ]
  ]

  -- Whatever the arguments are, whether there is memory and whether `pthread_create` succeeds,
  -- `u_thread_create` returns with fuel for the list: with OSR_OK and the new thread at the end of the
  -- list, in which still every name stands once, or with an error and nothing changed.
  pub u_thread_create-Outcome :
      (mem : Option ℕ) (started : Bool)
      → IsFresh mem xs
      → (c : Osr × Threads × Option ℕ) × (u_thread_create fuel m sp mem started r s ≡ some c)
        × Outcome m sp r s xs c
  unfolding u_thread_create
  u_thread_create-Outcome mem started new = elim (Bool-cases (invalid r)) [
    | inl bad ↦ ((Osr.inv_arg, s, none), rw bad refl, (λ e. absurd cc, refl))
    | inr valid ↦ with_args mem started new valid
  ]
