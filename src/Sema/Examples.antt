-- ===== src/Sema/Examples.antt =====
-- os_pthread_sema.c: semaphores at concrete values.
use multithreading.Prelude.{
  ◌+◌, ◌^◌, ◌<◌, ◌≡◌, refl, inl, inr, List, [], ◌∷◌, none, some, arith, true,
}
use multithreading.Os.{Osr, done}
use multithreading.Sema.{
  mutex, counting, Sema, wait, nowait, invalid_pthread, u_sema_create, u_sema_lock,
  u_sema_lock_timeout, u_sema_unlock, take_value, enter,
}
use multithreading.Sema.Mutex.{IsMutex, Granted, u_sema_lock-Granted, unlock-lock}
use multithreading.Sema.Counting.{
  Call, lock, lock_timeout, woken, unlock, run_call, run_calls, run_calls-balance,
}

abbrev free_mutex : Sema
free_mutex = record { e_type = mutex; thread = invalid_pthread; value = 1; selfcount = 0 }

-- Held by the thread 7, which has locked it twice.
abbrev held_mutex : Sema
held_mutex = record { e_type = mutex; thread = 7; value = 0; selfcount = 2 }

abbrev two_units : Sema
two_units = record { e_type = counting; thread = invalid_pthread; value = 2; selfcount = 0 }

free_mutex-IsMutex : IsMutex free_mutex
free_mutex-IsMutex = record { is_type = refl; in_order = inl (refl, refl, refl) }

held_mutex-IsMutex : IsMutex held_mutex
held_mutex-IsMutex = record {
  is_type = refl;
  in_order = inr (refl, omega arith, omega arith, omega arith);
}

u_sema_create_free : u_sema_create true true true 7 mutex 1 ≡ (Osr.ok, some free_mutex)
unfolding u_sema_create
u_sema_create_free = refl

-- The thread 9 waits, and is woken when the mutex is free.
u_sema_lock_woken :
    u_sema_lock none (record { ret = none; after = free_mutex } ∷ []) 9 wait held_mutex
    ≡ done Osr.ok (record { e_type = mutex; thread = 9; value = 0; selfcount = 1 })
unfolding u_sema_lock enter take_value
u_sema_lock_woken = refl

u_sema_lock-Granted_example :
    Granted 9 (u_sema_lock none (record { ret = none; after = free_mutex } ∷ []) 9 wait held_mutex)
u_sema_lock-Granted_example =
    u_sema_lock-Granted none (record { ret = none; after = free_mutex } ∷ []) 9 wait held_mutex
      (omega arith) (omega arith) held_mutex-IsMutex (free_mutex-IsMutex, tt)

u_sema_lock_nested :
    u_sema_lock none [] 7 wait held_mutex ≡ done Osr.ok (record held_mutex { selfcount = 3 })
unfolding u_sema_lock
u_sema_lock_nested = refl

unlock-lock_example :
    u_sema_unlock none 7 (record held_mutex { selfcount = 3 }) ≡ (Osr.ok, held_mutex)
unlock-lock_example =
    unlock-lock [] 7 held_mutex (omega arith) (omega arith) held_mutex-IsMutex (inl refl)
      u_sema_lock_nested

-- The third lock waits until the first unlock.
abbrev some_calls : List Call
some_calls =
    lock none 1 wait
    ∷ lock_timeout none (record { tv_sec = 0; tv_nsec = 0 }) 2 5
    ∷ lock none 3 wait
    ∷ unlock none 1
    ∷ woken none 3
    ∷ lock none 4 nowait
    ∷ []

some_calls_counts : (run_calls some_calls two_units).1 ≡ 3
unfolding run_calls run_call u_sema_lock u_sema_lock_timeout u_sema_unlock enter take_value
some_calls_counts = refl

some_calls_small : 2 + (run_calls some_calls two_units).2 < 2 ^ 32
unfolding run_calls run_call u_sema_lock u_sema_lock_timeout u_sema_unlock enter take_value
some_calls_small = omega arith

run_calls-balance_example :
    (run_calls some_calls two_units).0.value + (run_calls some_calls two_units).1
    ≡ 2 + (run_calls some_calls two_units).2
run_calls-balance_example = run_calls-balance some_calls two_units refl some_calls_small
