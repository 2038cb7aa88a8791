-- ===== src/Sema/Mutex.antt =====
-- os_pthread_sema.c, type mutex: the owner, the unit and the nesting count agree.
use multithreading.Prelude.{
  ℕ, ◌<◌, ◌≡◌, ◌≢◌, ◌⊎◌, inl, inr, List, [], ◌∷◌, none, Bool-cases, ◌==◌, arith,
}
use multithreading.Os.{Osr, PthreadRet, Run, done, blocked, osr_of_errno}
use multithreading.Sema.{
  mutex, Sema, SemaOption, wait, nowait, Wake, Taken, taken, refused, failed, pending,
  invalid_pthread, take_value, enter, count_up, u_sema_lock, u_sema_unlock,
}

-- Either free, with its one unit there, or held by a thread that has locked it `selfcount` times.
pub record IsMutex (s : Sema) : Type 0 where
  pub is_type : s.e_type ≡ mutex
  pub in_order :
      ((s.value ≡ 1) × (s.thread ≡ invalid_pthread) × (s.selfcount ≡ 0))
      ⊎ ((s.value ≡ 0) × (s.thread ≢ invalid_pthread) × (0 < s.selfcount) × (s.selfcount < 65536))

abbrev pub AllAfter : List Wake → Type 0
AllAfter [] = Unit
AllAfter (w ∷ ws) = IsMutex w.after × AllAfter ws

-- The states that the loop may be left with.
abbrev TakenFrom : Taken → Type 0
TakenFrom (taken t) = (t.value ≡ 0) × (t.selfcount ≡ 0) × (t.e_type ≡ mutex)
TakenFrom (refused t) = IsMutex t
TakenFrom (failed e t) = IsMutex t
TakenFrom (pending t) = IsMutex t

take_value-TakenFrom :
    (option : SemaOption) (ws : List Wake) (s : Sema)
    → IsMutex s
    → AllAfter ws
    → TakenFrom (take_value option ws s)
unfolding take_value
take_value-TakenFrom option [] s m h = ground arith
take_value-TakenFrom option (w ∷ ws) s m h =
    ground (arith, take_value-TakenFrom option ws w.after h.0 h.1)

-- What a call of `u_sema_lock` leaves: a mutex in order, held by the caller if the call was granted.
abbrev pub Granted : ℕ → Run Sema → Type 0
Granted self (done Osr.ok t) = IsMutex t × (t.thread ≡ self) × (t.value ≡ 0)
Granted self (done _ t) = IsMutex t
Granted self (blocked t) = IsMutex t

enter-Granted :
    (mutex_ret : PthreadRet) (option : SemaOption) (ws : List Wake) (self : ℕ) (s : Sema)
    → self ≢ invalid_pthread
    → IsMutex s
    → AllAfter ws
    → Granted self (enter osr_of_errno count_up mutex_ret option ws self s)
unfolding enter
enter-Granted mutex_ret option ws self s i m h =
    ground (arith, take_value-TakenFrom option ws s m h)

-- From a mutex in order, with waits that leave it in order, `u_sema_lock` by a real thread leaves
-- it in order on every return and while it waits; with OSR_OK the caller is the owner. The nesting
-- count is below its bound.
pub u_sema_lock-Granted :
    (mutex_ret : PthreadRet) (ws : List Wake) (self : ℕ) (option : SemaOption) (s : Sema)
    → self ≢ invalid_pthread
    → s.selfcount < 65535
    → IsMutex s
    → AllAfter ws
    → Granted self (u_sema_lock mutex_ret ws self option s)
unfolding u_sema_lock
u_sema_lock-Granted mutex_ret ws self option s i small m h =
    ground (arith, enter-Granted mutex_ret option ws self s i m h)

-- From a mutex in order, `u_sema_unlock` by a real thread leaves it in order when pthread locks its
-- mutex: it returns OSR_OK to the owner, and OSR_FAIL to any other thread, for which it changes
-- nothing.
pub u_sema_unlock-IsMutex :
    (self : ℕ) (s : Sema)
    → self ≢ invalid_pthread
    → IsMutex s
    → IsMutex (u_sema_unlock none self s).1
      × (((s.thread ≡ self) × ((u_sema_unlock none self s).0 ≡ Osr.ok))
          ⊎ ((s.thread ≢ self) × (u_sema_unlock none self s ≡ (Osr.fail, s))))
unfolding u_sema_unlock
u_sema_unlock-IsMutex self s i m = elim (Bool-cases (s.thread == self)) [
  | inl mine ↦ (ground arith, inl (ground arith, ground arith))
  | inr other ↦ (ground arith, inr (ground arith, ground arith))
]

-- A lock that is granted without a wait, because the mutex is free or the caller owns it already,
-- is undone by one unlock: the object is as before, nested locks included.
pub unlock-lock :
    (ws : List Wake) (self : ℕ) (s : Sema) {t : Sema}
    → self ≢ invalid_pthread
    → s.selfcount < 65535
    → IsMutex s
    → (s.thread ≡ self) ⊎ (s.value ≡ 1)
    → u_sema_lock none ws self wait s ≡ done Osr.ok t
    → u_sema_unlock none self t ≡ (Osr.ok, s)
unfolding u_sema_lock u_sema_unlock enter take_value
unlock-lock [] self s i small m free e = ground arith
unlock-lock (w ∷ ws) self s i small m free e = ground arith

-- While another thread holds the mutex, a call that may not wait is refused and changes nothing.
pub held-excludes :
    (ws : List Wake) (self : ℕ) (s : Sema)
    → IsMutex s
    → s.value ≡ 0
    → s.thread ≢ self
    → u_sema_lock none ws self nowait s ≡ done Osr.would_block s
unfolding u_sema_lock enter take_value
held-excludes [] self s m held other = ground arith
held-excludes (w ∷ ws) self s m held other = ground arith
