-- ===== src/RwLock.antt =====
-- mw/rwlock/rwl_api.c, mw/rwlock/rwl.h and mw/rwlock/rwl_handle_cb.c: the multiple-reader
-- single-writer lock.
-- A function of the API is the code up to the point where it returns or waits in `u_sema_lock`;
-- what follows such a wait is a function of its own, `read_resume` and `write_resume`. Each is one
-- critical section, taken together with the `u_sema_unlock` or the free of the lock right behind it;
-- a resumed thread takes its unit and the critical section behind the wait in one step. The debug
-- prints and the loop `while (! (b_locked))`, which is left in its first round, are left out.
-- `Slot` is what the handle stands for: `u_handle_get_type_obj` gives a type
-- and a lock, or fails (`none`). `me` is what `u_thread_self` gives, and `mutex_ret` what
-- `pthread_mutex_lock` returns inside `u_sema_unlock`.
pub mod Invariant
pub mod Acquire
pub mod System
pub mod Release
pub mod Delete
pub mod Safety
pub mod Handoff
mod Examples
use multithreading.Prelude.{
  ℕ, ◌+◌, Bool, true, false, Option, none, some, ◌==◌, ltb, ◌&&◌, ◌||◌, not, if◌then◌else◌, inc16,
  dec16,
}
use multithreading.Os.{Osr, PthreadRet}
use multithreading.Sema.{Sema, binary, state_lock, u_sema_create, u_sema_unlock, u_sema_delete}

-- The codes of inc/u_rwlock.h without their prefix RWLR_.
pub data Rwlr : Type 0 where
  ok fail invalid_handle delete_in_progress would_block : Rwlr

pub data RwlOption : Type 0 where
  wait nowait : RwlOption

abbrev pub null_handle : ℕ
null_handle = 0

-- READ_WRITE_LOCK, `HT_GROUP_COMMON + 1`
abbrev pub read_write_lock : ℕ
read_write_lock = 129

-- MRSW_LOCK_T. The counters are UINT16.
pub record MrswLock : Type 0 where
  pub sem_wait_wr : Sema
  pub sem_wait_rd : Sema
  pub wr_access_cnt : ℕ
  pub wr_wait_cnt : ℕ
  pub rd_access_cnt : ℕ
  pub rd_wait_cnt : ℕ
  pub rd_inside_wr_cnt : ℕ
  pub wr_thread : ℕ
  pub del_flag : Bool

abbrev pub Slot : Type 0
Slot = Option (ℕ × MrswLock)

-- How a critical section ends: with a return, in `u_sema_lock` on one of the two semaphores, or in
-- ABORT.
pub data Outcome : Type 0 where
  returned : Rwlr → Outcome
  waits_rd waits_wr aborted : Outcome

abbrev pub locked_slot : MrswLock → Slot
locked_slot l = some (read_write_lock, l)

-- The test that opens every function: a valid handle of the right type.
abbrev pub with_lock : Slot → (MrswLock → Outcome × Slot) → Outcome × Slot
with_lock none body = (returned invalid_handle, none)
with_lock (some (ty, l)) body =
    if ty == read_write_lock then body l else (returned invalid_handle, some (ty, l))

-- `rwl_handle_cb`: `obj` is `none` for the null pointer; `none` as a result is ABORT.
unfoldable pub rwl_handle_cb : (ty : ℕ) → Option MrswLock → Option Bool
rwl_handle_cb ty none = some false
rwl_handle_cb ty (some l) = if ty == read_write_lock then some l.del_flag else none

-- What the handle stands for after `u_handle_free`: nothing if the callback agrees.
abbrev pub handle_freed : MrswLock → Slot
handle_freed l = elim (rwl_handle_cb read_write_lock (some l)) [
  | some true ↦ none
  | _ ↦ some (read_write_lock, l)
]

-- `_free_rwlock_resource`. `destroy_ok` is what `u_sema_delete` meets in pthread.
unfoldable pub free_rwlock_resource : (destroy_ok : Bool) → Rwlr → MrswLock → Outcome × Slot
unfolding rwl_handle_cb u_sema_delete
free_rwlock_resource destroy_ok r l = elim (u_sema_delete destroy_ok l.sem_wait_wr).0 [
  | Osr.ok ↦ elim (u_sema_delete destroy_ok l.sem_wait_rd).0 [
    | Osr.ok ↦ (returned r, handle_freed l)
    | _ ↦ (aborted, handle_freed l)
  ]
  | _ ↦ (aborted, handle_freed l)
]

-- `u_rwl_create_lock`. `mem`, `sema_mem` and `init_ok` say whether the allocations and the
-- initialisation of the semaphores succeed, `handle_ok` whether `u_handle_alloc` returns HR_OK.
unfoldable pub u_rwl_create_lock : (mem sema_mem init_ok handle_ok : Bool) (me : ℕ) → Outcome × Slot
unfolding u_sema_create
u_rwl_create_lock mem sema_mem init_ok handle_ok me =
    if not mem
    then (aborted, none)
    else elim (u_sema_create true sema_mem init_ok me binary state_lock).1 [
      | none ↦ (aborted, none)
      | some wr ↦ elim (u_sema_create true sema_mem init_ok me binary state_lock).1 [
        | none ↦ (aborted, none)
        | some rd ↦
            if handle_ok
            then (
              returned ok,
              locked_slot (record {
                sem_wait_wr = wr;
                sem_wait_rd = rd;
                wr_access_cnt = 0;
                wr_wait_cnt = 0;
                rd_access_cnt = 0;
                rd_wait_cnt = 0;
                rd_inside_wr_cnt = 0;
                wr_thread = null_handle;
                del_flag = false;
              }),
            )
            else (aborted, none)
      ]
    ]

-- `u_sema_unlock` on a semaphore of the lock, with ABORT if it does not return OSR_OK.
abbrev pub wake : Osr × Sema → (Sema → MrswLock) → Outcome × Slot
wake (Osr.ok, s) put = (returned ok, locked_slot (put s))
wake (_, s) put = (aborted, locked_slot (put s))

-- A pending reader is given the lock: its count is moved, and its semaphore is unlocked.
abbrev pub wake_reader : PthreadRet → ℕ → MrswLock → Outcome × Slot
wake_reader mutex_ret me l = wake (u_sema_unlock mutex_ret me l.sem_wait_rd) λ s. record l {
  rd_wait_cnt = dec16 l.rd_wait_cnt;
  rd_access_cnt = inc16 l.rd_access_cnt;
  sem_wait_rd = s;
}

-- A pending writer is given the lock; `owner` is the value left in `h_wr_thread`.
abbrev pub wake_writer : PthreadRet → ℕ → (owner : ℕ) → MrswLock → Outcome × Slot
wake_writer mutex_ret me owner l = wake (u_sema_unlock mutex_ret me l.sem_wait_wr) λ s. record l {
  wr_access_cnt = inc16 l.wr_access_cnt;
  wr_thread = owner;
  wr_wait_cnt = dec16 l.wr_wait_cnt;
  sem_wait_wr = s;
}

abbrev pub unused : MrswLock → Bool
unused l =
    (l.wr_access_cnt == 0) && (l.wr_wait_cnt == 0) && (l.rd_access_cnt == 0) && (l.rd_wait_cnt == 0)

-- The end of `u_rwl_release_lock` when nobody was woken: the copies of the counters are those of the
-- state. After a wake-up the copies were taken before it, with a wait count above 0, and the lock
-- is not freed.
abbrev pub settle : (destroy_ok : Bool) → MrswLock → Outcome × Slot
settle destroy_ok l =
    if l.del_flag && unused l
    then free_rwlock_resource destroy_ok ok l
    else (returned ok, locked_slot l)

-- The branch for a read lock, with its count decremented in `l`.
unfoldable pub release_read : PthreadRet → Bool → ℕ → MrswLock → Outcome × Slot
unfolding u_sema_unlock free_rwlock_resource
release_read mutex_ret destroy_ok me l =
    if ltb 0 l.rd_wait_cnt && (l.rd_access_cnt == 0)
    then wake_reader mutex_ret me l
    else if (l.rd_access_cnt == 0) && ltb 0 l.wr_wait_cnt
    then wake_writer mutex_ret me l.wr_thread l
    else settle destroy_ok l

-- The branch for a write lock, with its count decremented and the owner cleared at 0 in `l`.
unfoldable pub release_write : PthreadRet → Bool → ℕ → MrswLock → Outcome × Slot
unfolding u_sema_unlock free_rwlock_resource
release_write mutex_ret destroy_ok me l =
    if (l.wr_access_cnt == 0) && ltb 0 l.wr_wait_cnt
    then wake_writer mutex_ret me me l
    else if (l.wr_access_cnt == 0) && ltb 0 l.rd_wait_cnt
    then wake_reader mutex_ret me l
    else settle destroy_ok l

unfoldable pub release_body : PthreadRet → Bool → ℕ → MrswLock → Outcome × Slot
unfolding release_read release_write
release_body mutex_ret destroy_ok me l =
    if ltb 0 l.rd_access_cnt && ltb 0 l.wr_access_cnt
    then (aborted, locked_slot l)
    else if ltb 0 l.rd_inside_wr_cnt
    then (if not (ltb 0 l.wr_access_cnt)
        then (aborted, locked_slot l)
        else (returned ok, locked_slot (record l { rd_inside_wr_cnt = dec16 l.rd_inside_wr_cnt })))
    else if ltb 0 l.rd_access_cnt
    then release_read mutex_ret destroy_ok me (record l { rd_access_cnt = dec16 l.rd_access_cnt })
    else if ltb 0 l.wr_access_cnt
    then release_write mutex_ret destroy_ok me (record l {
      wr_access_cnt = dec16 l.wr_access_cnt;
      wr_thread = if dec16 l.wr_access_cnt == 0 then null_handle else l.wr_thread;
    })
    else settle destroy_ok l

unfoldable pub u_rwl_release_lock :
    PthreadRet → (destroy_ok : Bool) (me : ℕ) → Slot → Outcome × Slot
unfolding release_body
u_rwl_release_lock mutex_ret destroy_ok me slot =
    with_lock slot (release_body mutex_ret destroy_ok me)

-- What a grant does: the check of the deletion flag that follows it, with its release.
abbrev pub granted : PthreadRet → Bool → ℕ → MrswLock → Outcome × Slot
granted mutex_ret destroy_ok me l =
    if l.del_flag
    then (returned invalid_handle, (u_rwl_release_lock mutex_ret destroy_ok me (locked_slot l)).1)
    else (returned ok, locked_slot l)

abbrev pub read_free : MrswLock → Bool
read_free l = (l.wr_access_cnt == 0) && (l.rd_wait_cnt == 0) && (l.wr_wait_cnt == 0)

unfoldable pub read_body : PthreadRet → Bool → ℕ → RwlOption → MrswLock → Outcome × Slot
unfolding u_rwl_release_lock
read_body mutex_ret destroy_ok me option l =
    if l.del_flag
    then (returned delete_in_progress, locked_slot l)
    else if read_free l
    then granted mutex_ret destroy_ok me (record l { rd_access_cnt = inc16 l.rd_access_cnt })
    else if l.wr_thread == me
    then (returned ok, locked_slot (record l { rd_inside_wr_cnt = inc16 l.rd_inside_wr_cnt }))
    else elim option [
      | wait ↦ (waits_rd, locked_slot (record l { rd_wait_cnt = inc16 l.rd_wait_cnt }))
      | nowait ↦ (returned would_block, locked_slot l)
    ]

unfoldable pub u_rwl_read_lock :
    PthreadRet → (destroy_ok : Bool) (me : ℕ) → RwlOption → Slot → Outcome × Slot
unfolding read_body
u_rwl_read_lock mutex_ret destroy_ok me option slot =
    with_lock slot (read_body mutex_ret destroy_ok me option)

abbrev pub write_free : MrswLock → Bool
write_free l =
    (l.rd_access_cnt == 0) && (l.wr_access_cnt == 0) && (l.rd_wait_cnt == 0) && (l.wr_wait_cnt == 0)

-- The thread that has the write lock may have it again.
abbrev pub write_again : ℕ → MrswLock → Bool
write_again me l =
    (l.rd_access_cnt == 0)
    && (l.rd_inside_wr_cnt == 0)
    && ltb 0 l.wr_access_cnt
    && (l.wr_thread == me)

unfoldable pub write_body : PthreadRet → Bool → ℕ → RwlOption → MrswLock → Outcome × Slot
unfolding u_rwl_release_lock
write_body mutex_ret destroy_ok me option l =
    if l.del_flag
    then (returned delete_in_progress, locked_slot l)
    else if write_free l
    then granted mutex_ret destroy_ok me
        (record l { wr_access_cnt = inc16 l.wr_access_cnt; wr_thread = me })
    else if write_again me l
    then granted mutex_ret destroy_ok me (record l { wr_access_cnt = inc16 l.wr_access_cnt })
    else elim option [
      | wait ↦ (waits_wr, locked_slot (record l { wr_wait_cnt = inc16 l.wr_wait_cnt }))
      | nowait ↦ (returned would_block, locked_slot l)
    ]

unfoldable pub u_rwl_write_lock :
    PthreadRet → (destroy_ok : Bool) (me : ℕ) → RwlOption → Slot → Outcome × Slot
unfolding write_body
u_rwl_write_lock mutex_ret destroy_ok me option slot =
    with_lock slot (write_body mutex_ret destroy_ok me option)

-- Behind the wait of `u_rwl_read_lock` there is nothing but the return.
abbrev pub read_resume : Sema → MrswLock → MrswLock
read_resume s l = record l { sem_wait_rd = s }

-- Behind the wait of `u_rwl_write_lock` the thread becomes the owner.
abbrev pub write_resume : ℕ → Sema → MrswLock → MrswLock
write_resume me s l = record l { sem_wait_wr = s; wr_thread = me }

unfoldable pub delete_body : Bool → MrswLock → Outcome × Slot
unfolding free_rwlock_resource
delete_body destroy_ok l =
    if l.del_flag
    then (returned delete_in_progress, locked_slot l)
    else let l' = record l { del_flag = true } in
      if unused l' then free_rwlock_resource destroy_ok ok l' else (returned ok, locked_slot l')

unfoldable pub u_rwl_delete_lock : (destroy_ok : Bool) → Slot → Outcome × Slot
unfolding delete_body
u_rwl_delete_lock destroy_ok slot = with_lock slot (delete_body destroy_ok)

unfoldable pub rwl_read_lock_grabbed : Slot → Bool
rwl_read_lock_grabbed none = false
rwl_read_lock_grabbed (some (ty, l)) =
    (ty == read_write_lock) && (ltb 0 l.rd_access_cnt || ltb 0 l.rd_inside_wr_cnt)

unfoldable pub u_rwl_write_lock_grabbed : (me : ℕ) → Slot → Bool
u_rwl_write_lock_grabbed me none = false
u_rwl_write_lock_grabbed me (some (ty, l)) =
    (ty == read_write_lock) && ((l.wr_thread == me) && ltb 0 l.wr_access_cnt)
