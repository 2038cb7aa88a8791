-- ===== src/RwLock/Examples.antt =====
-- mw/rwlock/rwl_api.c: one lock through concrete calls.
use multithreading.Prelude.{◌+◌, ◌<◌, ◌≤◌, ◌≡◌, ◌⊎◌, refl, none, arith, true, false}
use multithreading.Sema.{Sema, binary, invalid_pthread}
use multithreading.RwLock.{
  MrswLock, returned, Rwlr, wait, nowait, null_handle, locked_slot, u_rwl_create_lock,
  u_rwl_read_lock, u_rwl_write_lock, u_rwl_release_lock, u_rwl_delete_lock,
}
use multithreading.RwLock.Invariant.{SlotInv}
use multithreading.RwLock.System.{System, Reach, created, later, write, delete, start_of}
use multithreading.RwLock.Safety.{counts_exclusive, no_lost_wakeup, release_safe, freed_unused}
use multithreading.RwLock.Handoff.{Handing, handoff_shared}

abbrev empty_sem : Sema
empty_sem = record { e_type = binary; thread = invalid_pthread; value = 0; selfcount = 0 }

abbrev new_lock : MrswLock
new_lock = record {
  sem_wait_wr = empty_sem;
  sem_wait_rd = empty_sem;
  wr_access_cnt = 0;
  wr_wait_cnt = 0;
  rd_access_cnt = 0;
  rd_wait_cnt = 0;
  rd_inside_wr_cnt = 0;
  wr_thread = null_handle;
  del_flag = false;
}

-- The thread 5 has the write lock, and one writer is blocked.
abbrev contended : MrswLock
contended = record new_lock { wr_access_cnt = 1; wr_wait_cnt = 1; wr_thread = 5 }

contended-SlotInv : SlotInv (locked_slot contended) 1 0 1
contended-SlotInv =
    (refl, record { counts = omega arith; doomed = λ e. cc; type_rd = refl; type_wr = refl })

abbrev contended_system : System
contended_system = record { slot = locked_slot contended; held = 1; blocked_rd = 0; blocked_wr = 1 }

-- `u_rwl_create_lock`, and `u_rwl_write_lock` by the threads 5 and 6.
create_new : u_rwl_create_lock true true true true 5 ≡ (returned Rwlr.ok, locked_slot new_lock)
unfolding u_rwl_create_lock
create_new = refl

contended_system-Reach : Reach contended_system
unfolding u_rwl_write_lock
contended_system-Reach =
    later
      (later (created 5 (locked_slot new_lock) create_new)
        (write 5 wait (omega arith) (omega arith)))
      (write 6 wait (omega arith) (omega arith))

doomed_system-Reach :
    Reach (record contended_system { slot = locked_slot (record contended { del_flag = true }) })
unfolding u_rwl_delete_lock
doomed_system-Reach = later contended_system-Reach delete

counts_exclusive_example :
    ((contended.rd_access_cnt ≡ 0) ⊎ (contended.wr_access_cnt ≡ 0))
    × ((contended.rd_inside_wr_cnt ≡ 0) ⊎ (0 < contended.wr_access_cnt))
    × (contended.rd_access_cnt + contended.wr_access_cnt + contended.rd_inside_wr_cnt
        ≡ 1 + contended.sem_wait_rd.value + contended.sem_wait_wr.value)
counts_exclusive_example = counts_exclusive contended_system-Reach contended refl

no_lost_wakeup_example : ((0 < 1) ⊎ ((0 < 0) × (0 < 0)) ⊎ ((0 < 1) × (0 < 0))) × (0 + 0 ≤ 1)
no_lost_wakeup_example = no_lost_wakeup contended_system-Reach contended refl (omega arith)

release_safe_example : (u_rwl_release_lock none true 5 (locked_slot contended)).0 ≡ returned Rwlr.ok
release_safe_example = release_safe 5 contended_system-Reach (omega arith)

-- The lock is deleted while nobody uses it.
freed_system-Reach : Reach (start_of none)
unfolding u_rwl_delete_lock
freed_system-Reach = later (created 5 (locked_slot new_lock) create_new) delete

freed_unused_example :
    ((start_of none).held ≡ 0) × ((start_of none).blocked_rd ≡ 0) × ((start_of none).blocked_wr ≡ 0)
freed_unused_example = freed_unused freed_system-Reach refl

-- The thread that has the write lock gets a nested read lock, and the write lock again.
read_again_granted : (u_rwl_read_lock none true 5 wait (locked_slot contended)).0 ≡ returned Rwlr.ok
unfolding u_rwl_read_lock
read_again_granted = refl

write_again_granted :
    (u_rwl_write_lock none true 5 wait (locked_slot contended)).0 ≡ returned Rwlr.ok
unfolding u_rwl_write_lock
write_again_granted = refl

contended-Handing : Handing 5 contended
contended-Handing = record {
  real = omega arith;
  alive = refl;
  once = refl;
  no_reader = refl;
  no_nested = refl;
  waiters = omega arith;
  narrow = omega arith;
  sem_type = refl;
  sem_value = omega arith;
}

handoff_shared_example :
    ((u_rwl_release_lock none true 5 (locked_slot contended)).0 ≡ returned Rwlr.ok)
    × (u_rwl_write_lock none true 5 nowait
          (u_rwl_release_lock none true 5 (locked_slot contended)).1
        ≡ (
          returned Rwlr.ok,
          locked_slot (record contended {
            wr_access_cnt = 2;
            wr_wait_cnt = 0;
            wr_thread = 5;
            sem_wait_wr = record empty_sem { value = 1 };
          }),
        ))
    × ((u_rwl_write_lock none true 8 nowait
          (u_rwl_release_lock none true 5 (locked_slot contended)).1).0
        ≡ returned Rwlr.would_block)
handoff_shared_example = handoff_shared 5 8 contended contended-Handing (omega arith)
