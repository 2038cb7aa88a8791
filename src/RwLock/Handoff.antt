-- ===== src/RwLock/Handoff.antt =====
-- mw/rwlock/rwl_api.c: the write lock is handed from the thread that releases it to a thread that
-- is blocked. `h_wr_thread` names the releasing thread until the other one runs.
use multithreading.Prelude.{ℕ, ◌+◌, ◌-◌, ◌^◌, ◌<◌, ◌≡◌, ◌≢◌, true, false, none, arith, refl, ap}
use multithreading.Sema.{binary, invalid_pthread}
use multithreading.RwLock.{
  MrswLock, returned, Rwlr, nowait, null_handle, locked_slot, u_rwl_write_lock, u_rwl_release_lock,
}

-- `me` has the write lock once and releases it while writers are blocked; the counters and the
-- semaphore are within their widths.
pub record Handing (me : ℕ) (l : MrswLock) : Type 0 where
  pub real : me ≢ null_handle
  pub alive : l.del_flag ≡ false
  pub once : l.wr_access_cnt ≡ 1
  pub no_reader : l.rd_access_cnt ≡ 0
  pub no_nested : l.rd_inside_wr_cnt ≡ 0
  pub waiters : 0 < l.wr_wait_cnt
  pub narrow : l.wr_wait_cnt < 2 ^ 16
  pub sem_type : l.sem_wait_wr.e_type ≡ binary
  pub sem_value : l.sem_wait_wr.value + 1 < 2 ^ 32

-- The lock after that release: one writer counted, the releasing thread still its owner, and a unit
-- for a blocked writer.
abbrev handed : ℕ → MrswLock → MrswLock
handed me l = record l {
  wr_access_cnt = 1;
  wr_wait_cnt = l.wr_wait_cnt - 1;
  wr_thread = me;
  sem_wait_wr = record l.sem_wait_wr { thread = invalid_pthread; value = l.sem_wait_wr.value + 1 };
}

module _ (me : ℕ) (l : MrswLock) (h : Handing me l) where
  release_handed :
      u_rwl_release_lock none true me (locked_slot l)
      ≡ (returned Rwlr.ok, locked_slot (handed me l))
  unfolding u_rwl_release_lock
  release_handed = ground arith

  write_again_handed :
      u_rwl_write_lock none true me nowait (locked_slot (handed me l))
      ≡ (returned Rwlr.ok, locked_slot (record (handed me l) { wr_access_cnt = 2 }))
  unfolding u_rwl_write_lock
  write_again_handed = ground arith

  write_other_handed :
      (other : ℕ)
      → other ≢ me
      → u_rwl_write_lock none true other nowait (locked_slot (handed me l))
        ≡ (returned Rwlr.would_block, locked_slot (handed me l))
  unfolding u_rwl_write_lock
  write_other_handed other ne = ground arith

-- A thread that releases the write lock while another writer is blocked gives the lock to that
-- writer, whose semaphore gets a unit; and until that writer has run, the releasing thread gets the
-- write lock once more without a wait, so that both have it, while any other thread is refused.
pub handoff_shared :
    (me other : ℕ) (l : MrswLock)
    → Handing me l
    → other ≢ me
    → ((u_rwl_release_lock none true me (locked_slot l)).0 ≡ returned Rwlr.ok)
      × (u_rwl_write_lock none true me nowait (u_rwl_release_lock none true me (locked_slot l)).1
          ≡ (
            returned Rwlr.ok,
            locked_slot (record l {
              wr_access_cnt = 2;
              wr_wait_cnt = l.wr_wait_cnt - 1;
              wr_thread = me;
              sem_wait_wr = record l.sem_wait_wr {
                thread = invalid_pthread;
                value = l.sem_wait_wr.value + 1;
              };
            }),
          ))
      × ((u_rwl_write_lock none true other nowait
            (u_rwl_release_lock none true me (locked_slot l)).1).0
          ≡ returned Rwlr.would_block)
handoff_shared me other l h ne =
    rw (release_handed me l h)
      (refl, write_again_handed me l h, ap (λ r. r.0) (write_other_handed me l h other ne))
