-- ===== src/RwLock/Invariant.antt =====
-- mw/rwlock/rwl_api.c: what holds of a lock between the critical sections, counted against the
-- threads: `held` grants that no thread has released yet, and the threads that are blocked in
-- `u_sema_lock` on the one and on the other semaphore.
use multithreading.Prelude.{ℕ, ◌+◌, ◌<◌, ◌≤◌, ◌≡◌, ◌≢◌, ◌⊎◌, true, none, some, arith, inc16}
use multithreading.Sema.{binary}
use multithreading.RwLock.{MrswLock, Slot, null_handle, read_write_lock}

pub record Counts (l : MrswLock) (held blocked_rd blocked_wr : ℕ) : Type 0 where
  -- readers and a writer never have the lock together
  pub excl : (l.rd_access_cnt ≡ 0) ⊎ (l.wr_access_cnt ≡ 0)
  pub inside : 0 < l.rd_inside_wr_cnt → 0 < l.wr_access_cnt
  pub owned : l.wr_thread ≢ null_handle → 0 < l.wr_access_cnt
  -- nobody waits for a lock that nobody has
  pub idle : l.rd_access_cnt + l.wr_access_cnt ≡ 0 → (l.rd_wait_cnt ≡ 0) × (l.wr_wait_cnt ≡ 0)
  pub account :
      l.rd_access_cnt + l.wr_access_cnt + l.rd_inside_wr_cnt
      ≡ held + l.sem_wait_rd.value + l.sem_wait_wr.value
  pub waiting_rd : blocked_rd ≡ l.rd_wait_cnt + l.sem_wait_rd.value
  pub waiting_wr : blocked_wr ≡ l.wr_wait_cnt + l.sem_wait_wr.value
  pub token_rd : 0 < l.sem_wait_rd.value → 0 < l.rd_access_cnt
  pub token_wr : 0 < l.sem_wait_wr.value → 0 < l.wr_access_cnt
  pub one_token : l.sem_wait_rd.value + l.sem_wait_wr.value ≤ 1
  pub small : held + blocked_rd + blocked_wr < 65536

pub record LockInv (l : MrswLock) (held blocked_rd blocked_wr : ℕ) : Type 0 where
  pub counts : Counts l held blocked_rd blocked_wr
  -- a lock that is marked for deletion is in use
  pub doomed : l.del_flag ≡ true → 0 < l.rd_access_cnt + l.wr_access_cnt
  pub type_rd : l.sem_wait_rd.e_type ≡ binary
  pub type_wr : l.sem_wait_wr.e_type ≡ binary

-- After the lock is freed no thread has it, and none waits for it.
abbrev pub SlotInv : Slot → ℕ → ℕ → ℕ → Type 0
SlotInv none held blocked_rd blocked_wr = (held ≡ 0) × (blocked_rd ≡ 0) × (blocked_wr ≡ 0)
SlotInv (some (ty, l)) held blocked_rd blocked_wr =
    (ty ≡ read_write_lock) × LockInv l held blocked_rd blocked_wr

module _ (l : MrswLock) (held blocked_rd blocked_wr : ℕ)
    (c : Counts l held blocked_rd blocked_wr) where
  pub grant_read :
      held + blocked_rd + blocked_wr < 65535
      → l.wr_access_cnt ≡ 0
      → l.rd_wait_cnt ≡ 0
      → l.wr_wait_cnt ≡ 0
      → Counts (record l { rd_access_cnt = inc16 l.rd_access_cnt }) (held + 1) blocked_rd blocked_wr
  grant_read room a b d = omega arith

  pub grant_inside :
      held + blocked_rd + blocked_wr < 65535
      → l.wr_thread ≢ null_handle
      → Counts
          (record l { rd_inside_wr_cnt = inc16 l.rd_inside_wr_cnt })
          (held + 1)
          blocked_rd
          blocked_wr
  grant_inside room owner = omega arith

  pub queue_read :
      held + blocked_rd + blocked_wr < 65535
      → 0 < l.rd_access_cnt + l.wr_access_cnt
      → Counts (record l { rd_wait_cnt = inc16 l.rd_wait_cnt }) held (blocked_rd + 1) blocked_wr
  queue_read room busy = omega arith

  pub grant_write :
      (me : ℕ)
      → held + blocked_rd + blocked_wr < 65535
      → l.rd_access_cnt ≡ 0
      → Counts
          (record l { wr_access_cnt = inc16 l.wr_access_cnt; wr_thread = me })
          (held + 1)
          blocked_rd
          blocked_wr
  grant_write me room a = omega arith

  pub grant_again :
      held + blocked_rd + blocked_wr < 65535
      → 0 < l.wr_access_cnt
      → Counts (record l { wr_access_cnt = inc16 l.wr_access_cnt }) (held + 1) blocked_rd blocked_wr
  grant_again room a = omega arith

  pub queue_write :
      held + blocked_rd + blocked_wr < 65535
      → 0 < l.rd_access_cnt + l.wr_access_cnt
      → Counts (record l { wr_wait_cnt = inc16 l.wr_wait_cnt }) held blocked_rd (blocked_wr + 1)
  queue_write room busy = omega arith
