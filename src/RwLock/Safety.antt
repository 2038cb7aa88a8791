-- ===== src/RwLock/Safety.antt =====
-- mw/rwlock/rwl_api.c: what holds in every reachable state of a lock and its threads.
use multithreading.Prelude.{ℕ, ◌+◌, ◌-◌, ◌<◌, ◌≤◌, ◌≡◌, ◌⊎◌, true, none, arith, refl, [], subst}
use multithreading.Os.{Osr, done}
use multithreading.Sema.{Sema, binary, u_sema_lock, u_sema_create}
use multithreading.Sema as S
use multithreading.RwLock.{
  MrswLock, Slot, returned, Rwlr, locked_slot, u_rwl_create_lock, u_rwl_release_lock, read_resume,
  write_resume,
}
use multithreading.RwLock.Invariant.{Counts, LockInv, SlotInv}
use multithreading.RwLock.Acquire.{u_rwl_read_lock-Acquired, u_rwl_write_lock-Acquired}
use multithreading.RwLock.Release.{u_rwl_release_lock-Released}
use multithreading.RwLock.Delete.{u_rwl_delete_lock-Deleted}
use multithreading.RwLock.System.{
  System, Step, read, write, release, delete, resume_rd, resume_wr, Reach, created, later,
  SystemInv, after_call-SystemInv, Deleted-SlotInv, lock-unit, start_of,
}

module _ (l : MrswLock) (held rd wr : ℕ) (me : ℕ) (sem : Sema) (inv : LockInv l held rd wr) where
  resume_rd-LockInv :
      0 < rd
      → u_sema_lock none [] me S.wait l.sem_wait_rd ≡ done Osr.ok sem
      → LockInv (read_resume sem l) (held + 1) (rd - 1) wr
  resume_rd-LockInv pos e =
      let (v, t) = lock-unit me l.sem_wait_rd inv.type_rd e in
      record { counts = counts v; doomed = inv.doomed; type_rd = t; type_wr = inv.type_wr }
    where
      counts :
          sem.value + 1 ≡ l.sem_wait_rd.value → Counts (read_resume sem l) (held + 1) (rd - 1) wr
      counts v = ground (arith, inv.counts)

  resume_wr-LockInv :
      0 < wr
      → u_sema_lock none [] me S.wait l.sem_wait_wr ≡ done Osr.ok sem
      → LockInv (write_resume me sem l) (held + 1) rd (wr - 1)
  resume_wr-LockInv pos e =
      let (v, t) = lock-unit me l.sem_wait_wr inv.type_wr e in
      record { counts = counts v; doomed = inv.doomed; type_rd = inv.type_rd; type_wr = t }
    where
      counts :
          sem.value + 1 ≡ l.sem_wait_wr.value
          → Counts (write_resume me sem l) (held + 1) rd (wr - 1)
      counts v = ground (arith, inv.counts)

Step-SystemInv : {s t : System} → Step s t → SystemInv s → SystemInv t
Step-SystemInv {s} (read me option real room) inv = after_call-SystemInv s _ (
    u_rwl_read_lock-Acquired none true me option s.slot s.held s.blocked_rd s.blocked_wr real room
      inv)
Step-SystemInv {s} (write me option real room) inv =
    after_call-SystemInv s _ (
      u_rwl_write_lock-Acquired none true me option s.slot s.held s.blocked_rd s.blocked_wr room
        inv)
Step-SystemInv {s} (release me real h) inv =
    (u_rwl_release_lock-Released me s.slot s.held s.blocked_rd s.blocked_wr h inv).1
Step-SystemInv {s} delete inv =
    Deleted-SlotInv s.held s.blocked_rd s.blocked_wr _
      (u_rwl_delete_lock-Deleted s.slot s.held s.blocked_rd s.blocked_wr inv)
Step-SystemInv {s} (resume_rd me l sem pos e taken) inv =
    let i = subst (λ t. SlotInv t s.held s.blocked_rd s.blocked_wr) e inv in
    (refl, resume_rd-LockInv l _ _ _ me sem i.1 pos taken)
Step-SystemInv {s} (resume_wr me l sem pos e taken) inv =
    let i = subst (λ t. SlotInv t s.held s.blocked_rd s.blocked_wr) e inv in
    (refl, resume_wr-LockInv l _ _ _ me sem i.1 pos taken)

created-SystemInv :
    (me : ℕ) (t : Slot)
    → u_rwl_create_lock true true true true me ≡ (returned Rwlr.ok, t)
    → SystemInv (start_of t)
unfolding u_rwl_create_lock
created-SystemInv me t e = ground arith

Reach-SystemInv : {s : System} → Reach s → SystemInv s
Reach-SystemInv (created me t e) = created-SystemInv me t e
Reach-SystemInv (later r st) = Step-SystemInv st (Reach-SystemInv r)

module _ {s : System} (r : Reach s) (l : MrswLock) (e : s.slot ≡ locked_slot l) where
  lock_inv : LockInv l s.held s.blocked_rd s.blocked_wr
  lock_inv = (subst (λ t. SlotInv t s.held s.blocked_rd s.blocked_wr) e (Reach-SystemInv r)).1

  -- In every reachable state of a lock that is not freed: readers and a writer are never both
  -- counted, a nested read lock stands only under a write lock, and every grant that was made or is
  -- on its way through a semaphore is counted once.
  pub counts_exclusive :
      ((l.rd_access_cnt ≡ 0) ⊎ (l.wr_access_cnt ≡ 0))
      × ((l.rd_inside_wr_cnt ≡ 0) ⊎ (0 < l.wr_access_cnt))
      × (l.rd_access_cnt + l.wr_access_cnt + l.rd_inside_wr_cnt
          ≡ s.held + l.sem_wait_rd.value + l.sem_wait_wr.value)
  counts_exclusive = let c = lock_inv.counts in (c.excl, ground (arith, c.inside), c.account)

  -- No wake-up is lost: in every reachable state with a blocked thread, some thread has a grant
  -- that it will release, or a semaphore on which a thread is blocked has a unit. At most one unit
  -- is on its way, so no semaphore of the lock holds two.
  pub no_lost_wakeup :
      0 < s.blocked_rd + s.blocked_wr
      → ((0 < s.held)
          ⊎ ((0 < s.blocked_rd) × (0 < l.sem_wait_rd.value))
          ⊎ ((0 < s.blocked_wr) × (0 < l.sem_wait_wr.value)))
        × (l.sem_wait_rd.value + l.sem_wait_wr.value ≤ 1)
  no_lost_wakeup h = ground (arith, lock_inv.counts)

  -- A lock that is marked for deletion and not yet freed is still counted as locked, so some thread
  -- has it or is about to: its deletion is only put off.
  pub marked_in_use :
      l.del_flag ≡ true
      → (0 < l.rd_access_cnt + l.wr_access_cnt) × (0 < s.held + s.blocked_rd + s.blocked_wr)
  marked_in_use h = (lock_inv.doomed h, ground (arith, lock_inv.counts, lock_inv.doomed h))

-- In every reachable state with a grant, a thread that releases one gets RWLR_OK: the assertions of
-- `u_rwl_release_lock` do not fail.
pub release_safe :
    {s : System} (me : ℕ)
    → Reach s
    → 0 < s.held
    → (u_rwl_release_lock none true me s.slot).0 ≡ returned Rwlr.ok
release_safe {s} me r h =
    (u_rwl_release_lock-Released me s.slot s.held s.blocked_rd s.blocked_wr h (Reach-SystemInv r)).0

-- In every reachable state in which the lock is freed, no grant is left and no thread is blocked on
-- it.
pub freed_unused :
    {s : System} → Reach s → s.slot ≡ none → (s.held ≡ 0) × (s.blocked_rd ≡ 0) × (s.blocked_wr ≡ 0)
freed_unused {s} r e = subst (λ t. SlotInv t s.held s.blocked_rd s.blocked_wr) e (Reach-SystemInv r)
