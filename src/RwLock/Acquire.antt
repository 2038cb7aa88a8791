-- ===== src/RwLock/Acquire.antt =====
-- mw/rwlock/rwl_api.c: the outcomes of `u_rwl_read_lock` and `u_rwl_write_lock`, and what they do
-- to the counters.
use multithreading.Prelude.{
  ℕ, ◌+◌, ◌<◌, ◌≡◌, ◌≢◌, Bool, true, false, none, some, arith, ◌==◌, inc16, ==_iff, refl, ap, ◌∙◌,
}
use multithreading.Os.{PthreadRet}
use multithreading.Sema.{Sema}
use multithreading.RwLock.{
  MrswLock, Slot, Outcome, returned, waits_rd, waits_wr, aborted, Rwlr, RwlOption, wait, nowait,
  null_handle, read_write_lock, locked_slot, read_free, write_free, write_again, read_body,
  write_body, u_rwl_read_lock, u_rwl_write_lock, rwl_read_lock_grabbed, u_rwl_write_lock_grabbed,
}
use multithreading.RwLock.Invariant.{
  Counts, LockInv, SlotInv, grant_read, grant_inside, queue_read, grant_write, grant_again,
  queue_write,
}

-- The busy outcome: the thread joins the queue, or is told that it would have to wait.
abbrev queue_rd : RwlOption → MrswLock → Outcome × Slot
queue_rd wait l = (waits_rd, locked_slot (record l { rd_wait_cnt = inc16 l.rd_wait_cnt }))
queue_rd nowait l = (returned Rwlr.would_block, locked_slot l)

abbrev queue_wr : RwlOption → MrswLock → Outcome × Slot
queue_wr wait l = (waits_wr, locked_slot (record l { wr_wait_cnt = inc16 l.wr_wait_cnt }))
queue_wr nowait l = (returned Rwlr.would_block, locked_slot l)

abbrev read_table : (doomed free mine : Bool) → RwlOption → MrswLock → Outcome × Slot
read_table true free mine option l = (returned Rwlr.delete_in_progress, locked_slot l)
read_table false true mine option l =
    (returned Rwlr.ok, locked_slot (record l { rd_access_cnt = inc16 l.rd_access_cnt }))
read_table false false true option l =
    (returned Rwlr.ok, locked_slot (record l { rd_inside_wr_cnt = inc16 l.rd_inside_wr_cnt }))
read_table false false false option l = queue_rd option l

abbrev write_table : (doomed free again : Bool) (me : ℕ) → RwlOption → MrswLock → Outcome × Slot
write_table true free again me option l = (returned Rwlr.delete_in_progress, locked_slot l)
write_table false true again me option l = (
  returned Rwlr.ok,
  locked_slot (record l { wr_access_cnt = inc16 l.wr_access_cnt; wr_thread = me }),
)
write_table false false true me option l =
    (returned Rwlr.ok, locked_slot (record l { wr_access_cnt = inc16 l.wr_access_cnt }))
write_table false false false me option l = queue_wr option l

-- The check of the deletion flag behind a grant never fails: it is made in the same critical
-- section as the first one.
read_body-read_table :
    (mutex_ret : PthreadRet) (destroy_ok : Bool) (me : ℕ) (option : RwlOption) (l : MrswLock)
    → read_body mutex_ret destroy_ok me option l
      ≡ read_table l.del_flag (read_free l) (l.wr_thread == me) option l
unfolding read_body
read_body-read_table mutex_ret destroy_ok me option l = ground arith

write_body-write_table :
    (mutex_ret : PthreadRet) (destroy_ok : Bool) (me : ℕ) (option : RwlOption) (l : MrswLock)
    → write_body mutex_ret destroy_ok me option l
      ≡ write_table l.del_flag (write_free l) (write_again me l) me option l
unfolding write_body
write_body-write_table mutex_ret destroy_ok me option l = ground arith

module _ (l : MrswLock) where
  read_free-zero :
      read_free l ≡ true → (l.wr_access_cnt ≡ 0) × (l.rd_wait_cnt ≡ 0) × (l.wr_wait_cnt ≡ 0)
  read_free-zero h = ground arith

  write_free-zero : write_free l ≡ true → l.rd_access_cnt ≡ 0
  write_free-zero h = ground arith

  write_again-pos : (me : ℕ) → write_again me l ≡ true → 0 < l.wr_access_cnt
  write_again-pos me h = ground arith

  -- Whoever is not served finds the lock in use.
  read_free-busy :
      (held rd wr : ℕ)
      → Counts l held rd wr
      → read_free l ≡ false
      → 0 < l.rd_access_cnt + l.wr_access_cnt
  read_free-busy held rd wr c h = ground arith

  write_free-busy :
      (held rd wr : ℕ)
      → Counts l held rd wr
      → write_free l ≡ false
      → 0 < l.rd_access_cnt + l.wr_access_cnt
  write_free-busy held rd wr c h = ground arith

-- What an attempt to get the lock comes to: a grant, one more blocked thread, or no change.
abbrev pub Acquired : ℕ → ℕ → ℕ → Outcome × Slot → Type 0
Acquired held rd wr (returned Rwlr.ok, s) = SlotInv s (held + 1) rd wr
Acquired held rd wr (returned _, s) = SlotInv s held rd wr
Acquired held rd wr (waits_rd, s) = SlotInv s held (rd + 1) wr
Acquired held rd wr (waits_wr, s) = SlotInv s held rd (wr + 1)
Acquired held rd wr (aborted, s) = ⊥

module _ (l : MrswLock) (held rd wr : ℕ) (inv : LockInv l held rd wr)
    (room : held + rd + wr < 65535) where
  c : Counts l held rd wr
  c = inv.counts

  -- A lock with a new set of counters is in order, if it is not marked for deletion.
  keep :
      (l' : MrswLock) (held' rd' wr' : ℕ)
      → l.del_flag ≡ false
      → l'.del_flag ≡ l.del_flag
      → l'.sem_wait_rd ≡ l.sem_wait_rd
      → l'.sem_wait_wr ≡ l.sem_wait_wr
      → Counts l' held' rd' wr'
      → LockInv l' held' rd' wr'
  keep l' held' rd' wr' d e f g c' = record {
    counts = c';
    doomed = λ h. cc;
    type_rd = ap Sema.e_type f ∙ inv.type_rd;
    type_wr = ap Sema.e_type g ∙ inv.type_wr;
  }

  read_table-Acquired :
      (me : ℕ) (option : RwlOption)
      → me ≢ null_handle
      → (d f m : Bool) → l.del_flag ≡ d
      → read_free l ≡ f
      → (l.wr_thread == me) ≡ m
      → Acquired held rd wr (read_table d f m option l)
  read_table-Acquired me option real true f m ed ef em = (refl, inv)
  read_table-Acquired me option real false true m ed ef em =
      let (a, b, d) = read_free-zero l ef in
      (refl, keep _ _ _ _ ed refl refl refl (grant_read l held rd wr c room a b d))
  read_table-Acquired me option real false false true ed ef em =
      (refl, keep _ _ _ _ ed refl refl refl (grant_inside l held rd wr c room (ground arith)))
  read_table-Acquired me wait real false false false ed ef em = (
    refl,
    keep _ _ _ _ ed refl refl refl
        (queue_read l held rd wr c room (read_free-busy l held rd wr c ef)),
  )
  read_table-Acquired me nowait real false false false ed ef em = (refl, inv)

  write_table-Acquired :
      (me : ℕ) (option : RwlOption) (d f a : Bool)
      → l.del_flag ≡ d
      → write_free l ≡ f
      → write_again me l ≡ a
      → Acquired held rd wr (write_table d f a me option l)
  write_table-Acquired me option true f a ed ef ea = (refl, inv)
  write_table-Acquired me option false true a ed ef ea = (
    refl,
    keep _ _ _ _ ed refl refl refl (grant_write l held rd wr c me room (write_free-zero l ef)),
  )
  write_table-Acquired me option false false true ed ef ea = (
    refl,
    keep _ _ _ _ ed refl refl refl (grant_again l held rd wr c room (write_again-pos l me ea)),
  )
  write_table-Acquired me wait false false false ed ef ea = (
    refl,
    keep _ _ _ _ ed refl refl refl
        (queue_write l held rd wr c room (write_free-busy l held rd wr c ef)),
  )
  write_table-Acquired me nowait false false false ed ef ea = (refl, inv)

module _ (mutex_ret : PthreadRet) (destroy_ok : Bool) (me : ℕ) (option : RwlOption) where
  -- From a slot in order, with room for one more grant, `u_rwl_read_lock` by a real thread leaves a
  -- slot in order: one more grant after RWLR_OK, one more blocked reader after a wait, and the same
  -- counts after any other return. It does not abort.
  pub u_rwl_read_lock-Acquired :
      (slot : Slot) (held rd wr : ℕ)
      → me ≢ null_handle
      → held + rd + wr < 65535
      → SlotInv slot held rd wr
      → Acquired held rd wr (u_rwl_read_lock mutex_ret destroy_ok me option slot)
  unfolding u_rwl_read_lock
  u_rwl_read_lock-Acquired none held rd wr real room inv = inv
  u_rwl_read_lock-Acquired (some (ty, l)) held rd wr real room (t, inv) =
      rw ((==_iff ty read_write_lock).1 t, read_body-read_table mutex_ret destroy_ok me option l)
        (read_table-Acquired l held rd wr inv room me option real _ _ _ refl refl refl)

  -- From a slot in order, with room for one more grant, `u_rwl_write_lock` leaves a slot in order:
  -- one more grant after RWLR_OK, one more blocked writer after a wait, and the same counts after
  -- any other return. It does not abort.
  pub u_rwl_write_lock-Acquired :
      (slot : Slot) (held rd wr : ℕ)
      → held + rd + wr < 65535
      → SlotInv slot held rd wr
      → Acquired held rd wr (u_rwl_write_lock mutex_ret destroy_ok me option slot)
  unfolding u_rwl_write_lock
  u_rwl_write_lock-Acquired none held rd wr room inv = inv
  u_rwl_write_lock-Acquired (some (ty, l)) held rd wr room (t, inv) =
      rw ((==_iff ty read_write_lock).1 t, write_body-write_table mutex_ret destroy_ok me option l)
        (write_table-Acquired l held rd wr inv room me option _ _ _ refl refl refl)

module _ (mutex_ret : PthreadRet) (destroy_ok : Bool) (me : ℕ) (option : RwlOption) where
  read_table-grabbed :
      (l : MrswLock) (held rd wr : ℕ) (d f m : Bool)
      → held + rd + wr < 65535
      → Counts l held rd wr
      → (read_table d f m option l).0 ≡ returned Rwlr.ok
      → rwl_read_lock_grabbed (read_table d f m option l).1 ≡ true
  unfolding rwl_read_lock_grabbed
  read_table-grabbed l held rd wr true f m room c e = ground arith
  read_table-grabbed l held rd wr false true m room c e = ground arith
  read_table-grabbed l held rd wr false false true room c e = ground arith
  read_table-grabbed l held rd wr false false false room c e = ground arith

  write_table-grabbed :
      (l : MrswLock) (held rd wr : ℕ) (d f a : Bool)
      → held + rd + wr < 65535
      → Counts l held rd wr
      → write_free l ≡ f
      → write_again me l ≡ a
      → (write_table d f a me option l).0 ≡ returned Rwlr.ok
      → (u_rwl_write_lock_grabbed me (write_table d f a me option l).1 ≡ true)
        × (rwl_read_lock_grabbed (write_table d f a me option l).1 ≡ false)
  unfolding rwl_read_lock_grabbed u_rwl_write_lock_grabbed
  write_table-grabbed l held rd wr true f a room c ef ea e = ground arith
  write_table-grabbed l held rd wr false true a room c ef ea e = ground arith
  write_table-grabbed l held rd wr false false true room c ef ea e = ground arith
  write_table-grabbed l held rd wr false false false room c ef ea e = ground arith

  -- From a slot in order, with room for one more grant: after a read lock was granted,
  -- `rwl_read_lock_grabbed` says so.
  pub read_grabbed :
      (slot : Slot) (held rd wr : ℕ)
      → held + rd + wr < 65535
      → SlotInv slot held rd wr
      → (u_rwl_read_lock mutex_ret destroy_ok me option slot).0 ≡ returned Rwlr.ok
      → rwl_read_lock_grabbed (u_rwl_read_lock mutex_ret destroy_ok me option slot).1 ≡ true
  unfolding u_rwl_read_lock
  read_grabbed none held rd wr room inv = λ e. absurd (cc)
  read_grabbed (some (ty, l)) held rd wr room (t, inv) =
      rw ((==_iff ty read_write_lock).1 t, read_body-read_table mutex_ret destroy_ok me option l)
        (read_table-grabbed l held rd wr _ _ _ room inv.counts)

  -- From a slot in order, with room for one more grant: after a write lock was granted,
  -- `u_rwl_write_lock_grabbed` says so to the thread that has it, and no read lock is reported.
  pub write_grabbed :
      (slot : Slot) (held rd wr : ℕ)
      → held + rd + wr < 65535
      → SlotInv slot held rd wr
      → (u_rwl_write_lock mutex_ret destroy_ok me option slot).0 ≡ returned Rwlr.ok
      → (u_rwl_write_lock_grabbed me (u_rwl_write_lock mutex_ret destroy_ok me option slot).1
          ≡ true)
        × (rwl_read_lock_grabbed (u_rwl_write_lock mutex_ret destroy_ok me option slot).1 ≡ false)
  unfolding u_rwl_write_lock
  write_grabbed none held rd wr room inv = λ e. absurd (cc)
  write_grabbed (some (ty, l)) held rd wr room (t, inv) =
      rw ((==_iff ty read_write_lock).1 t, write_body-write_table mutex_ret destroy_ok me option l)
        (write_table-grabbed l held rd wr _ _ _ room inv.counts refl refl)
