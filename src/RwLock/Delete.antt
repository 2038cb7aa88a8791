-- ===== src/RwLock/Delete.antt =====
-- mw/rwlock/rwl_api.c: `u_rwl_delete_lock`.
use multithreading.Prelude.{ℕ, ◌+◌, ◌<◌, ◌≡◌, Bool, true, false, none, some, arith, ==_iff, refl}
use multithreading.RwLock.{
  MrswLock, Slot, Outcome, returned, Rwlr, read_write_lock, locked_slot, unused, delete_body,
  u_rwl_delete_lock,
}
use multithreading.RwLock.Invariant.{Counts, LockInv, SlotInv}
use multithreading.RwLock.Release.{unused-none}

-- What `u_rwl_delete_lock` comes to.
abbrev pub Deleted : ℕ → ℕ → ℕ → Outcome × Slot → Type 0
Deleted held rd wr (returned r, s) = SlotInv s held rd wr
Deleted held rd wr (_, s) = ⊥

abbrev delete_table : (doomed free : Bool) → MrswLock → Outcome × Slot
delete_table true free l = (returned Rwlr.delete_in_progress, locked_slot l)
delete_table false true l = (returned Rwlr.ok, none)
delete_table false false l = (returned Rwlr.ok, locked_slot (record l { del_flag = true }))

delete_body-delete_table :
    (l : MrswLock) → delete_body true l ≡ delete_table l.del_flag (unused l) l
unfolding delete_body
delete_body-delete_table l = ground arith

Counts-del_flag :
    (l : MrswLock) (held rd wr : ℕ)
    → Counts l held rd wr
    → Counts (record l { del_flag = true }) held rd wr
Counts-del_flag l held rd wr c = omega arith

module _ (l : MrswLock) (held rd wr : ℕ) (inv : LockInv l held rd wr) where
  not_unused-busy : Counts l held rd wr → unused l ≡ false → 0 < l.rd_access_cnt + l.wr_access_cnt
  not_unused-busy c h = ground arith

  delete_table-Deleted :
      (d u : Bool) → l.del_flag ≡ d → unused l ≡ u → Deleted held rd wr (delete_table d u l)
  delete_table-Deleted true u ed eu = (refl, inv)
  delete_table-Deleted false true ed eu = unused-none l held rd wr inv.counts eu
  delete_table-Deleted false false ed eu = (
    refl,
    record {
      counts = Counts-del_flag l held rd wr inv.counts;
      doomed = λ _. not_unused-busy inv.counts eu;
      type_rd = inv.type_rd;
      type_wr = inv.type_wr;
    },
  )

-- From a slot in order, `u_rwl_delete_lock` returns, and leaves a slot in order with the same
-- counts: the lock is freed at once only if no grant and no blocked thread is left.
pub u_rwl_delete_lock-Deleted :
    (slot : Slot) (held rd wr : ℕ)
    → SlotInv slot held rd wr
    → Deleted held rd wr (u_rwl_delete_lock true slot)
unfolding u_rwl_delete_lock
u_rwl_delete_lock-Deleted none held rd wr inv = inv
u_rwl_delete_lock-Deleted (some (ty, l)) held rd wr (t, inv) =
    rw ((==_iff ty read_write_lock).1 t, delete_body-delete_table l)
      (delete_table-Deleted l held rd wr inv _ _ refl refl)
