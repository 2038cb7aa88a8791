-- ===== src/RwLock/System.antt =====
-- mw/rwlock/rwl_api.c: any number of threads over one lock, a critical section at a time. The
-- threads are counted, not named: `held` grants have not been released yet, and so many threads
-- are blocked in `u_sema_lock`. So a step may be taken for any thread identifier but NULL_HANDLE;
-- in the program fewer steps are open. The counters are 16 bits wide: a thread calls for the lock
-- only while fewer than 65535 grants and blocked threads are there. pthread and the release of a
-- semaphore succeed.
use multithreading.Prelude.{ℕ, ◌+◌, ◌-◌, ◌<◌, ◌≡◌, ◌≢◌, true, none, arith, []}
use multithreading.Os.{Osr, done}
use multithreading.Sema.{
  Sema, binary, u_sema_lock, enter, take_value, u_sema_create, invalid_pthread,
}
use multithreading.Sema as S
use multithreading.RwLock.{
  MrswLock, Slot, Outcome, returned, waits_rd, waits_wr, aborted, Rwlr, RwlOption, null_handle,
  locked_slot, u_rwl_create_lock, u_rwl_read_lock, u_rwl_write_lock, u_rwl_release_lock,
  u_rwl_delete_lock, read_resume, write_resume,
}
use multithreading.RwLock.Invariant.{SlotInv}
use multithreading.RwLock.Acquire.{Acquired}
use multithreading.RwLock.Delete.{Deleted}

pub record System : Type 0 where
  pub slot : Slot
  pub held : ℕ
  pub blocked_rd : ℕ
  pub blocked_wr : ℕ

abbrev pub crowd : System → ℕ
crowd s = s.held + s.blocked_rd + s.blocked_wr

-- The counts after a call for the lock.
abbrev pub after_call : System → Outcome × Slot → System
after_call s (returned Rwlr.ok, t) = record s { slot = t; held = s.held + 1 }
after_call s (waits_rd, t) = record s { slot = t; blocked_rd = s.blocked_rd + 1 }
after_call s (waits_wr, t) = record s { slot = t; blocked_wr = s.blocked_wr + 1 }
after_call s (_, t) = record s { slot = t }

-- `resume_rd` and `resume_wr` are the end of a wait: `u_sema_lock` takes a unit.
pub data Step (s : System) : System → Type 0 where
  read :
      (me : ℕ) (option : RwlOption)
      → me ≢ null_handle
      → crowd s < 65535
      → Step s (after_call s (u_rwl_read_lock none true me option s.slot))
  write :
      (me : ℕ) (option : RwlOption)
      → me ≢ null_handle
      → crowd s < 65535
      → Step s (after_call s (u_rwl_write_lock none true me option s.slot))
  release :
      (me : ℕ)
      → me ≢ null_handle
      → 0 < s.held
      → Step s (record s { slot = (u_rwl_release_lock none true me s.slot).1; held = s.held - 1 })
  delete : Step s (record s { slot = (u_rwl_delete_lock true s.slot).1 })
  resume_rd :
      (me : ℕ) (l : MrswLock) (sem : Sema)
      → 0 < s.blocked_rd
      → s.slot ≡ locked_slot l
      → u_sema_lock none [] me S.wait l.sem_wait_rd ≡ done Osr.ok sem
      → Step s (record s {
        slot = locked_slot (read_resume sem l);
        blocked_rd = s.blocked_rd - 1;
        held = s.held + 1;
      })
  resume_wr :
      (me : ℕ) (l : MrswLock) (sem : Sema)
      → 0 < s.blocked_wr
      → s.slot ≡ locked_slot l
      → u_sema_lock none [] me S.wait l.sem_wait_wr ≡ done Osr.ok sem
      → Step s (record s {
        slot = locked_slot (write_resume me sem l);
        blocked_wr = s.blocked_wr - 1;
        held = s.held + 1;
      })

-- After `u_rwl_create_lock`.
abbrev pub start_of : Slot → System
start_of t = record { slot = t; held = 0; blocked_rd = 0; blocked_wr = 0 }

pub data Reach : System → Type 0 where
  created :
      (me : ℕ) (t : Slot)
      → u_rwl_create_lock true true true true me ≡ (returned Rwlr.ok, t)
      → Reach (start_of t)
  later : {s t : System} → Reach s → Step s t → Reach t

abbrev pub SystemInv : System → Type 0
SystemInv s = SlotInv s.slot s.held s.blocked_rd s.blocked_wr

pub after_call-SystemInv :
    (s : System) (r : Outcome × Slot)
    → Acquired s.held s.blocked_rd s.blocked_wr r
    → SystemInv (after_call s r)
after_call-SystemInv s (returned Rwlr.ok, t) h = h
after_call-SystemInv s (returned Rwlr.fail, t) h = h
after_call-SystemInv s (returned Rwlr.invalid_handle, t) h = h
after_call-SystemInv s (returned Rwlr.delete_in_progress, t) h = h
after_call-SystemInv s (returned Rwlr.would_block, t) h = h
after_call-SystemInv s (waits_rd, t) h = h
after_call-SystemInv s (waits_wr, t) h = h
after_call-SystemInv s (aborted, t) h = absurd h

pub Deleted-SlotInv :
    (held rd wr : ℕ) (r : Outcome × Slot) → Deleted held rd wr r → SlotInv r.1 held rd wr
Deleted-SlotInv held rd wr (returned r, t) h = h
Deleted-SlotInv held rd wr (waits_rd, t) h = absurd h
Deleted-SlotInv held rd wr (waits_wr, t) h = absurd h
Deleted-SlotInv held rd wr (aborted, t) h = absurd h

-- A binary semaphore that is waited for without a wake-up gives a unit only if it has one.
pub lock-unit :
    (me : ℕ) (s : Sema) {t : Sema}
    → s.e_type ≡ binary
    → u_sema_lock none [] me S.wait s ≡ done Osr.ok t
    → (t.value + 1 ≡ s.value) × (t.e_type ≡ binary)
unfolding u_sema_lock enter take_value
lock-unit me s b e = ground arith
