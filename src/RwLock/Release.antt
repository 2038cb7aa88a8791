-- ===== src/RwLock/Release.antt =====
-- mw/rwlock/rwl_api.c: `u_rwl_release_lock`, the wake-ups and the deferred deletion.
use multithreading.Prelude.{
  ℕ, ◌+◌, ◌-◌, ◌<◌, ◌≡◌, ◌⊎◌, inl, inr, Bool, true, false, none, some, arith, ltb, ◌==◌, inc16,
  dec16, inc32, Bool-cases, ==_iff, refl, ap, ◌∙◌, if◌then◌else◌, ◌&&◌,
}
use multithreading.Os.{Osr}
use multithreading.Sema.{Sema, binary, invalid_pthread, u_sema_unlock}
use multithreading.RwLock.{
  MrswLock, Slot, Outcome, returned, Rwlr, null_handle, read_write_lock, unused, settle,
  free_rwlock_resource, release_read, release_write, release_body, u_rwl_release_lock,
}
use multithreading.RwLock.Invariant.{Counts, LockInv, SlotInv}

abbrev posted : Sema → Sema
posted s = record s { thread = invalid_pthread; value = inc32 s.value }

unlock-posted :
    (me : ℕ) (s : Sema) → s.e_type ≡ binary → u_sema_unlock none me s ≡ (Osr.ok, posted s)
unfolding u_sema_unlock
unlock-posted me s e = ground arith

-- A release that is granted: the caller's grant is gone, and the lock is in order or free.
abbrev pub Released : ℕ → ℕ → ℕ → Outcome × Slot → Type 0
Released held rd wr (o, s) = (o ≡ returned Rwlr.ok) × SlotInv s (held - 1) rd wr

free-freed :
    (l : MrswLock)
    → l.del_flag ≡ true
    → free_rwlock_resource true Rwlr.ok l ≡ (returned Rwlr.ok, none)
unfolding free_rwlock_resource
free-freed l d = ground arith

and-left : (a b : Bool) → (a && b) ≡ true → a ≡ true
and-left a b h = ground arith

and-right : (a b : Bool) → (a && b) ≡ true → b ≡ true
and-right a b h = ground arith

-- An unused lock is held by no thread, and none waits for it.
pub unused-none :
    (l : MrswLock) (held rd wr : ℕ)
    → Counts l held rd wr
    → unused l ≡ true
    → (held ≡ 0) × (rd ≡ 0) × (wr ≡ 0)
unused-none l held rd wr c h = ground arith

module _ (l : MrswLock) (held rd wr : ℕ) (c : Counts l held rd wr) where
  not_both : (ltb 0 l.rd_access_cnt && ltb 0 l.wr_access_cnt) ≡ false
  not_both = ground arith

  inside_held : ltb 0 l.rd_inside_wr_cnt ≡ true → ltb 0 l.wr_access_cnt ≡ true
  inside_held h = ground arith

  write_held :
      0 < held
      → ltb 0 l.rd_inside_wr_cnt ≡ false
      → ltb 0 l.rd_access_cnt ≡ false
      → ltb 0 l.wr_access_cnt ≡ true
  write_held h i a = ground arith

module _ (l : MrswLock) (held rd wr : ℕ) (inv : LockInv l held rd wr) (some_held : 0 < held) where
  c : Counts l held rd wr
  c = inv.counts

  -- The new counters `l'` with the semaphores `a` and `b` of the lock, one of them perhaps posted.
  renew :
      (l' : MrswLock)
      → l'.sem_wait_rd.e_type ≡ l.sem_wait_rd.e_type
      → l'.sem_wait_wr.e_type ≡ l.sem_wait_wr.e_type
      → 0 < l'.rd_access_cnt + l'.wr_access_cnt
      → Counts l' (held - 1) rd wr
      → LockInv l' (held - 1) rd wr
  renew l' e f busy c' = record {
    counts = c';
    doomed = λ h. busy;
    type_rd = e ∙ inv.type_rd;
    type_wr = f ∙ inv.type_wr;
  }

  -- Nobody is woken: the lock is still in use, or nobody waits, and then it is freed if it is
  -- marked for deletion.
  settle-Released :
      (l' : MrswLock)
      → l'.sem_wait_rd ≡ l.sem_wait_rd
      → l'.sem_wait_wr ≡ l.sem_wait_wr
      → (0 < l'.rd_access_cnt + l'.wr_access_cnt) ⊎ (unused l' ≡ true)
      → Counts l' (held - 1) rd wr
      → Released held rd wr (settle true l')
  settle-Released l' e f u c' = elim (Bool-cases (l'.del_flag && unused l')) [
    | inl gone ↦ rw gone (
        rw (free-freed l' (and-left _ _ gone))
          (refl, unused-none l' (held - 1) rd wr c' (and-right _ _ gone)))
    | inr kept ↦ rw kept (
      refl,
      (
        refl,
        record {
          counts = c';
          doomed = ground arith;
          type_rd = ap Sema.e_type e ∙ inv.type_rd;
          type_wr = ap Sema.e_type f ∙ inv.type_wr;
        },
      ),
    )
  ]

  pub release_inside :
      0 < l.rd_inside_wr_cnt
      → Counts (record l { rd_inside_wr_cnt = dec16 l.rd_inside_wr_cnt }) (held - 1) rd wr
  release_inside a = ground arith

  read_kept :
      0 < l.rd_access_cnt
      → (dec16 l.rd_access_cnt ≡ 0 → (l.rd_wait_cnt ≡ 0) × (l.wr_wait_cnt ≡ 0))
      → Counts (record l { rd_access_cnt = dec16 l.rd_access_cnt }) (held - 1) rd wr
  read_kept a h = ground arith

  read_to_reader :
      l.rd_access_cnt ≡ 1
      → 0 < l.rd_wait_cnt
      → Counts
          (record l {
            rd_access_cnt = inc16 (dec16 l.rd_access_cnt);
            rd_wait_cnt = dec16 l.rd_wait_cnt;
            sem_wait_rd = posted l.sem_wait_rd;
          })
          (held - 1)
          rd
          wr
  read_to_reader a b = ground arith

  read_to_writer :
      l.rd_access_cnt ≡ 1
      → 0 < l.wr_wait_cnt
      → Counts
          (record l {
            rd_access_cnt = dec16 l.rd_access_cnt;
            wr_access_cnt = inc16 l.wr_access_cnt;
            wr_wait_cnt = dec16 l.wr_wait_cnt;
            sem_wait_wr = posted l.sem_wait_wr;
          })
          (held - 1)
          rd
          wr
  read_to_writer a b = ground arith

  write_kept :
      0 < l.wr_access_cnt
      → l.rd_inside_wr_cnt ≡ 0
      → (owner : ℕ)
      → (dec16 l.wr_access_cnt ≡ 0
          → (l.rd_wait_cnt ≡ 0) × (l.wr_wait_cnt ≡ 0) × (owner ≡ null_handle))
      → Counts
          (record l { wr_access_cnt = dec16 l.wr_access_cnt; wr_thread = owner })
          (held - 1)
          rd
          wr
  write_kept a i owner h = ground arith

  write_to_writer :
      l.wr_access_cnt ≡ 1
      → l.rd_inside_wr_cnt ≡ 0
      → 0 < l.wr_wait_cnt
      → (me : ℕ)
      → Counts
          (record l {
            wr_access_cnt = inc16 (dec16 l.wr_access_cnt);
            wr_wait_cnt = dec16 l.wr_wait_cnt;
            wr_thread = me;
            sem_wait_wr = posted l.sem_wait_wr;
          })
          (held - 1)
          rd
          wr
  write_to_writer a i b me = ground arith

  write_to_reader :
      l.wr_access_cnt ≡ 1
      → l.rd_inside_wr_cnt ≡ 0
      → 0 < l.rd_wait_cnt
      → (owner : ℕ) → owner ≡ null_handle
      → Counts
          (record l {
            wr_access_cnt = dec16 l.wr_access_cnt;
            rd_access_cnt = inc16 l.rd_access_cnt;
            rd_wait_cnt = dec16 l.rd_wait_cnt;
            wr_thread = owner;
            sem_wait_rd = posted l.sem_wait_rd;
          })
          (held - 1)
          rd
          wr
  write_to_reader a i b owner o = ground arith

  release_read-Released :
      (me : ℕ)
      → 0 < l.rd_access_cnt
      → Released held rd wr
          (release_read none true me (record l { rd_access_cnt = dec16 l.rd_access_cnt }))
  unfolding release_read
  release_read-Released me a =
      elim (Bool-cases (ltb 0 l.rd_wait_cnt && (dec16 l.rd_access_cnt == 0))) [
        | inl w ↦
            rw (w, unlock-posted me l.sem_wait_rd inv.type_rd)
              (
                refl,
                (
                  refl,
                  renew _ refl refl (ground arith) (read_to_reader (ground arith) (ground arith)),
                ),
              )
        | inr n ↦ rw n (elim (Bool-cases ((dec16 l.rd_access_cnt == 0) && ltb 0 l.wr_wait_cnt)) [
          | inl w ↦
              rw (w, unlock-posted me l.sem_wait_wr inv.type_wr)
                (
                  refl,
                  (
                    refl,
                    renew _ refl refl (ground arith) (read_to_writer (ground arith) (ground arith)),
                  ),
                )
          | inr m ↦ rw m (settle-Released _ refl refl (ground arith) (read_kept a (ground arith)))
        ])
      ]

  release_write-Released :
      (me : ℕ)
      → 0 < l.wr_access_cnt
      → l.rd_inside_wr_cnt ≡ 0
      → Released held rd wr (
          release_write none true me (record l {
            wr_access_cnt = dec16 l.wr_access_cnt;
            wr_thread = if dec16 l.wr_access_cnt == 0 then null_handle else l.wr_thread;
          }))
  unfolding release_write
  release_write-Released me a i =
      elim (Bool-cases ((dec16 l.wr_access_cnt == 0) && ltb 0 l.wr_wait_cnt)) [
        | inl w ↦
            rw (w, unlock-posted me l.sem_wait_wr inv.type_wr)
              (
                refl,
                (
                  refl,
                  renew _ refl refl (ground arith)
                      (write_to_writer (ground arith) i (ground arith) me),
                ),
              )
        | inr n ↦ rw n (elim (Bool-cases ((dec16 l.wr_access_cnt == 0) && ltb 0 l.rd_wait_cnt)) [
          | inl w ↦
              rw (w, unlock-posted me l.sem_wait_rd inv.type_rd)
                (
                  refl,
                  (
                    refl,
                    renew _ refl refl (ground arith)
                        (write_to_reader (ground arith) i (ground arith) _ (ground arith)),
                  ),
                )
          | inr m ↦
              rw m (settle-Released _ refl refl (ground arith) (write_kept a i _ (ground arith)))
        ])
      ]

  release_body-Released : (me : ℕ) → Released held rd wr (release_body none true me l)
  unfolding release_body
  release_body-Released me = elim (Bool-cases (ltb 0 l.rd_inside_wr_cnt)) [
    | inl i ↦
        rw (not_both l held rd wr c, i, inside_held l held rd wr c i)
          (refl, (refl, renew _ refl refl (ground arith) (release_inside (ground arith))))
    | inr i ↦
        rw (not_both l held rd wr c, i)
          (elim (Bool-cases (ltb 0 l.rd_access_cnt)) [
            | inl a ↦ rw a (release_read-Released me (ground arith))
            | inr a ↦
                rw (a, write_held l held rd wr c some_held i a)
                  (release_write-Released me (ground arith) (ground arith))
          ])
  ]

-- When pthread does its part and some thread has the lock, `u_rwl_release_lock` returns RWLR_OK
-- (no assertion of the code fails, and nothing aborts), takes one grant away, and leaves a lock in
-- order, or frees it when no grant and no blocked thread is left.
pub u_rwl_release_lock-Released :
    (me : ℕ) (slot : Slot) (held rd wr : ℕ)
    → 0 < held
    → SlotInv slot held rd wr
    → Released held rd wr (u_rwl_release_lock none true me slot)
unfolding u_rwl_release_lock
u_rwl_release_lock-Released me none held rd wr h inv = absurd (omega arith)
u_rwl_release_lock-Released me (some (ty, l)) held rd wr h (t, inv) =
    rw ((==_iff ty read_write_lock).1 t) (release_body-Released l held rd wr inv h me)
