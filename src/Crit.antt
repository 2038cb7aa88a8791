-- ===== src/Crit.antt =====
-- mw/os_pthread/os_pthread_crit.c: the critical section, which a thread may enter again. The calls of all
-- threads are cut into steps at each access to the shared state, and the steps of different threads are
-- taken in any order. A thread is a number other than 0; 0 stands for INVALID_PTHREAD_T, and for a mutex
-- that nobody holds.
pub mod Exclusive
mod Examples
use multithreading.Prelude.{
  ℕ, zero, suc, ◌+◌, ◌%◌, ◌^◌, ◌<◌, ◌≡◌, ◌≢◌, ◌==◌, ◌&&◌, Bool, List, [], ◌∷◌, length,
  if◌then◌else◌,
}

-- Where a thread is, with the levels that its calls of `u_crit_start` have returned and that it has not yet
-- given to `u_crit_end`, the last one first; `aborted` when an assertion of `u_crit_end` has failed.
pub data Place : Type 0 where
  calm locking entering counting : List ℕ → Place
  clearing unlocking aborted : Place

-- `s_crit`, and the place of each thread.
pub record Crit : Type 0 where
  pub mutex : ℕ
  pub thread : ℕ
  pub i2_selfcount : ℕ
  pub places : ℕ → Place

abbrev pub go : ℕ → Place → (ℕ → Place) → ℕ → Place
go t p places k = if t == k then p else places k

-- The last two lines of `u_crit_start`, on an INT16: the counter is returned as it is then.
unfoldable pub count_up : (t : ℕ) (levels : List ℕ) → Crit → Crit
count_up t ls s =
    let i2_selfcount : ℕ = (s.i2_selfcount + 1) % 2 ^ 16 in
    record s { i2_selfcount = i2_selfcount; places = go t (calm (i2_selfcount ∷ ls)) s.places }

-- The two assertions of `u_crit_end`.
abbrev pub asserts : (t t_old_level : ℕ) → Crit → Bool
asserts t t_old_level s = (s.thread == t) && (s.i2_selfcount == t_old_level)

-- `u_crit_end` up to the test of the counter.
unfoldable pub count_down : (t t_old_level : ℕ) (levels : List ℕ) → Crit → Crit
count_down t t_old_level ls s =
    let left : ℕ = (s.i2_selfcount + 65535) % 2 ^ 16 in
    if asserts t t_old_level s
    then record s {
      i2_selfcount = left;
      places = go t (if left == 0 then clearing else calm ls) s.places;
    }
    else record s { places = go t aborted s.places }

-- The steps. `u_crit_start` compares, and locks when another thread or none is inside; `u_crit_end` asserts,
-- counts down, clears and unlocks, and is given the level of the last `u_crit_start` that was not yet ended. A
-- section is nested at most 32766 deep.
pub data Step : Crit → Crit → Type 0 where
  start_again :
      {s : Crit} (t : ℕ) (ls : List ℕ)
      → t ≢ 0
      → s.places t ≡ calm ls
      → s.thread ≡ t
      → Step s (record s { places = go t (counting ls) s.places })
  start_first :
      {s : Crit} (t : ℕ) (ls : List ℕ)
      → t ≢ 0
      → s.places t ≡ calm ls
      → s.thread ≢ t
      → Step s (record s { places = go t (locking ls) s.places })
  lock :
      {s : Crit} (t : ℕ) (ls : List ℕ)
      → t ≢ 0
      → s.places t ≡ locking ls
      → s.mutex ≡ 0
      → Step s (record s { mutex = t; places = go t (entering ls) s.places })
  set_thread :
      {s : Crit} (t : ℕ) (ls : List ℕ)
      → t ≢ 0
      → s.places t ≡ entering ls
      → Step s (record s { thread = t; places = go t (counting ls) s.places })
  count :
      {s : Crit} (t : ℕ) (ls : List ℕ)
      → t ≢ 0
      → s.places t ≡ counting ls
      → length ls < 32766
      → Step s (count_up t ls s)
  end_ :
      {s : Crit} (t l : ℕ) (ls : List ℕ)
      → t ≢ 0
      → s.places t ≡ calm (l ∷ ls)
      → Step s (count_down t l ls s)
  clear :
      {s : Crit} (t : ℕ)
      → t ≢ 0
      → s.places t ≡ clearing
      → Step s (record s { thread = 0; places = go t unlocking s.places })
  unlock :
      {s : Crit} (t : ℕ)
      → t ≢ 0
      → s.places t ≡ unlocking
      → Step s (record s { mutex = 0; places = go t (calm []) s.places })

-- Any number of steps.
pub data Steps : Crit → Crit → Type 0 where
  stay : {s : Crit} → Steps s s
  more : {s r q : Crit} → Step s r → Steps r q → Steps s q
