-- ===== src/Thread/Examples.antt =====
-- Examples of os_pthread_thread.c: two threads at the addresses 8 and 16, two blocks of private data.
use multithreading.Prelude.{
  ℕ, ◌+◌, true, false, none, some, List, [], ◌∷◌, map, ◌==◌, ◌≡◌, refl, if◌then◌else◌, arith,
}
use multithreading.Os.{Osr}
use multithreading.Ring.Chain.{Chain, Through}
use multithreading.Thread.{Pvt, PvtList, Thread, Threads}
use multithreading.Thread.Own.{u_thread_get_pvt, u_thread_set_pvt, u_thread_del_pvt}
use multithreading.Thread.Contents.{Keyed, u_thread_get_pvt-u_thread_set_pvt}
use multithreading.Thread.Delete.{u_thread_get_pvt-u_thread_del_pvt}
use multithreading.Thread.Names.{Request, u_thread_get_pri, u_thread_set_pri, thread_key_destructor}
use multithreading.Thread.Create.{Registry}
use multithreading.Thread.Exit.{thread_key_destructor-Registry}
use multithreading.Thread.Sched.{u_thread_set_pri-u_thread_get_pri}

abbrev swap : ℕ → ℕ
swap k = if k == 8 then 16 else 8

abbrev two : Chain
two = record { links = record { next = swap; previous = swap }; first = 8 }

two-Through : Through two (8 ∷ 16 ∷ [])
two-Through = (refl, (refl, refl, (refl, refl)), (refl, (refl, tt)), refl)

abbrev block : ℕ → Pvt
block k = record { ui4_key = k; pf_pvt_del = 1000; pv_pvt = k + 1 }

abbrev blocks : PvtList
blocks = record { pt_pvt = two; blocks = block; calls = [] }

blocks-Keyed : Keyed blocks (8 ∷ 16 ∷ [])
blocks-Keyed = record { through = two-Through; apart = ((refl, tt), (tt, tt)) }

abbrev thread_at : ℕ → Thread
thread_at k = record {
  s_name = k ∷ [];
  z_stack_size = 16384;
  pf_main_rtn = 2000;
  au1_arg_local = [];
  suspend = false;
  sched_priority = 10;
  private = blocks;
}

abbrev threads : Threads
threads = record { s_thread_list = two; threads = thread_at }

threads-Registry : Registry threads (8 ∷ 16 ∷ [])
threads-Registry = record { through = two-Through; unique = ((refl, tt), (tt, tt)) }

abbrev request : Request
request = record {
  given = true;
  ps_name = 97 ∷ 98 ∷ [];
  z_stack_size = 2048;
  ui1_priority = 128;
  pf_main_rtn = 3000;
  pv_arg = some (1 ∷ 2 ∷ []);
}

u_thread_get_pvt-u_thread_set_pvt_example :
    (p' : PvtList) × (u_thread_set_pvt 3 true (some 24) (block 5) blocks ≡ some (Osr.ok, p'))
    × Keyed p' (8 ∷ 16 ∷ 24 ∷ [])
    × (map p'.blocks (8 ∷ 16 ∷ 24 ∷ []) ≡ block 8 ∷ block 16 ∷ block 5 ∷ [])
    × ((key : ℕ)
        → u_thread_get_pvt 3 true key p'
          ≡ (if 5 == key then some (Osr.ok, some 6) else u_thread_get_pvt 3 true key blocks))
u_thread_get_pvt-u_thread_set_pvt_example =
    u_thread_get_pvt-u_thread_set_pvt blocks 24 (block 5) (8 ∷ 16 ∷ []) 3 blocks-Keyed refl refl
      (omega arith)

u_thread_get_pvt-u_thread_del_pvt_example :
    (p' : PvtList) × (ys : List ℕ) × (u_thread_del_pvt 2 true 8 blocks ≡ some (Osr.ok, p'))
    × Keyed p' ys
    × (map p'.blocks ys ≡ block 16 ∷ [])
    × (p'.calls ≡ block 8 ∷ [])
    × ((other : ℕ)
        → u_thread_get_pvt 2 true other p' ≡ (
            if 8 == other
            then some (Osr.key_not_found, none)
            else u_thread_get_pvt 2 true other blocks))
u_thread_get_pvt-u_thread_del_pvt_example =
    u_thread_get_pvt-u_thread_del_pvt blocks 8 (block 8) (8 ∷ 16 ∷ []) 2 blocks-Keyed refl
      (omega arith)

thread_key_destructor-Registry_example :
    (s' : Threads) × (thread_key_destructor 3 8 threads ≡ some s')
    × Registry s' (16 ∷ [])
    × ((s'.threads 8).private.pt_pvt.first ≡ 0)
    × ((s'.threads 8).private.calls ≡ block 8 ∷ block 16 ∷ [])
thread_key_destructor-Registry_example =
    thread_key_destructor-Registry 3 8 threads (8 ∷ 16 ∷ []) (8 ∷ 16 ∷ []) threads-Registry refl
      two-Through (omega arith)

u_thread_set_pri-u_thread_get_pri_example :
    (p : ℕ) × (s' : Threads) × (u_thread_get_pri 2 true true 16 threads ≡ some (Osr.ok, some p))
    × (u_thread_set_pri 2 true true 16 p threads ≡ some (Osr.ok, s'))
    × ((s'.threads 16).sched_priority ≡ 11)
u_thread_set_pri-u_thread_get_pri_example =
    u_thread_set_pri-u_thread_get_pri 2 16 threads (8 ∷ 16 ∷ []) two-Through refl (omega arith)
      (omega arith) (omega arith)
