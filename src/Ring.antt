-- ===== src/Ring.antt =====
-- The circular lists of mw/os_pthread/os_pthread_msg_q.c, os_pthread_thread.c and timerd/_timer.c: each object has the
-- fields `next` and `previous`, and a static variable points at the first one. The fields are kept as
-- functions of the address; NULL is 0.
pub mod Walk
pub mod Insert
pub mod Remove
pub mod Chain
pub mod Find
use multithreading.Prelude.{ℕ, Bool, ◌==◌, if◌then◌else◌}

pub record Links : Type 0 where
  pub next : ℕ → ℕ
  pub previous : ℕ → ℕ

abbrev pub store : (ℕ → ℕ) → ℕ → ℕ → ℕ → ℕ
store f a v b = if a == b then v else f b

-- `t->previous = p->previous; t->next = p; p->previous->next = t; p->previous = t;`
unfoldable pub insert_before : (t p : ℕ) → Links → Links
insert_before t p l =
    let a = store l.previous t (l.previous p) in
    record { next = store (store l.next t p) (a p) t; previous = store a p t }

-- `t->previous->next = t->next; t->next->previous = t->previous;`
unfoldable pub unlink : (t : ℕ) → Links → Links
unlink t l =
    let a = store l.next (l.previous t) (l.next t) in
    record { next = a; previous = store l.previous (a t) (l.previous t) }
