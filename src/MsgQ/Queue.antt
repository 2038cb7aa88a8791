-- ===== src/MsgQ/Queue.antt =====
-- os_pthread_msg_q.c: the ring as a bounded queue of messages.
use multithreading.Prelude.{
  ℕ, ◌+◌, ◌-◌, ◌*◌, ◌^◌, ◌≤◌, ◌<◌, ◌≡◌, ap, ◌∙◌, some, List, ◌==◌, if◌then◌else◌, leb, length,
  get_elem?, arith, mul_test,
}
use multithreading.MsgQ.{Msg, MsgQ, advance, stored_size}

-- Slot numbers of a ring of `n + 1` slots.
abbrev pub wrap : (n i : ℕ) → ℕ
wrap n i = if leb i n then i else i - (n + 1)

-- The numbers of the slots at `read` and `write`, `n` messages apart.
pub record Places (q : MsgQ) (n r w : ℕ) : Type 0 where
  pub size : 0 < q.message_size
  pub small : q.message_size * (q.msg_count + 1) < 2 ^ 32
  pub narrow : q.msg_count < 65536
  pub at_read : q.read ≡ q.message_size * r
  pub at_write : q.write ≡ q.message_size * w
  pub at_end : q.end_ ≡ q.message_size * (q.msg_count + 1)
  pub fits : n ≤ q.msg_count
  pub low : r ≤ q.msg_count
  pub apart : w ≡ wrap q.msg_count (r + n)

-- The queue holds the messages `xs`, the oldest first: they stand in the slots, and their sizes are whole.
pub record Holds (q : MsgQ) (xs : List Msg) : Type 0 where
  pub r : ℕ
  pub w : ℕ
  pub places : Places q (length xs) r w
  pub cells :
      (i : ℕ)
      → i < length xs
      → get_elem? xs i ≡ some (q.slots (q.message_size * wrap q.msg_count (r + i)))
  pub whole :
      (i : ℕ)
      → i < length xs
      → stored_size q.size_t (q.slots (q.message_size * wrap q.msg_count (r + i)))
        ≡ length (q.slots (q.message_size * wrap q.msg_count (r + i)))

advance-wrap :
    (q : MsgQ) (i : ℕ)
    → 0 < q.message_size
    → q.end_ ≡ q.message_size * (q.msg_count + 1)
    → i ≤ q.msg_count
    → advance q (q.message_size * i) ≡ q.message_size * wrap q.msg_count (i + 1)
advance-wrap q i pos e h =
    let t = mul_test q.message_size (i + 1) (q.msg_count + 1) pos in ground (arith, t)

module _ (q : MsgQ) (xs : List Msg) (h : Holds q xs) where
  p : Places q (length xs) h.r h.w
  p = h.places

  write_low : h.w ≤ q.msg_count
  write_low = ground (arith, p.apart, p.fits, p.low)

  pub advance_write : advance q q.write ≡ q.message_size * wrap q.msg_count (h.w + 1)
  advance_write = ap (advance q) p.at_write ∙ advance-wrap q h.w p.size p.at_end write_low

  pub advance_read : advance q q.read ≡ q.message_size * wrap q.msg_count (h.r + 1)
  advance_read = ap (advance q) p.at_read ∙ advance-wrap q h.r p.size p.at_end p.low

  pub full_test : (advance q q.write == q.read) ≡ (length xs == q.msg_count)
  full_test =
      rw (advance_write, p.at_read, mul_test q.message_size (wrap q.msg_count (h.w + 1)) h.r p.size)
        (ground (arith, p.apart, p.fits, p.low))

  pub empty_test : (q.read == q.write) ≡ (length xs == 0)
  empty_test =
      rw (p.at_read, p.at_write, mul_test q.message_size h.r h.w p.size)
        (ground (arith, p.apart, p.fits, p.low))

  -- Of the slots from `read` on, `write` is the one behind the messages.
  pub write_test :
      (i : ℕ)
      → i ≤ length xs
      → (q.write == q.message_size * wrap q.msg_count (h.r + i)) ≡ (i == length xs)
  write_test i b =
      rw (p.at_write, mul_test q.message_size h.w (wrap q.msg_count (h.r + i)) p.size)
        (ground (arith, p.apart, p.fits, p.low))
