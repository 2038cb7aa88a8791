-- ===== src/MsgQ/Setup.antt =====
-- os_pthread_msg_q.c: `x_msg_q_create`, `x_msg_q_flush` and `x_msg_q_num_msgs`.
use multithreading.Prelude.{
  ℕ, ◌+◌, ◌-◌, ◌*◌, ◌%◌, ◌^◌, ◌≤◌, ◌<◌, ◌≡◌, inl, inr, refl, sym, ap, ◌∙◌, true, false, none, some,
  List, [], if◌then◌else◌, leb, ltb, length, arith, mul_lt, mul_ltb, mul_split, mul_le, Bool-cases,
}
use native.Mathlib.Nat.{div-eq_of_eq-mul_right}
use multithreading.Os.{Osr}
use multithreading.MsgQ.{Msg, MsgQ, slot_size, x_msg_q_create, x_msg_q_num_msgs, x_msg_q_flush}
use multithreading.MsgQ.Queue.{wrap, Holds}

-- The distance in bytes from `read` to `write`, for `n` messages.
distance :
    (m c r w n : ℕ)
    → 0 < m
    → m * (c + 1) < 2 ^ 32
    → n ≤ c
    → r ≤ c
    → w ≡ wrap c (r + n)
    → (if ltb (m * w) (m * r)
        then ((m * w + 2 ^ 32 - m * r) % 2 ^ 32 + m * (c + 1)) % 2 ^ 32
        else (m * w + 2 ^ 32 - m * r) % 2 ^ 32)
      ≡ m * n
distance m c r w n pos small fits low apart = elim (Bool-cases (leb (r + n) c)) [
  | inl ahead ↦
      let place : w ≡ r + n = ground arith in
      let order : ltb w r ≡ false = ground arith in
      let bytes = ap (λ k. m * k) place ∙ mul_split m r n in
      let short = mul_lt m n (c + 1) pos (omega arith) in
      rw (mul_ltb m w r pos, order) (omega (arith, bytes, short))
  | inr behind ↦
      let place : w + (c + 1) ≡ r + n = ground arith in
      let below : w < r = omega arith in
      let order : ltb w r ≡ true = ground arith in
      let bytes = sym (mul_split m w (c + 1)) ∙ ap (λ k. m * k) place ∙ mul_split m r n in
      let short = mul_lt m n (c + 1) pos (omega arith) in
      let less = mul_lt m w r pos below in
      let within = mul_lt m r (c + 1) pos (omega arith) in
      rw (mul_ltb m w r pos, order) (omega (arith, bytes, short, less, within))
]

-- `x_msg_q_num_msgs` gives the number of the messages that a queue holds, in a build whose SIZE_T has 4 bytes.
pub x_msg_q_num_msgs-Holds :
    (q : MsgQ) (xs : List Msg) → Holds q xs → q.size_t ≡ 4 → x_msg_q_num_msgs q ≡ length xs
unfolding x_msg_q_num_msgs
x_msg_q_num_msgs-Holds q xs h word =
    let p = h.places in
    let bytes =
      distance q.message_size q.msg_count h.r h.w (length xs) p.size p.small p.fits p.low p.apart in
    rw
      (
        word,
        p.at_read,
        p.at_write,
        p.at_end,
        bytes,
        div-eq_of_eq-mul_right {m = q.message_size * length xs} p.size refl,
      )
      (omega (arith, p.fits, p.narrow))

-- `x_msg_q_flush`, with pthread doing its part, returns OSR_OK and leaves an empty queue.
pub x_msg_q_flush-Holds :
    (q : MsgQ) (xs : List Msg)
    → Holds q xs
    → ((x_msg_q_flush none q).0 ≡ Osr.ok) × Holds (x_msg_q_flush none q).1 []
unfolding x_msg_q_flush
x_msg_q_flush-Holds q xs h = (
  refl,
  record {
    r = 0;
    w = 0;
    places = record {
      size = h.places.size;
      small = h.places.small;
      narrow = h.places.narrow;
      at_read = omega arith;
      at_write = omega arith;
      at_end = refl;
      fits = omega arith;
      low = omega arith;
      apart = ground arith;
    };
    cells = λ i b. absurd (omega arith);
    whole = λ i b. absurd (omega arith);
  },
)

abbrev fresh : ℕ → ℕ → ℕ → MsgQ
fresh size_t z_msg_size msg_count = record {
  size_t = size_t;
  read = 0;
  write = 0;
  end_ = slot_size size_t z_msg_size * (msg_count + 1);
  message_size = slot_size size_t z_msg_size;
  z_maxsize = z_msg_size;
  msg_count = msg_count;
  refcount = 1;
  slots = λ p. [];
}

create-fresh :
    (size_t z_msg_size msg_count : ℕ)
    → 0 < z_msg_size
    → z_msg_size ≤ 4608
    → 0 < msg_count
    → msg_count ≤ 4095
    → x_msg_q_create size_t true true false z_msg_size msg_count
      ≡ (Osr.ok, some (fresh size_t z_msg_size msg_count))
unfolding x_msg_q_create
create-fresh size_t z_msg_size msg_count a b c d = ground arith

fresh-small :
    (size msg_count : ℕ) → size ≤ 4616 → msg_count ≤ 4095 → size * (msg_count + 1) < 2 ^ 32
fresh-small size msg_count a b = let c = mul_le (msg_count + 1) size 4616 a in omega (arith, c)

fresh-Holds :
    (size_t z_msg_size msg_count : ℕ)
    → 4 ≤ size_t
    → size_t ≤ 8
    → z_msg_size ≤ 4608
    → msg_count ≤ 4095
    → Holds (fresh size_t z_msg_size msg_count) []
fresh-Holds size_t z_msg_size msg_count lo hi a b = record {
  r = 0;
  w = 0;
  places = record {
    size = omega arith;
    small = fresh-small (slot_size size_t z_msg_size) msg_count (omega arith) b;
    narrow = omega arith;
    at_read = omega arith;
    at_write = omega arith;
    at_end = refl;
    fits = omega arith;
    low = omega arith;
    apart = ground arith;
  };
  cells = λ i b. absurd (omega arith);
  whole = λ i b. absurd (omega arith);
}

-- With a SIZE_T of 4 to 8 bytes, `x_msg_q_create` with a name that is not in use, memory, and sizes within its bounds returns OSR_OK and
-- an empty queue for `msg_count` messages of up to `z_msg_size` bytes.
pub x_msg_q_create-Holds :
    (size_t z_msg_size msg_count : ℕ)
    → 4 ≤ size_t
    → size_t ≤ 8
    → 0 < z_msg_size
    → z_msg_size ≤ 4608
    → 0 < msg_count
    → msg_count ≤ 4095
    → (q : MsgQ) × (x_msg_q_create size_t true true false z_msg_size msg_count ≡ (Osr.ok, some q))
      × Holds q []
      × (q.msg_count ≡ msg_count)
      × (q.z_maxsize ≡ z_msg_size)
x_msg_q_create-Holds size_t z_msg_size msg_count lo hi a b c d = (
  fresh size_t z_msg_size msg_count,
  create-fresh size_t z_msg_size msg_count a b c d,
  fresh-Holds size_t z_msg_size msg_count lo hi b d,
  refl,
  refl,
)
