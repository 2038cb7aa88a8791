-- ===== src/MsgQ.antt =====
-- mw/os_pthread/os_pthread_msg_q.c: a message queue as a ring of slots of equal size. The pointers
-- `read`, `write` and `end` are distances in bytes from `start`; `slots` holds the message behind a
-- distance. `size_t` is sizeof (SIZE_T), 4 or 8 as the build has it: a slot begins with a SIZE_T, the size
-- of its message, but the message is written from the byte 4 on. Words are little-endian. A message is a
-- list of bytes. `mutex_ret` is what `pthread_mutex_lock` returns.
pub mod Queue
pub mod Send
pub mod Receive
pub mod Setup
pub mod Names
pub mod Registry
pub mod Attach
mod Examples
use multithreading.Prelude.{
  ℕ, zero, suc, ◌+◌, ◌-◌, ◌*◌, ◌/◌, ◌%◌, ◌^◌, Bool, true, false, Option, none, some, List, [], ◌∷◌,
  ◌++◌, ◌==◌, ◌&&◌, ◌||◌, not, if◌then◌else◌, leb, ltb, length, take,
}
use multithreading.Os.{
  Osr, PthreadRet, osr_of_errno, osr_of_timed_errno, Run, done, blocked, Timespec, add_time, of_ms,
}

abbrev pub Msg : Type 0
Msg = List ℕ

-- OS_MSGQ_LIGHT_T, less its name, its places in the list of queues and its pthread objects.
pub record MsgQ : Type 0 where
  pub size_t : ℕ
  pub read : ℕ
  pub write : ℕ
  pub end_ : ℕ
  pub message_size : ℕ
  pub z_maxsize : ℕ
  pub msg_count : ℕ
  pub refcount : ℕ
  pub slots : ℕ → Msg

-- MSGQ_MAX_DATA_SIZE, MSGQ_MAX_MSGS
abbrev pub max_data_size : ℕ
max_data_size = 4096 + 512

abbrev pub max_msgs : ℕ
max_msgs = 4095

-- The size of a slot.
abbrev pub slot_size : (size_t z_msg_size : ℕ) → ℕ
slot_size size_t z_msg_size = size_t + (z_msg_size + 3) / 4 * 4

-- `x_msg_q_create`, less the entry in the list of queues. `args_given` says that the name is not
-- empty and no pointer is NULL, `mem` that `calloc` succeeds, `known` that the name is in use.
unfoldable pub x_msg_q_create :
    (size_t : ℕ) (args_given mem known : Bool) (z_msg_size msg_count : ℕ) → Osr × Option MsgQ
x_msg_q_create size_t args_given mem known z_msg_size msg_count =
    if not args_given
      || ltb max_data_size z_msg_size
      || ltb max_msgs msg_count
      || (z_msg_size == 0)
      || (msg_count == 0)
    then (Osr.inv_arg, none)
    else if not mem
    then (Osr.no_resource, none)
    else if known
    then (Osr.exist, none)
    else (
      Osr.ok,
      some (record {
        size_t = size_t;
        read = 0;
        write = 0;
        end_ = slot_size size_t z_msg_size * (msg_count + 1);
        message_size = slot_size size_t z_msg_size;
        z_maxsize = z_msg_size;
        msg_count = msg_count;
        refcount = 1;
        slots = λ p. [];
      }),
    )

-- The slot behind the one at `p`.
abbrev pub advance : MsgQ → ℕ → ℕ
advance q p = if p + q.message_size == q.end_ then 0 else p + q.message_size

abbrev pub put : Msg → MsgQ → MsgQ
put msg q = record q {
  slots = λ p. if q.write == p then msg else q.slots p;
  write = advance q q.write;
}

-- `x_msg_q_send`; `given` says that `pv_msg` is not NULL.
unfoldable pub x_msg_q_send : PthreadRet → (given : Bool) → Msg → MsgQ → Osr × MsgQ
x_msg_q_send mutex_ret given msg q =
    if not given || (length msg == 0)
    then (Osr.inv_arg, q)
    else if ltb q.z_maxsize (length msg)
    then (Osr.too_big, q)
    else elim mutex_ret [
      | some e ↦ (osr_of_errno e, q)
      | none ↦ if advance q q.write == q.read then (Osr.too_many, q) else (Osr.ok, put msg q)
    ]

pub data MsgQOption : Type 0 where
  wait nowait other_option : MsgQOption

-- The number whose bytes these are.
abbrev pub word : List ℕ → ℕ
word [] = 0
word (b ∷ bs) = b + 256 * word bs

-- What the SIZE_T at the beginning of a slot says when the message is written: a SIZE_T of 8 bytes has the
-- first 4 bytes of the message as its upper half.
abbrev pub stored_size : (size_t : ℕ) → Msg → ℕ
stored_size size_t msg = if size_t == 4 then length msg else length msg + 2 ^ 32 * word (take 4 msg)

-- The bytes from the message at `read` on, as many as the SIZE_T in front of it says, and at most the `room`
-- bytes of the caller. `behind` is what stands behind the message in memory.
abbrev pub get : (behind : MsgQ → List ℕ) (room : ℕ) → MsgQ → MsgQ × Option Msg
get behind room q =
    let msg = q.slots q.read in
    let z_size : ℕ = stored_size q.size_t msg in
    (
      record q { read = advance q q.read },
      some (take (if ltb room z_size then room else z_size) (msg ++ behind q)),
    )

-- The loop while the queue is empty, and what follows: `wakes` are the states that the returns of
-- `pthread_cond_wait` find.
unfoldable pub receive_loop :
    (behind : MsgQ → List ℕ) → MsgQOption → (room : ℕ) → List MsgQ → MsgQ → Run (MsgQ × Option Msg)
receive_loop behind option room [] q =
    if q.read == q.write
    then elim option [ nowait ↦ done Osr.no_msg (q, none) | _ ↦ blocked (q, none) ]
    else done Osr.ok (get behind room q)
receive_loop behind option room (w ∷ ws) q =
    let rest = receive_loop behind option room ws w in
    if q.read == q.write
    then elim option [ nowait ↦ done Osr.no_msg (q, none) | _ ↦ rest ]
    else done Osr.ok (get behind room q)

abbrev pub args_ok : Bool → (room count : ℕ) → Bool
args_ok given room count = given && not (room == 0) && not (count == 0)

-- `x_msg_q_receive`; `given` says that no pointer is NULL, `room` is `*pz_size`, and `count` the
-- length of the list of queues.
unfoldable pub x_msg_q_receive :
    (behind : MsgQ → List ℕ)
    → PthreadRet
    → List MsgQ
    → (given : Bool) (room count : ℕ) → MsgQOption
    → MsgQ
    → Run (MsgQ × Option Msg)
unfolding receive_loop
x_msg_q_receive behind mutex_ret ws given room count option q = elim option [
  | other_option ↦ done Osr.inv_arg (q, none)
  | o ↦
      if not (args_ok given room count)
      then done Osr.inv_arg (q, none)
      else if not (count == 1)
      then done Osr.not_support (q, none)
      else elim mutex_ret [
        | some e ↦ done (osr_of_errno e) (q, none)
        | none ↦ receive_loop behind o room ws q
      ]
]

-- The loop of `x_msg_q_receive_timeout`: a wake-up has a return value and a state.
unfoldable pub timed_loop :
    (behind : MsgQ → List ℕ) (room : ℕ) → List (PthreadRet × MsgQ) → MsgQ → Run (MsgQ × Option Msg)
timed_loop behind room [] q =
    if q.read == q.write then blocked (q, none) else done Osr.ok (get behind room q)
timed_loop behind room ((r, w) ∷ ws) q =
    let rest = timed_loop behind room ws w in
    if q.read == q.write
    then elim r [ some e ↦ done (osr_of_timed_errno e) (w, none) | none ↦ rest ]
    else done Osr.ok (get behind room q)

-- `x_msg_q_receive_timeout`; `waits` is what the waits up to a deadline come to.
unfoldable pub x_msg_q_receive_timeout :
    (behind : MsgQ → List ℕ)
    → PthreadRet
    → (now : Timespec) (waits : Timespec → List (PthreadRet × MsgQ))
    → (given : Bool) (room count ms : ℕ) → MsgQ
    → Run (MsgQ × Option Msg)
unfolding timed_loop add_time
x_msg_q_receive_timeout behind mutex_ret now waits given room count ms q =
    if not (args_ok given room count)
    then done Osr.inv_arg (q, none)
    else if not (count == 1)
    then done Osr.not_support (q, none)
    else elim mutex_ret [
      | some e ↦ done (osr_of_timed_errno e) (q, none)
      | none ↦ timed_loop behind room (waits (add_time now (of_ms ms))) q
    ]

-- The numbers that a SIZE_T has.
abbrev pub size_range : MsgQ → ℕ
size_range q = if q.size_t == 4 then 2 ^ 32 else 2 ^ 64

-- `x_msg_q_num_msgs`, with a result pointer; the distances are SIZE_T.
unfoldable pub x_msg_q_num_msgs : MsgQ → ℕ
x_msg_q_num_msgs q =
    let messages : ℕ = (q.write + size_range q - q.read) % size_range q in
    (if ltb q.write q.read then (messages + q.end_) % size_range q else messages)
    / q.message_size
    % 2 ^ 16

-- `x_msg_q_flush` of a handle that is not NULL
unfoldable pub x_msg_q_flush : PthreadRet → MsgQ → Osr × MsgQ
x_msg_q_flush (some e) q = (osr_of_errno e, q)
x_msg_q_flush none q =
    (Osr.ok, record q { read = 0; write = 0; end_ = q.message_size * (q.msg_count + 1) })
