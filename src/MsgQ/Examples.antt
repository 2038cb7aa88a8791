-- ===== src/MsgQ/Examples.antt =====
-- os_pthread_msg_q.c: a ring of three slots.
use multithreading.Prelude.{
  ℕ, ◌+◌, ◌==◌, if◌then◌else◌, ◌<◌, ◌≡◌, ◌⊎◌, inl, refl, true, some, none, [], ◌∷◌, take, arith,
}
use multithreading.Os.{Osr, done}
use multithreading.MsgQ.{MsgQ, wait, x_msg_q_send, x_msg_q_receive}
use multithreading.MsgQ.Queue.{Holds}
use multithreading.MsgQ.Send.{x_msg_q_send-Holds}
use multithreading.MsgQ.Receive.{x_msg_q_receive-Holds, x_msg_q_receive-wide}
use multithreading.MsgQ.Names.{MsgQList, x_msg_q_attach, x_msg_q_delete}
use multithreading.MsgQ.Registry.{Registry}
use multithreading.MsgQ.Attach.{x_msg_q_delete-x_msg_q_attach}

-- `write` has gone round the end: the message stands in the last slot.
abbrev one_msg : MsgQ
one_msg = record {
  size_t = 4;
  read = 16;
  write = 0;
  end_ = 24;
  message_size = 8;
  z_maxsize = 4;
  msg_count = 2;
  refcount = 1;
  slots = λ p. 7 ∷ 8 ∷ [];
}

abbrev no_msgs : MsgQ
no_msgs = record one_msg { read = 0 }

one_msg-Holds : Holds one_msg ((7 ∷ 8 ∷ []) ∷ [])
one_msg-Holds = record {
  r = 2;
  w = 0;
  places = record {
    size = omega arith;
    small = omega arith;
    narrow = omega arith;
    at_read = refl;
    at_write = refl;
    at_end = refl;
    fits = omega arith;
    low = omega arith;
    apart = refl;
  };
  cells = λ i b. ground arith;
  whole = λ i b. refl;
}

no_msgs-Holds : Holds no_msgs []
no_msgs-Holds = record {
  r = 0;
  w = 0;
  places = record {
    size = omega arith;
    small = omega arith;
    narrow = omega arith;
    at_read = refl;
    at_write = refl;
    at_end = refl;
    fits = omega arith;
    low = omega arith;
    apart = refl;
  };
  cells = λ i b. absurd (omega arith);
  whole = λ i b. absurd (omega arith);
}

x_msg_q_send-Holds_example :
    ((1 < one_msg.msg_count)
      × ((x_msg_q_send none true (9 ∷ []) one_msg).0 ≡ Osr.ok)
      × Holds (x_msg_q_send none true (9 ∷ []) one_msg).1 ((7 ∷ 8 ∷ []) ∷ (9 ∷ []) ∷ []))
    ⊎ ((1 ≡ one_msg.msg_count)
        × (x_msg_q_send none true (9 ∷ []) one_msg ≡ (Osr.too_many, one_msg)))
x_msg_q_send-Holds_example =
    x_msg_q_send-Holds one_msg ((7 ∷ 8 ∷ []) ∷ []) (9 ∷ []) one_msg-Holds refl (omega arith)
      (omega arith)

x_msg_q_receive-Holds_example :
    (t : MsgQ) × (x_msg_q_receive (λ q. 9 ∷ []) none [] true 1 1 wait one_msg
      ≡ done Osr.ok (t, some (take 1 (7 ∷ 8 ∷ []))))
    × Holds t []
x_msg_q_receive-Holds_example =
    x_msg_q_receive-Holds (λ q. 9 ∷ []) [] 1 wait one_msg (7 ∷ 8 ∷ []) [] one_msg-Holds
      (omega arith) (inl refl)

-- The same with a SIZE_T of 8 bytes: the caller gets a third byte.
abbrev wide_msg : MsgQ
wide_msg = record one_msg { size_t = 8; end_ = 36; message_size = 12; read = 24 }

wide_msg_receive :
    x_msg_q_receive (λ q. 9 ∷ []) none [] true 3 1 wait wide_msg
    ≡ done Osr.ok (record wide_msg { read = 0 }, some (7 ∷ 8 ∷ 9 ∷ []))
wide_msg_receive =
    x_msg_q_receive-wide (λ q. 9 ∷ []) [] 3 wait wide_msg refl refl (λ e. absurd (omega (arith, e)))
      (omega arith) (omega arith) (inl refl)

-- The queues 8 and 16, named a and b.
abbrev two_queues : MsgQList
two_queues = record {
  links = record {
    next = λ k. if k == 8 then 16 else if k == 16 then 8 else 0;
    previous = λ k. if k == 8 then 16 else if k == 16 then 8 else 0;
  };
  s_msg_q_list = 8;
  names = λ k. if k == 8 then 97 ∷ [] else 98 ∷ [];
  queues = λ k. one_msg;
}

two_queues-Registry : Registry two_queues (8 ∷ 16 ∷ [])
two_queues-Registry = record {
  ring = (refl, (refl, refl, (refl, refl)), (refl, (refl, tt)), refl);
  unique = ((refl, tt), (tt, tt));
}

x_msg_q_delete-x_msg_q_attach_example :
    (s' : MsgQList) × (x_msg_q_attach 2 true (98 ∷ []) two_queues ≡ some (Osr.ok, s', some 16))
    × Registry s' (8 ∷ 16 ∷ [])
    × ((s'.queues 16).refcount ≡ (two_queues.queues 16).refcount + 1)
    × ((x_msg_q_delete 16 s').0 ≡ Osr.ok)
    × ((x_msg_q_delete 16 s').1.links ≡ two_queues.links)
    × ((x_msg_q_delete 16 s').1.s_msg_q_list ≡ two_queues.s_msg_q_list)
    × ((k : ℕ) → (x_msg_q_delete 16 s').1.queues k ≡ two_queues.queues k)
x_msg_q_delete-x_msg_q_attach_example =
    x_msg_q_delete-x_msg_q_attach 2 16 (98 ∷ []) two_queues (8 ∷ 16 ∷ []) two_queues-Registry refl
      (ground arith) (omega arith) (omega arith) (omega arith)
