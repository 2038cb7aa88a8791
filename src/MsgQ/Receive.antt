-- ===== src/MsgQ/Receive.antt =====
-- os_pthread_msg_q.c: `x_msg_q_receive` on a queue of messages.
use multithreading.Prelude.{
  some_inj, ℕ, zero, suc, ◌+◌, ◌*◌, ◌^◌, ◌≤◌, ◌<◌, ◌≢◌, ◌≡◌, ◌⊎◌, inl, inr, refl, sym, ap, subst,
  ◌∙◌, true, false, none, some, List, [], ◌∷◌, ◌++◌, ◌==◌, if◌then◌else◌, ltb, length, arith, take,
  take_all, Bool-cases, ne→==,
}
use multithreading.Os.{Osr, done}
use multithreading.MsgQ.{
  Msg, MsgQ, MsgQOption, wait, nowait, other_option, advance, get, stored_size, word,
  x_msg_q_receive, receive_loop,
}
use multithreading.MsgQ.Queue.{wrap, Holds, advance_read, empty_test}

take-append : (k : ℕ) (xs ys : Msg) → k ≤ length xs → take k (xs ++ ys) ≡ take k xs
take-append zero xs ys b = refl
take-append (suc k) [] ys b = absurd (omega arith)
take-append (suc k) (x ∷ xs) ys b = ap (λ l. x ∷ l) (take-append k xs ys (omega arith))

cut_take :
    (room : ℕ) (msg rest : Msg)
    → take (if ltb room (length msg) then room else length msg) (msg ++ rest) ≡ take room msg
cut_take room msg rest = elim (Bool-cases (ltb room (length msg))) [
  | inl less ↦ rw less (take-append room msg rest (ground arith))
  | inr all ↦ rw all (
      take-append (length msg) msg rest (omega arith)
      ∙ take_all (length msg) msg (omega arith)
      ∙ sym (take_all room msg (ground arith)))
]

module _ (q : MsgQ) (msg : Msg) (xs : List Msg) (h : Holds q (msg ∷ xs)) where
  first_slot : q.slots q.read ≡ msg
  first_slot =
      let number : wrap q.msg_count (h.r + 0) ≡ h.r = ground (arith, h.places.low) in
      let place =
        ap (λ k. q.slots (q.message_size * k)) number ∙ ap q.slots (sym h.places.at_read) in
      let cell = h.cells 0 (omega arith) in sym place ∙ sym (some_inj cell)

  get-Holds : (behind : MsgQ → List ℕ) (room : ℕ) → Holds (get behind room q).0 xs
  get-Holds behind room = record {
    r = wrap q.msg_count (h.r + 1);
    w = h.w;
    places = record {
      size = h.places.size;
      small = h.places.small;
      narrow = h.places.narrow;
      at_read = advance_read q (msg ∷ xs) h;
      at_write = h.places.at_write;
      at_end = h.places.at_end;
      fits = omega (arith, h.places.fits);
      low = ground (arith, h.places.low);
      apart = ground (arith, h.places.apart, h.places.low, h.places.fits);
    };
    cells = λ i b.
        h.cells (suc i) (omega arith)
        ∙ ap (λ k. some (q.slots (q.message_size * k)))
            (ground (arith, h.places.low, h.places.fits));
    whole = λ i b.
        subst
          (λ k.
            stored_size q.size_t (q.slots (q.message_size * k))
            ≡ length (q.slots (q.message_size * k)))
          (ground (arith, h.places.low, h.places.fits)) (h.whole (suc i) (omega arith));
  }

  first_size : stored_size q.size_t msg ≡ length msg
  first_size =
      let number : wrap q.msg_count (h.r + 0) ≡ h.r = ground (arith, h.places.low) in
      subst (λ m. stored_size q.size_t m ≡ length m) first_slot
        (subst (λ k. stored_size q.size_t (q.slots k) ≡ length (q.slots k))
          (ap (λ k. q.message_size * k) number ∙ sym h.places.at_read) (h.whole 0 (omega arith)))

loop-get :
    (behind : MsgQ → List ℕ) (ws : List MsgQ) (room : ℕ) (option : MsgQOption) (q : MsgQ)
    → (q.read == q.write) ≡ false
    → receive_loop behind option room ws q ≡ done Osr.ok (get behind room q)
unfolding receive_loop
loop-get behind [] room option q some_msg = rw some_msg refl
loop-get behind (w ∷ ws) room option q some_msg = rw some_msg refl

receive-loop :
    (behind : MsgQ → List ℕ) (ws : List MsgQ) (room : ℕ) (option : MsgQOption) (q : MsgQ)
    → 0 < room
    → (option ≡ wait) ⊎ (option ≡ nowait)
    → x_msg_q_receive behind none ws true room 1 option q ≡ receive_loop behind option room ws q
unfolding x_msg_q_receive
receive-loop behind ws room wait q pos o = rw (ne→== room 0 (omega arith)) refl
receive-loop behind ws room nowait q pos o = rw (ne→== room 0 (omega arith)) refl
receive-loop behind ws room other_option q pos (inl e) = absurd (cc)
receive-loop behind ws room other_option q pos (inr e) = absurd (cc)

-- From a queue that holds the messages `msg ∷ xs`, which means that the SIZE_T in front of each is still its
-- length, with pthread doing its part and room for at least one byte, `x_msg_q_receive` with either option returns OSR_OK without a wait and the first `room` bytes of
-- the oldest message, and leaves the others.
pub x_msg_q_receive-Holds :
    (behind : MsgQ → List ℕ) (ws : List MsgQ) (room : ℕ) (option : MsgQOption) (q : MsgQ)
    (msg : Msg) (xs : List Msg)
    → Holds q (msg ∷ xs)
    → 0 < room
    → (option ≡ wait) ⊎ (option ≡ nowait)
    → (t : MsgQ) × (x_msg_q_receive behind none ws true room 1 option q
        ≡ done Osr.ok (t, some (take room msg)))
      × Holds t xs
x_msg_q_receive-Holds behind ws room option q msg xs h some_room o = (
  (get behind room q).0,
  receive-loop behind ws room option q some_room o
      ∙ loop-get behind ws room option q (empty_test q (msg ∷ xs) h ∙ ground arith)
      ∙ ap
          (λ (m : Msg).
            let z_size : ℕ = stored_size q.size_t m in
            done Osr.ok (
              record q { read = advance q q.read },
              some (take (if ltb room z_size then room else z_size) (m ++ behind q)),
            ))
          (first_slot q msg xs h)
      ∙ ap
          (λ (z : ℕ). done Osr.ok (
            record q { read = advance q q.read },
            some (take (if ltb room z then room else z) (msg ++ behind q)),
          ))
          (first_size q msg xs h)
      ∙ ap (λ (m : Msg). done Osr.ok (record q { read = advance q q.read }, some m))
          (cut_take room msg (behind q)),
  get-Holds q msg xs h behind room,
)

-- From a queue that holds no message, with pthread doing its part and room for at least one byte,
-- `x_msg_q_receive` that may not wait returns OSR_NO_MSG and changes nothing.
pub x_msg_q_receive-empty :
    (behind : MsgQ → List ℕ) (ws : List MsgQ) (room : ℕ) (q : MsgQ)
    → Holds q []
    → 0 < room
    → x_msg_q_receive behind none ws true room 1 nowait q ≡ done Osr.no_msg (q, none)
unfolding receive_loop
x_msg_q_receive-empty behind [] room q h pos =
    receive-loop behind [] room nowait q pos (inr refl) ∙ rw (empty_test q [] h) refl
x_msg_q_receive-empty behind (w ∷ ws) room q h pos =
    receive-loop behind (w ∷ ws) room nowait q pos (inr refl) ∙ rw (empty_test q [] h) refl

-- In a build whose SIZE_T has 8 bytes, where the oldest message has a byte other than 0 among its first 4 and
-- the caller has room for 1 to 2 ^ 32 bytes, `x_msg_q_receive` with either option returns OSR_OK with `room`
-- bytes: the message, and where it is shorter what stands behind it in memory.
pub x_msg_q_receive-wide :
    (behind : MsgQ → List ℕ) (ws : List MsgQ) (room : ℕ) (option : MsgQOption) (q : MsgQ)
    → q.size_t ≡ 8
    → (q.read == q.write) ≡ false
    → word (take 4 (q.slots q.read)) ≢ 0
    → 0 < room
    → room ≤ 2 ^ 32
    → (option ≡ wait) ⊎ (option ≡ nowait)
    → x_msg_q_receive behind none ws true room 1 option q
      ≡ done Osr.ok
          (record q { read = advance q q.read }, some (take room (q.slots q.read ++ behind q)))
x_msg_q_receive-wide behind ws room option q wide some_msg over some_room small o =
    receive-loop behind ws room option q some_room o
    ∙ loop-get behind ws room option q some_msg
    ∙ ap
        (λ (z : ℕ).
          done Osr.ok
            (record q { read = advance q q.read }, some (take z (q.slots q.read ++ behind q))))
        (all_room q wide over small)
  where
    all_room :
        (q : MsgQ)
        → q.size_t ≡ 8
        → word (take 4 (q.slots q.read)) ≢ 0
        → room ≤ 2 ^ 32
        → (if ltb room (stored_size q.size_t (q.slots q.read))
            then room
            else stored_size q.size_t (q.slots q.read))
          ≡ room
    all_room q wide over small = rw wide (ground arith)
