-- ===== src/MsgQ/Send.antt =====
-- os_pthread_msg_q.c: `x_msg_q_send` on a queue of messages.
use multithreading.Prelude.{
  ℕ, ◌+◌, ◌*◌, ◌≤◌, ◌<◌, ◌≡◌, ◌⊎◌, inl, inr, refl, sym, ap, subst, some_inj, ◌∙◌, true, false,
  Option, none, some, List, [], ◌∷◌, ◌++◌, ◌==◌, ltb, length, get_elem?, length-append, arith,
  get_elem-append_left, get_elem-append_end, Bool-cases,
}
use multithreading.Os.{Osr}
use multithreading.MsgQ.{Msg, MsgQ, put, stored_size, x_msg_q_send}
use multithreading.MsgQ.Queue.{wrap, Places, Holds, advance_write, full_test, write_test}

module _ (q : MsgQ) (xs : List Msg) (h : Holds q xs) where
  p : Places q (length xs) h.r h.w
  p = h.places

  put-Holds :
      (msg : Msg)
      → stored_size q.size_t msg ≡ length msg
      → length xs < q.msg_count
      → Holds (put msg q) (xs ++ msg ∷ [])
  put-Holds msg right free = record {
    r = h.r;
    w = wrap q.msg_count (h.w + 1);
    places = record {
      size = p.size;
      small = p.small;
      narrow = p.narrow;
      at_read = p.at_read;
      at_write = advance_write q xs h;
      at_end = p.at_end;
      fits = omega (arith, length-append xs (msg ∷ []));
      low = p.low;
      apart = ground (arith, p.apart, p.fits, p.low, length-append xs (msg ∷ []));
    };
    cells = λ i b. elim (Bool-cases (ltb i (length xs))) [
      | inl old ↦
          get_elem-append_left xs (msg ∷ []) i (ground arith)
          ∙ h.cells i (ground arith)
          ∙ kept i (ground arith)
      | inr new ↦ last i (ends i b new)
    ];
    whole = λ i b. elim (Bool-cases (ltb i (length xs))) [
      | inl old ↦
          let same = some_inj (kept i (ground arith)) in
          subst (λ m. stored_size q.size_t m ≡ length m) same (h.whole i (ground arith))
      | inr new ↦
          let same = some_inj (
            sym (get_elem-append_end xs msg)
            ∙ sym (ap (get_elem? (xs ++ msg ∷ [])) (ends i b new))
            ∙ last i (ends i b new)) in
          subst (λ m. stored_size q.size_t m ≡ length m) same right
    ];
  }
    where
      ends : (i : ℕ) → i < length (xs ++ msg ∷ []) → ltb i (length xs) ≡ false → i ≡ length xs
      ends i b new = ground (arith, length-append xs (msg ∷ []))

      kept :
          (i : ℕ)
          → i < length xs
          → Path
              (Option Msg)
              (some (q.slots (q.message_size * wrap q.msg_count (h.r + i))))
              (some ((put msg q).slots (q.message_size * wrap q.msg_count (h.r + i))))
      kept i b = ground (arith, write_test q xs h i)

      last :
          (i : ℕ)
          → i ≡ length xs
          → get_elem? (xs ++ msg ∷ []) i
            ≡ some ((put msg q).slots (q.message_size * wrap q.msg_count (h.r + i)))
      last i b =
          ap (get_elem? (xs ++ msg ∷ [])) b
          ∙ get_elem-append_end xs msg
          ∙ ground (arith, write_test q xs h i)

-- In a build whose SIZE_T has 4 bytes, on a queue that holds the messages `xs`, with pthread doing its
-- part, `x_msg_q_send` of a message that
-- is not empty and not too big puts it behind them and returns OSR_OK while fewer than
-- `ui2_msg_count` are there; a full queue is not changed, and OSR_TOO_MANY is returned.
pub x_msg_q_send-Holds :
    (q : MsgQ) (xs : List Msg) (msg : Msg)
    → Holds q xs
    → q.size_t ≡ 4
    → 0 < length msg
    → length msg ≤ q.z_maxsize
    → ((length xs < q.msg_count)
        × ((x_msg_q_send none true msg q).0 ≡ Osr.ok)
        × Holds (x_msg_q_send none true msg q).1 (xs ++ msg ∷ []))
      ⊎ ((length xs ≡ q.msg_count) × (x_msg_q_send none true msg q ≡ (Osr.too_many, q)))
unfolding x_msg_q_send
x_msg_q_send-Holds q xs msg h word some_bytes fit =
    let a : (length msg == 0) ≡ false = ground arith in
    let b : ltb q.z_maxsize (length msg) ≡ false = ground arith in
    rw (a, b, full_test q xs h)
      (elim (Bool-cases (length xs == q.msg_count)) [
        | inl full ↦ rw full (inr (ground arith, refl))
        | inr free ↦ rw free (
            inl (
              ground (arith, h.places.fits),
              refl,
              put-Holds q xs h msg (rw word refl) (ground (arith, h.places.fits)),
            ))
      ])
