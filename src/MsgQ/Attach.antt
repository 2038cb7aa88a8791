-- ===== src/MsgQ/Attach.antt =====
-- os_pthread_msg_q.c: `x_msg_q_create`, `x_msg_q_attach` and `x_msg_q_delete` on the list of queues.
use multithreading.Prelude.{
  ℕ, ◌+◌, ◌-◌, ◌%◌, ◌^◌, ◌<◌, ◌≤◌, true, false, some, List, [], ◌∷◌, ◌++◌, ◌==◌, ◌&&◌, ◌≡◌, ◌≢◌,
  refl, sym, ap, ◌∙◌, subst, if◌then◌else◌, ltb, take, length, has, erase, arith, inl, inr,
  Bool-cases, has-apart, eq→==, ne→==, ℕ_discrete,
}
use multithreading.Os.{Osr}
use multithreading.Ring.{insert_before}
use multithreading.Ring.Walk.{Ring}
use multithreading.Ring.Insert.{Ring-last}
use multithreading.Ring.Remove.{Ring-cut, alone, Ring-zero}
use multithreading.MsgQ.{MsgQ}
use multithreading.MsgQ.Queue.{Holds}
use multithreading.MsgQ.Setup.{x_msg_q_create-Holds}
use multithreading.MsgQ.Names.{
  MsgQList, name_len, msg_q_list_add, msg_q_list_remove, set_queue, set_name, enter_list,
  create_named, x_msg_q_attach, x_msg_q_delete,
}
use multithreading.MsgQ.Registry.{
  named, Unique, Registry, msg_q_find_obj-named, named_zero, Unique-end, erase-Unique, Unused-frame,
  take_twice,
}

-- A queue goes to the end of the list.
add-Ring :
    (s : MsgQList) (t : ℕ) (xs : List ℕ)
    → Ring s.links s.s_msg_q_list xs
    → has t (0 ∷ xs) ≡ false
    → Ring (msg_q_list_add t s).links (msg_q_list_add t s).s_msg_q_list (xs ++ t ∷ [])
unfolding msg_q_list_add
add-Ring s t [] r n =
    rw (eq→== s.s_msg_q_list 0 r) (refl, (ground arith, ground arith), (refl, tt), ground arith)
add-Ring s t (x ∷ xs) (e, w, d, o) n =
    let some_queue : (s.s_msg_q_list == 0) ≡ false = ground arith in
    rw some_queue (
      subst (λ k. Ring (insert_before t k s.links) k (x ∷ xs ++ t ∷ [])) (sym e)
        (Ring-last s.links t x xs n (refl, w, d, o)))

add-names : (s : MsgQList) (t : ℕ) → (msg_q_list_add t s).names ≡ s.names
unfolding msg_q_list_add
add-names s t = elim (Bool-cases (s.s_msg_q_list == 0)) [ inl p ↦ rw p refl | inr p ↦ rw p refl ]

add-queues : (s : MsgQList) (t : ℕ) → (msg_q_list_add t s).queues ≡ s.queues
unfolding msg_q_list_add
add-queues s t = elim (Bool-cases (s.s_msg_q_list == 0)) [ inl p ↦ rw p refl | inr p ↦ rw p refl ]

remove-Ring :
    (s : MsgQList) (t : ℕ) (xs : List ℕ)
    → Ring s.links s.s_msg_q_list xs
    → has t xs ≡ true
    → Ring (msg_q_list_remove t s).links (msg_q_list_remove t s).s_msg_q_list (erase t xs)
unfolding msg_q_list_remove
remove-Ring s t xs r h = elim (Bool-cases (s.links.previous t == t)) [
  | inl p ↦
      let ys = alone s.links s.s_msg_q_list t xs r h (ground arith) in
      rw p (subst (λ zs. Ring s.links 0 zs) (sym ys) refl)
  | inr p ↦ rw p (Ring-cut s.links s.s_msg_q_list t xs r h (ground arith))
]

remove-names : (s : MsgQList) (t : ℕ) → (msg_q_list_remove t s).names ≡ s.names
unfolding msg_q_list_remove
remove-names s t = elim (Bool-cases (s.links.previous t == t)) [
  | inl p ↦ rw p refl
  | inr p ↦ rw p refl
]

-- The queue that `x_msg_q_create` makes.
abbrev pub Created :
    (fuel size_t t : ℕ) (name : List ℕ) (z_msg_size msg_count : ℕ) → MsgQList → List ℕ → Type 0
Created fuel size_t t name z_msg_size msg_count s xs =
    (s' : MsgQList) × (create_named fuel size_t true (some t) name z_msg_size msg_count s
      ≡ some (Osr.ok, s', some t))
    × Registry s' (xs ++ t ∷ [])
    × (s'.names t ≡ take name_len name)
    × Holds (s'.queues t) []

-- With a SIZE_T of 4 to 8 bytes, `x_msg_q_create` within its bounds, with memory at a new address, a name that no queue has and fuel
-- for the list, returns OSR_OK. Then the queue is the last of the list, with its name, cut to 16
-- characters, and no messages, and still every name stands once.
pub create_named-Registry :
    (fuel size_t t : ℕ) (name : List ℕ) (z_msg_size msg_count : ℕ) (s : MsgQList) (xs : List ℕ)
    → Registry s xs
    → has t (0 ∷ xs) ≡ false
    → named s.names name xs ≡ 0
    → 4 ≤ size_t
    → size_t ≤ 8
    → 0 < z_msg_size
    → z_msg_size ≤ 4608
    → 0 < msg_count
    → msg_count ≤ 4095
    → length xs ≤ fuel
    → Created fuel size_t t name z_msg_size msg_count s xs
unfolding create_named
create_named-Registry fuel size_t t name z_msg_size msg_count s xs reg n free lo hi a b c d room =
    let (q, made, holds, e, f) = x_msg_q_create-Holds size_t z_msg_size msg_count lo hi a b c d in
    let found = msg_q_find_obj-named name s fuel xs reg.ring room ∙ ap some free in
    let s1 = set_queue t q (set_name t (take name_len name) s) in
    let new : s1.names t ≡ take name_len name = rw (eq→== t t refl) refl in
    let here : s1.queues t ≡ q = rw (eq→== t t refl) refl in
    (
      msg_q_list_add t s1,
      rw (create_named, found) (ap (λ r. enter_list t name r s) made),
      record {
        ring = add-Ring s1 t xs reg.ring n;
        unique =
            subst (λ names. Unique names (xs ++ t ∷ [])) (sym (add-names s1 t))
              (Unique-end s.names s1.names t xs
                (λ k i. rw (ne→== t k (λ p. has-apart k t xs i (ground arith) (sym p))) refl)
                reg.unique
                (Unused-frame s.names s.names name (s1.names t) xs (λ k i. refl)
                  (ap (λ m. take name_len m) new ∙ take_twice name_len name)
                  (named_zero s.names name xs (Ring-zero s.links s.s_msg_q_list xs reg.ring)
                    free)));
      },
      ap (λ names. names t) (add-names s1 t) ∙ new,
      subst (λ r. Holds r []) (sym (ap (λ qs. qs t) (add-queues s1 t) ∙ here)) holds,
    )

abbrev counted : MsgQ → ℕ → MsgQ
counted q n = record q { refcount = n }

module _ (h : ℕ) (s : MsgQList) where
  abbrev left : ℕ
  left = ((s.queues h).refcount + 2 ^ 16 - 1) % 2 ^ 16

  delete_one :
      1 < (s.queues h).refcount
      → (s.queues h).refcount ≤ 2 ^ 15
      → x_msg_q_delete h s ≡ (Osr.ok, set_queue h (counted (s.queues h) left) s)
  unfolding x_msg_q_delete
  delete_one a b =
      let more : (ltb 0 left && ltb left (2 ^ 15)) ≡ true = ground arith in rw more refl

  -- `x_msg_q_delete` of a queue that one holder is left of takes it out of the list.
  pub x_msg_q_delete-Registry :
      (xs : List ℕ)
      → Registry s xs
      → has h xs ≡ true
      → (s.queues h).refcount ≡ 1
      → ((x_msg_q_delete h s).0 ≡ Osr.ok) × Registry (x_msg_q_delete h s).1 (erase h xs)
  unfolding x_msg_q_delete
  x_msg_q_delete-Registry xs reg i e =
      let none_left : (ltb 0 left && ltb left (2 ^ 15)) ≡ false = ground (arith, e) in
      let s1 = set_queue h (counted (s.queues h) left) s in
      rw none_left (
        refl,
        record {
          ring = remove-Ring s1 h xs reg.ring i;
          unique =
              subst (λ names. Unique names (erase h xs)) (sym (remove-names s1 h))
                (erase-Unique s.names h xs reg.unique);
        },
      )

-- The count goes up and down again.
counted_back :
    (s : MsgQList) (h n k : ℕ) (r r' : MsgQ) (m : ℕ)
    → r ≡ counted (s.queues h) n
    → m ≡ (s.queues h).refcount
    → (if h == k then counted r m else if h == k then r' else s.queues k) ≡ s.queues k
counted_back s h n k r r' m e f = elim (ℕ_discrete h k) [
  | yes p ↦ rw (eq→== h k p) (ap (λ q. counted q m) e ∙ ap (counted (s.queues h)) f ∙ ap s.queues p)
  | no p ↦ rw (ne→== h k p) refl
]

-- `x_msg_q_attach` to a name that a queue of the list has, with fuel for the list and a count below
-- its bound, returns OSR_OK and that queue, with one more holder; `x_msg_q_delete` then returns OSR_OK
-- and leaves the list and every queue as they were before.
pub x_msg_q_delete-x_msg_q_attach :
    (fuel h : ℕ) (name : List ℕ) (s : MsgQList) (xs : List ℕ)
    → Registry s xs
    → named s.names name xs ≡ h
    → h ≢ 0
    → 0 < (s.queues h).refcount
    → (s.queues h).refcount < 2 ^ 15
    → length xs ≤ fuel
    → (s' : MsgQList) × (x_msg_q_attach fuel true name s ≡ some (Osr.ok, s', some h))
      × Registry s' xs
      × ((s'.queues h).refcount ≡ (s.queues h).refcount + 1)
      × ((x_msg_q_delete h s').0 ≡ Osr.ok)
      × ((x_msg_q_delete h s').1.links ≡ s.links)
      × ((x_msg_q_delete h s').1.s_msg_q_list ≡ s.s_msg_q_list)
      × ((k : ℕ) → (x_msg_q_delete h s').1.queues k ≡ s.queues k)
unfolding x_msg_q_attach
x_msg_q_delete-x_msg_q_attach fuel h name s xs reg e nz a b room =
    let found = msg_q_find_obj-named name s fuel xs reg.ring room ∙ ap some e in
    let q = s.queues h in
    let s1 = set_queue h (counted q ((q.refcount + 1) % 2 ^ 16)) s in
    let here : (s1.queues h) ≡ counted q ((q.refcount + 1) % 2 ^ 16) = rw (eq→== h h refl) refl in
    let count : (s1.queues h).refcount ≡ q.refcount + 1 = ap (λ r. r.refcount) here ∙ omega arith in
    let back = delete_one h s1 (omega (arith, count)) (omega (arith, count)) in
    (
      s1,
      rw (x_msg_q_attach, found, ne→== h 0 nz) refl,
      record { ring = reg.ring; unique = reg.unique },
      count,
      ap (λ r. r.0) back,
      ap (λ r. r.1.links) back,
      ap (λ r. r.1.s_msg_q_list) back,
      λ k.
          ap (λ r. r.1.queues k) back
          ∙ counted_back s h ((q.refcount + 1) % 2 ^ 16) k (s1.queues h)
              (counted q ((q.refcount + 1) % 2 ^ 16)) (left h s1) here (omega (arith, count)),
    )
