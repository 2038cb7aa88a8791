-- ===== src/Handle/Linked.antt =====
-- mw/handle.c: the handles of a data object as a doubly linked list, and `u_handle_link`.
use multithreading.Prelude.{
  ℕ, ◌+◌, ◌≤◌, ◌<◌, ◌≡◌, ◌≢◌, ◌⊎◌, inl, inr, refl, sym, ap, ◌∙◌, subst, Bool, true, false, List, [],
  ◌∷◌, ◌++◌, ◌==◌, leb, inc16, if◌then◌else◌, length, length-append, arith, Bool-cases, ne→==,
}
use multithreading.Handle.State.{HCtrl, State, Hr, null_idx, names_ctrl, idx_of}
use multithreading.Handle.Link.{append_ctrl, u_handle_link}
use multithreading.Handle.Pool.{has}

-- From the structure `i`, whose predecessor is `before`, the links lead through the distinct, linked
-- structures `xs`, the last of which is `last`.
pub data Segment (arr : ℕ → HCtrl) : (before i : ℕ) → List ℕ → (last : ℕ) → Type 0 where
  end : {before : ℕ} → Segment arr before null_idx [] before
  link :
      {before i n last : ℕ} {xs : List ℕ}
      → i ≢ null_idx
      → (arr i).linked ≡ true
      → (arr i).prev ≡ before
      → (arr i).next ≡ n
      → has i xs ≡ false
      → Segment arr i n xs last
      → Segment arr before i (i ∷ xs) last

-- The list at the address `p` is `xs`.
pub record Linked (st : State) (p : ℕ) (xs : List ℕ) : Type 0 where
  pub segment : Segment st.arr null_idx (st.links p).head xs (st.links p).tail
  pub counted : (st.links p).h_count ≡ length xs
  pub bound : length xs < 65536

-- The last structure of a segment is in it, or is the one before.
last_has :
    {arr : ℕ → HCtrl} {before i last : ℕ} {xs : List ℕ}
    → Segment arr before i xs last
    → ((xs ≡ []) × (last ≡ before)) ⊎ (has last xs ≡ true)
last_has end = inl (refl, refl)
last_has (link {before} {i} {n} {last} {xs} ne l p e out s) =
    inr (elim (last_has s) [ inl (a, b) ↦ ground arith | inr h ↦ ground arith ])

not_last :
    {arr : ℕ → HCtrl} (j n last : ℕ) (xs : List ℕ)
    → Segment arr j n xs last
    → xs ≢ []
    → has j xs ≡ false
    → j ≢ last
not_last j n last xs s some_xs out = elim (last_has s) [
  | inl (a, b) ↦ absurd (some_xs a)
  | inr h ↦ λ e. absurd (ground arith)
]

has_append : (j i : ℕ) (xs : List ℕ) → has j xs ≡ false → j ≢ i → has j (xs ++ i ∷ []) ≡ false
has_append j i [] h ne = ground arith
has_append j i (x ∷ xs) h ne = ground (arith, has_append j i xs)

-- The structure `i` behind a segment.
module _ (arr brr : ℕ → HCtrl) (i : ℕ) (fresh : i ≢ null_idx) (on : (brr i).linked ≡ true)
    (stop : (brr i).next ≡ null_idx) where
  alone : (before : ℕ) → (brr i).prev ≡ before → Segment brr before i (i ∷ []) i
  alone before back = link fresh on back stop refl end

  Segment-append :
      {before j last : ℕ} {xs : List ℕ}
      → Segment arr before j xs last
      → has i xs ≡ false
      → (brr i).prev ≡ last
      → ((k : ℕ) → has k xs ≡ true → k ≢ last → brr k ≡ arr k)
      → (has last xs ≡ true → brr last ≡ record (arr last) { next = i })
      → Segment brr before (if j == null_idx then i else j) (xs ++ i ∷ []) i
  Segment-append (end {before}) out back same changed = alone before back
  Segment-append (link {before} {i = j} ne l p e out' end) out back same changed =
      let c = changed (ground arith) in
      rw (ne→== j 0 ne) (
        link ne (ap HCtrl.linked c ∙ l) (ap HCtrl.prev c ∙ p) (ap HCtrl.next c) (ground arith)
          (alone j back))
  Segment-append (link {before} {i = j} {n} {last} ne l p e out' (link {xs} ne2 l2 p2 e2 out2 s))
        out back same changed =
      let c : brr j ≡ arr j =
        same j (ground arith)
          (not_last j n last (n ∷ xs) (link ne2 l2 p2 e2 out2 s) (λ e. absurd (cc)) out') in
      let tail =
        Segment-append (link ne2 l2 p2 e2 out2 s) (ground arith) back
          (λ k b d. same k (ground arith) d) (λ b. changed (ground arith)) in
      let more : Segment brr j n (n ∷ (xs ++ i ∷ [])) i =
        subst (λ (b : Bool). Segment brr j (if b then i else n) (n ∷ (xs ++ i ∷ [])) i)
          (ne→== n 0 ne2) tail in
      rw (ne→== j 0 ne) (
        link ne (ap HCtrl.linked c ∙ l) (ap HCtrl.prev c ∙ p) (ap HCtrl.next c ∙ e)
          (has_append j i (n ∷ xs) out' (ground arith)) more)

Segment-null :
    {arr : ℕ → HCtrl} {before j last : ℕ} {xs : List ℕ} (k : ℕ)
    → Segment arr before j xs last
    → has k xs ≡ true
    → k ≢ null_idx
Segment-null k end h = absurd (cc)
Segment-null k (link {i = j} ne l p e out s) h = elim (Bool-cases (j == k)) [
  | inl same ↦ ground arith
  | inr other ↦ Segment-null k s (ground arith)
]

head-tail :
    {arr : ℕ → HCtrl} {j last : ℕ} {xs : List ℕ}
    → Segment arr null_idx j xs last
    → (last == null_idx) ≡ (j == null_idx)
head-tail end = refl
head-tail (link {i = j} {last} ne l p e out s) =
    elim (last_has (link {before = 0} ne l p e out s)) [
      | inl (a, b) ↦ absurd (cc)
      | inr h ↦
          ne→== last 0 (Segment-null last (link {before = 0} ne l p e out s) h) ∙ sym (ne→== j 0 ne)
    ]

-- The fields after `append_ctrl`.
module _ (st : State) (p i : ℕ) where
  append_new :
      i ≢ (st.links p).tail
      → (append_ctrl p i st).arr i
        ≡ record (st.arr i) { linked = true; next = null_idx; prev = (st.links p).tail }
  unfolding append_ctrl
  append_new ne = ground arith

  append_last :
      (st.links p).tail ≢ null_idx
      → (st.links p).tail ≢ i
      → (append_ctrl p i st).arr (st.links p).tail ≡ record (st.arr (st.links p).tail) { next = i }
  unfolding append_ctrl
  append_last some_tail ne = ground arith

  append_other : (k : ℕ) → k ≢ i → k ≢ (st.links p).tail → (append_ctrl p i st).arr k ≡ st.arr k
  unfolding append_ctrl
  append_other k a b = ground arith

  append_head :
      ((append_ctrl p i st).links p).head
      ≡ (if (st.links p).tail == null_idx then i else (st.links p).head)
  unfolding append_ctrl
  append_head = ground arith

  append_tail :
      (((append_ctrl p i st).links p).tail ≡ i)
      × (((append_ctrl p i st).links p).h_count ≡ inc16 (st.links p).h_count)
  unfolding append_ctrl
  append_tail = ground arith

has_not : (xs : List ℕ) (i k : ℕ) → has i xs ≡ false → has k xs ≡ true → k ≢ i
has_not xs i k out h e = absurd (ground arith)

tail_apart :
    {arr : ℕ → HCtrl} {j last : ℕ} {xs : List ℕ} (i : ℕ)
    → Segment arr null_idx j xs last
    → has i xs ≡ false
    → i ≢ null_idx
    → i ≢ last
tail_apart {last} {xs} i s out ne = elim (last_has s) [
  | inl (a, b) ↦ ground arith
  | inr h ↦ λ e. has_not xs i last out h (sym e)
]

Segment-linked :
    {arr : ℕ → HCtrl} {before j last : ℕ} {xs : List ℕ} (k : ℕ)
    → Segment arr before j xs last
    → has k xs ≡ true
    → (arr k).linked ≡ true
Segment-linked k end h = absurd (cc)
Segment-linked {arr} k (link {i = j} ne l p e out s) h = elim (Bool-cases (j == k)) [
  | inl same ↦ subst (λ m. (arr m).linked ≡ true) (ground arith) l
  | inr other ↦ Segment-linked k s (ground arith)
]

append-Linked :
    (st : State) (p i : ℕ) (xs : List ℕ)
    → Linked st p xs
    → has i xs ≡ false
    → i ≢ null_idx
    → length xs + 1 < 65536
    → Linked (append_ctrl p i st) p (xs ++ i ∷ [])
append-Linked st p i xs l out ne room =
    let t : ℕ = (st.links p).tail in
    let apart : i ≢ t = tail_apart i l.segment out ne in
    let new = append_new st p i apart in
    let seg =
      Segment-append st.arr (append_ctrl p i st).arr i ne (ap HCtrl.linked new) (ap HCtrl.next new)
        l.segment out (ap HCtrl.prev new) (λ k h d. append_other st p i k (has_not xs i k out h) d)
        (λ h. append_last st p i (Segment-null t l.segment h) (has_not xs i t out h)) in
    record {
      segment = rw (append_head st p i, (append_tail st p i).0, head-tail l.segment) seg;
      counted = (append_tail st p i).1 ∙ counted l.counted;
      bound = omega (arith, length-append xs (i ∷ []));
    }
  where
    counted : (st.links p).h_count ≡ length xs → inc16 (st.links p).h_count ≡ length (xs ++ i ∷ [])
    counted e = omega (arith, length-append xs (i ∷ []))

-- `u_handle_link` of a valid handle that is in no list and whose type is not reserved returns HR_OK
-- and puts its structure behind the others of the list at `p`, if that address is not NULL and the
-- list has fewer than 65535 handles.
pub u_handle_link-Linked :
    (p h : ℕ) (st : State) (xs : List ℕ)
    → st.init ≡ true
    → p ≢ 0
    → names_ctrl st h ≡ true
    → 64 ≤ (st.arr (idx_of h)).e_type
    → (st.arr (idx_of h)).linked ≡ false
    → length xs + 1 < 65536
    → Linked st p xs
    → ((u_handle_link p h st).0 ≡ Hr.ok) × Linked (u_handle_link p h st).1 p (xs ++ idx_of h ∷ [])
unfolding u_handle_link
u_handle_link-Linked p h st xs init real names kind free room l =
    let a : leb 64 (st.arr (idx_of h)).e_type ≡ true = ground arith in
    rw (init, ne→== p 0 real, names, a, free)
      (
        refl,
        append-Linked st p (idx_of h) xs l (unlinked (Bool-cases (has (idx_of h) xs)))
            (ground arith) room,
      )
  where
    unlinked : (has (idx_of h) xs ≡ true) ⊎ (has (idx_of h) xs ≡ false) → has (idx_of h) xs ≡ false
    unlinked (inl b) = let on = Segment-linked (idx_of h) l.segment b in absurd (ground arith)
    unlinked (inr b) = b
