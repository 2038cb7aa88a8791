-- ===== src/Thread/Delete.antt =====
-- os_pthread_thread.c: `u_thread_del_pvt` and the loop of `thread_key_destructor`.
use multithreading.Prelude.{
  ℕ, zero, suc, ◌<◌, ◌≤◌, Bool, true, false, Option, none, some, List, [], ◌∷◌, ◌++◌, map, ◌==◌,
  not, ◌≡◌, ◌≢◌, refl, sym, ap, ◌∙◌, subst, if◌then◌else◌, length, has, erase, arith, inl, inr,
  Bool-cases, eq→==, ne→==, length-erase, some_inj,
}
use multithreading.Os.{Osr}
use multithreading.Ring.Insert.{place}
use multithreading.Ring.Remove.{Ring-zero}
use multithreading.Ring.Chain.{take_out, Through, take_out-Through}
use multithreading.Ring.Find.{NoneOf, Apart, place_found, Apart-erase}
use multithreading.Thread.{Pvt, PvtList}
use multithreading.Thread.Own.{
  u_thread_get_pvt, u_thread_del_pvt_impl, u_thread_del_pvt, delete_all,
}
use multithreading.Thread.Contents.{
  Keyed, key_of, look, answer, to_call, found_at, u_thread_get_pvt-look,
}

-- The table without what stands under a key.
abbrev pub drop_key : (ui4_key : ℕ) → List Pvt → List Pvt
drop_key key [] = []
drop_key key (b ∷ bs) = if b.ui4_key == key then bs else b ∷ drop_key key bs

abbrev called : Pvt → List Pvt → List Pvt
called b bs = if not (b.pf_pvt_del == 0) then bs ++ b ∷ [] else bs

differ : {b : Bool} → b ≡ true → b ≡ false → ⊥
differ e f = cc

map-erase :
    (p : PvtList) (key : ℕ) (xs : List ℕ)
    → has 0 xs ≡ false
    → place (λ k. key_of p k == key) xs 0 ≢ 0
    → map p.blocks (erase (place (λ k. key_of p k == key) xs 0) xs) ≡ drop_key key (map p.blocks xs)
map-erase p key [] o n = absurd (n refl)
map-erase p key (x ∷ xs) o n = elim (Bool-cases (key_of p x == key)) [
  | inl h ↦ rw (h, eq→== x x refl) refl
  | inr h ↦
      let k = place (λ k. key_of p k == key) xs 0 in
      let on : place (λ k. key_of p k == key) (x ∷ xs) 0 ≡ k = rw h refl in
      let rest : k ≢ 0 = λ e. n (on ∙ e) in
      let (i, hit) = place_found (λ k. key_of p k == key) xs rest in
      let other : (x == k) ≡ false =
        ne→== x k (λ e. differ (ap (λ j. key_of p j == key) e ∙ hit) h) in
      ap (λ j. map p.blocks (erase j (x ∷ xs))) on
      ∙ rw (h, other) (ap (λ bs. p.blocks x ∷ bs) (map-erase p key xs (ground arith) rest))
]

look-NoneOf :
    (p : PvtList) (key : ℕ) (xs : List ℕ)
    → NoneOf (λ y. key == key_of p y) xs
    → look key (map p.blocks xs) ≡ none
look-NoneOf p key [] n = refl
look-NoneOf p key (x ∷ xs) (e, n) =
    let other : (key_of p x == key) ≡ false = ground arith in rw other (look-NoneOf p key xs n)

look-drop_key :
    (p : PvtList) (key other : ℕ) (xs : List ℕ)
    → Apart (λ a b. a == b) (key_of p) xs
    → look other (drop_key key (map p.blocks xs))
      ≡ (if key == other then none else look other (map p.blocks xs))
look-drop_key p key other [] a = elim (Bool-cases (key == other)) [
  | inl q ↦ rw q refl
  | inr q ↦ rw q refl
]
look-drop_key p key other (x ∷ xs) (n, a) = elim (Bool-cases (key_of p x == key)) [
  | inl h ↦ elim (Bool-cases (key == other)) [
    | inl q ↦
        let same : key_of p x ≡ other = ground arith in
        rw (h, q) (look-NoneOf p other xs (subst (λ a. NoneOf (λ y. a == key_of p y) xs) same n))
    | inr q ↦ let differs : (key_of p x == other) ≡ false = ground arith in rw (h, q, differs) refl
  ]
  | inr h ↦
      let rest = look-drop_key p key other xs a in
      elim (Bool-cases (key_of p x == other)) [
        | inl q ↦ let differs : (key == other) ≡ false = ground arith in rw (h, differs, q) refl
        | inr q ↦ rw (h, q, rest) refl
      ]
]

-- A block is taken out, and its delete function is called.
pub del_pvt_impl-Keyed :
    (p : PvtList) (t : ℕ) (xs : List ℕ)
    → Keyed p xs
    → has t xs ≡ true
    → Keyed (u_thread_del_pvt_impl t p) (erase t xs)
unfolding u_thread_del_pvt_impl
del_pvt_impl-Keyed p t xs kept i = record {
  through = take_out-Through p.pt_pvt t xs kept.through i;
  apart = Apart-erase (λ a b. a == b) (key_of p) t xs kept.apart;
}

append_nil : (bs : List Pvt) → bs ++ [] ≡ bs
append_nil [] = refl
append_nil (b ∷ bs) = ap (λ cs. b ∷ cs) (append_nil bs)

called_one : (b : Pvt) (bs : List Pvt) → called b bs ≡ bs ++ to_call (b ∷ [])
called_one b bs = elim (Bool-cases (b.pf_pvt_del == 0)) [
  | inl h ↦ rw h (sym (append_nil bs))
  | inr h ↦ rw h refl
]

calls_after :
    (t : ℕ) (p : PvtList) → (u_thread_del_pvt_impl t p).calls ≡ called (p.blocks t) p.calls
unfolding u_thread_del_pvt_impl
calls_after t p = refl

blocks_after : (t : ℕ) (p : PvtList) → (u_thread_del_pvt_impl t p).blocks ≡ p.blocks
unfolding u_thread_del_pvt_impl
blocks_after t p = refl

-- Between a table and the place in the list.
look-place :
    (p : PvtList) (key : ℕ) (b : Pvt) (xs : List ℕ)
    → has 0 xs ≡ false
    → look key (map p.blocks xs) ≡ some b
    → (place (λ k. key_of p k == key) xs 0 ≢ 0)
      × (p.blocks (place (λ k. key_of p k == key) xs 0) ≡ b)
look-place p key b [] o e = absurd cc
look-place p key b (x ∷ xs) o e = elim (Bool-cases (key_of p x == key)) [
  | inl h ↦
      let here : place (λ k. key_of p k == key) (x ∷ xs) 0 ≡ x = rw h refl in
      let some_block : x ≢ 0 = ground arith in
      let same : some (p.blocks x) ≡ some b =
        sym (ap (λ q. if q then some (p.blocks x) else look key (map p.blocks xs)) h) ∙ e in
      subst (λ k. (k ≢ 0) × (p.blocks k ≡ b)) (sym here) (some_block, some_inj same)
  | inr h ↦
      let on : place (λ k. key_of p k == key) (x ∷ xs) 0 ≡ place (λ k. key_of p k == key) xs 0 =
        rw h refl in
      subst (λ k. (k ≢ 0) × (p.blocks k ≡ b)) (sym on)
        (look-place p key b xs (ground arith)
          (sym (ap (λ q. if q then some (p.blocks x) else look key (map p.blocks xs)) h) ∙ e))
]

answer_unless :
    (q : Bool) (o : Option Pvt)
    → answer (if q then none else o) ≡ (if q then (Osr.key_not_found, none) else answer o)
answer_unless true o = refl
answer_unless false o = refl

some_if :
    (q : Bool) (a b : Osr × Option ℕ) → some (if q then a else b) ≡ (if q then some a else some b)
some_if true a b = refl
some_if false a b = refl

-- A deletion of a key of the table, with fuel for the list, returns OSR_OK. The block under the key is
-- gone from the table, its delete function, where it has one, is called once more, with that block, a
-- read of the key finds nothing any longer and a read of another key gives what it gave before.
pub u_thread_get_pvt-u_thread_del_pvt :
    (p : PvtList) (key : ℕ) (b : Pvt) (xs : List ℕ) (fuel : ℕ)
    → Keyed p xs
    → look key (map p.blocks xs) ≡ some b
    → length xs ≤ fuel
    → (p' : PvtList) × (ys : List ℕ) × (u_thread_del_pvt fuel true key p ≡ some (Osr.ok, p'))
      × Keyed p' ys
      × (map p'.blocks ys ≡ drop_key key (map p.blocks xs))
      × (p'.calls ≡ p.calls ++ to_call (b ∷ []))
      × ((other : ℕ)
          → u_thread_get_pvt fuel true other p' ≡ (
              if key == other
              then some (Osr.key_not_found, none)
              else u_thread_get_pvt fuel true other p))
unfolding u_thread_del_pvt
u_thread_get_pvt-u_thread_del_pvt p key b xs fuel kept there room =
    let o = Ring-zero p.pt_pvt.links p.pt_pvt.first xs kept.through in
    let t = place (λ k. key_of p k == key) xs 0 in
    let (nz, same) = look-place p key b xs o there in
    let (i, hit) = place_found (λ k. key_of p k == key) xs nz in
    let p' = u_thread_del_pvt_impl t p in
    let kept' = del_pvt_impl-Keyed p t xs kept i in
    let table : map p'.blocks (erase t xs) ≡ drop_key key (map p.blocks xs) =
      ap (λ f. map f (erase t xs)) (blocks_after t p) ∙ map-erase p key xs o nz in
    (
      p',
      erase t xs,
      rw (u_thread_del_pvt, found_at p xs fuel kept room key, ne→== t 0 nz) refl,
      kept',
      table,
      calls_after t p ∙ ap (λ c. called c p.calls) same ∙ called_one b p.calls,
      λ other.
          u_thread_get_pvt-look p' (erase t xs) fuel kept' (omega (arith, length-erase t xs)) other
          ∙ ap (λ bs. some (answer (look other bs))) table
          ∙ ap (λ c. some (answer c)) (look-drop_key p key other xs kept.apart)
          ∙ ap some (answer_unless (key == other) (look other (map p.blocks xs)))
          ∙ some_if (key == other) (Osr.key_not_found, none) (answer (look other (map p.blocks xs)))
          ∙ ap (λ r. if key == other then some (Osr.key_not_found, none) else r)
              (sym (u_thread_get_pvt-look p xs fuel kept room other)),
    )

append_one : (bs : List Pvt) (b : Pvt) (cs : List Pvt) → (bs ++ b ∷ []) ++ cs ≡ bs ++ b ∷ cs
append_one [] b cs = refl
append_one (c ∷ bs) b cs = ap (λ ds. c ∷ ds) (append_one bs b cs)

called-to_call :
    (bs : List Pvt) (b : Pvt) (cs : List Pvt) → called b bs ++ to_call cs ≡ bs ++ to_call (b ∷ cs)
called-to_call bs b cs = elim (Bool-cases (b.pf_pvt_del == 0)) [
  | inl h ↦ rw h refl
  | inr h ↦ rw h (append_one bs b (to_call cs))
]

chain_after : (t : ℕ) (p : PvtList) → (u_thread_del_pvt_impl t p).pt_pvt ≡ take_out t p.pt_pvt
unfolding u_thread_del_pvt_impl
chain_after t p = refl

-- When a thread ends, the loop over its private data, with fuel for the list, comes to an end with the
-- list empty, and has called the delete function of every block that has one once, in the order of the
-- list.
pub delete_all-to_call :
    (fuel : ℕ) (xs : List ℕ) (p : PvtList)
    → Through p.pt_pvt xs
    → length xs < fuel
    → (p' : PvtList) × (delete_all fuel p ≡ some p')
      × (p'.pt_pvt.first ≡ 0)
      × (p'.calls ≡ p.calls ++ to_call (map p.blocks xs))
unfolding delete_all
delete_all-to_call zero xs p r b = absurd (omega arith)
delete_all-to_call (suc fuel) [] p r b =
    (p, rw (eq→== p.pt_pvt.first 0 r) refl, r, sym (append_nil p.calls))
delete_all-to_call (suc fuel) (x ∷ xs) p (e, w, d, o) b =
    let t = p.pt_pvt.first in
    let some_block : (t == 0) ≡ false = ground arith in
    let same : erase t (x ∷ xs) ≡ xs = rw (eq→== x t (sym e)) refl in
    let p1 = u_thread_del_pvt_impl t p in
    let (p', run, empty, calls) =
      delete_all-to_call fuel xs p1
        (subst (λ c. Through c xs) (sym (chain_after t p))
          (subst (λ ys. Through (take_out t p.pt_pvt) ys) same
            (take_out-Through p.pt_pvt t (x ∷ xs) (e, w, d, o) (ground arith))))
        (omega arith) in
    (
      p',
      rw (delete_all, some_block) run,
      empty,
      calls
          ∙ ap (λ cs. cs ++ to_call (map p1.blocks xs)) (calls_after t p)
          ∙ ap (λ f. called (p.blocks t) p.calls ++ to_call (map f xs)) (blocks_after t p)
          ∙ ap (λ k. called (p.blocks k) p.calls ++ to_call (map p.blocks xs)) e
          ∙ called-to_call p.calls (p.blocks x) (map p.blocks xs),
    )
