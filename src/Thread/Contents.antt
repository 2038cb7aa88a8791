-- ===== src/Thread/Contents.antt =====
-- os_pthread_thread.c: the private data of a thread as a table of keys.
use multithreading.Prelude.{
  ℕ, ◌<◌, ◌≤◌, Bool, true, false, Option, none, some, List, [], ◌∷◌, ◌++◌, map, ◌==◌, not, ◌≡◌,
  refl, sym, ap, ◌∙◌, subst, if◌then◌else◌, length, has, arith, inl, inr, Bool-cases, eq→==,
  length-append, ne→==, has-apart,
}
use multithreading.Os.{Osr}
use multithreading.Ring.Insert.{place}
use multithreading.Ring.Remove.{Ring-zero}
use multithreading.Ring.Chain.{Through, add_last-Through, find_first-place}
use multithreading.Ring.Find.{NoneOf, Apart, place_zero, Apart-end}
use multithreading.Thread.{Pvt, PvtList}
use multithreading.Thread.Own.{thread_find_pvt_key, put_block, u_thread_set_pvt, u_thread_get_pvt}

abbrev pub key_of : PvtList → ℕ → ℕ
key_of p k = (p.blocks k).ui4_key

-- The blocks of the list, in their order, each with a key of its own.
pub record Keyed (p : PvtList) (xs : List ℕ) : Type 0 where
  pub through : Through p.pt_pvt xs
  pub apart : Apart (λ a b. a == b) (key_of p) xs

-- The table: what stands under a key.
abbrev pub look : (ui4_key : ℕ) → List Pvt → Option Pvt
look key [] = none
look key (b ∷ bs) = if b.ui4_key == key then some b else look key bs

-- What a read gives.
abbrev pub answer : Option Pvt → Osr × Option ℕ
answer none = (Osr.key_not_found, none)
answer (some b) = (Osr.ok, some b.pv_pvt)

-- The delete functions to be called.
abbrev pub to_call : List Pvt → List Pvt
to_call [] = []
to_call (b ∷ bs) = if not (b.pf_pvt_del == 0) then b ∷ to_call bs else to_call bs

look-map :
    (p : PvtList) (key : ℕ) (xs : List ℕ)
    → has 0 xs ≡ false
    → look key (map p.blocks xs)
      ≡ (let k = place (λ k. key_of p k == key) xs 0 in if k == 0 then none else some (p.blocks k))
look-map p key [] o = refl
look-map p key (x ∷ xs) o = elim (Bool-cases (key_of p x == key)) [
  | inl h ↦ let some_block : (x == 0) ≡ false = ground arith in rw (h, some_block) refl
  | inr h ↦ rw h (look-map p key xs (ground arith))
]

module _ (p : PvtList) (xs : List ℕ) (fuel : ℕ) (kept : Keyed p xs) (room : length xs ≤ fuel) where
  pub found_at :
      (key : ℕ) → thread_find_pvt_key fuel key p ≡ some (place (λ k. key_of p k == key) xs 0)
  unfolding thread_find_pvt_key
  found_at key = find_first-place (λ k. key_of p k == key) p.pt_pvt fuel xs kept.through room

  -- A read gives what the table holds, with fuel for the list.
  pub u_thread_get_pvt-look :
      (key : ℕ) → u_thread_get_pvt fuel true key p ≡ some (answer (look key (map p.blocks xs)))
  unfolding u_thread_get_pvt
  u_thread_get_pvt-look key =
      let at = place (λ k. key_of p k == key) xs 0 in
      rw
        (
          u_thread_get_pvt,
          found_at key,
          look-map p key xs (Ring-zero p.pt_pvt.links p.pt_pvt.first xs kept.through),
        )
        (elim (Bool-cases (at == 0)) [ inl h ↦ rw h refl | inr h ↦ rw h refl ])

map-put :
    (p : PvtList) (t : ℕ) (b : Pvt) (xs : List ℕ)
    → has t xs ≡ false
    → map (put_block t b p).blocks (xs ++ t ∷ []) ≡ map p.blocks xs ++ b ∷ []
map-put p t b [] n = rw (eq→== t t refl) refl
map-put p t b (x ∷ xs) n =
    let other : (t == x) ≡ false = ground arith in
    rw other (ap (λ bs. p.blocks x ∷ bs) (map-put p t b xs (ground arith)))

look-end :
    (key : ℕ) (b : Pvt) (bs : List Pvt)
    → look b.ui4_key bs ≡ none
    → look key (bs ++ b ∷ []) ≡ (if b.ui4_key == key then some b else look key bs)
look-end key b [] n = refl
look-end key b (c ∷ bs) n = elim (Bool-cases (c.ui4_key == b.ui4_key)) [
  | inl h ↦
      let e : some c ≡ none = sym (ap (λ q. if q then some c else look b.ui4_key bs) h) ∙ n in
      absurd cc
  | inr h ↦
      let rest =
        look-end key b bs (sym (ap (λ q. if q then some c else look b.ui4_key bs) h) ∙ n) in
      elim (Bool-cases (c.ui4_key == key)) [
        | inl i ↦ let other : (b.ui4_key == key) ≡ false = ground arith in rw (i, other) refl
        | inr i ↦ rw (i, rest) refl
      ]
]

module _ (p : PvtList) (t : ℕ) (b : Pvt) (xs : List ℕ) (kept : Keyed p xs)
    (new : has t (0 ∷ xs) ≡ false) where
  pub put_block-Keyed :
      place (λ k. key_of p k == b.ui4_key) xs 0 ≡ 0 → Keyed (put_block t b p) (xs ++ t ∷ [])
  put_block-Keyed free =
      let o = Ring-zero p.pt_pvt.links p.pt_pvt.first xs kept.through in
      let here : key_of (put_block t b p) t ≡ b.ui4_key = rw (key_of, eq→== t t refl) refl in
      record {
        through = add_last-Through p.pt_pvt t xs kept.through new;
        apart =
            Apart-end (λ a c. a == c) (key_of p) (key_of (put_block t b p)) t xs
              (λ k i. rw (key_of, ne→== t k (λ e. has-apart k t xs i (ground arith) (sym e))) refl)
              kept.apart
              (subst (λ a. NoneOf (λ y. key_of p y == a) xs) (sym here)
                (place_zero (λ k. key_of p k == b.ui4_key) xs o free));
      }

-- Nothing stands under a key that the search does not find.
look-none :
    (p : PvtList) (key : ℕ) (xs : List ℕ)
    → has 0 xs ≡ false
    → look key (map p.blocks xs) ≡ none
    → place (λ k. key_of p k == key) xs 0 ≡ 0
look-none p key [] o n = refl
look-none p key (x ∷ xs) o n = elim (Bool-cases (key_of p x == key)) [
  | inl h ↦
      let e : some (p.blocks x) ≡ none =
        sym (ap (λ q. if q then some (p.blocks x) else look key (map p.blocks xs)) h) ∙ n in
      absurd cc
  | inr h ↦ rw h (
      look-none p key xs (ground arith)
        (sym (ap (λ q. if q then some (p.blocks x) else look key (map p.blocks xs)) h) ∙ n))
]

answer_if :
    (q : Bool) (b : Pvt) (o : Option Pvt)
    → answer (if q then some b else o) ≡ (if q then (Osr.ok, some b.pv_pvt) else answer o)
answer_if true b o = refl
answer_if false b o = refl

some_if :
    (q : Bool) (a b : Osr × Option ℕ) → some (if q then a else b) ≡ (if q then some a else some b)
some_if true a b = refl
some_if false a b = refl

-- A write under a new key, with memory at a new address and fuel for the list, returns OSR_OK. The
-- table then has the block at its end, still every key stands once, and a read under any key gives the
-- new value under this key and what it gave before under another.
pub u_thread_get_pvt-u_thread_set_pvt :
    (p : PvtList) (t : ℕ) (b : Pvt) (xs : List ℕ) (fuel : ℕ)
    → Keyed p xs
    → has t (0 ∷ xs) ≡ false
    → look b.ui4_key (map p.blocks xs) ≡ none
    → length xs < fuel
    → (p' : PvtList) × (u_thread_set_pvt fuel true (some t) b p ≡ some (Osr.ok, p'))
      × Keyed p' (xs ++ t ∷ [])
      × (map p'.blocks (xs ++ t ∷ []) ≡ map p.blocks xs ++ b ∷ [])
      × ((key : ℕ)
          → u_thread_get_pvt fuel true key p' ≡ (
              if b.ui4_key == key
              then some (Osr.ok, some b.pv_pvt)
              else u_thread_get_pvt fuel true key p))
unfolding u_thread_set_pvt
u_thread_get_pvt-u_thread_set_pvt p t b xs fuel kept new none_there room =
    let o = Ring-zero p.pt_pvt.links p.pt_pvt.first xs kept.through in
    let free = look-none p b.ui4_key xs o none_there in
    let found = found_at p xs fuel kept (omega arith) b.ui4_key ∙ ap some free in
    let p' = put_block t b p in
    let kept' = put_block-Keyed p t b xs kept new free in
    let table = map-put p t b xs (ground arith) in
    (
      p',
      rw found refl,
      kept',
      table,
      λ key.
          u_thread_get_pvt-look p' (xs ++ t ∷ []) fuel kept'
            (omega (arith, length-append xs (t ∷ []))) key
          ∙ ap (λ bs. some (answer (look key bs))) table
          ∙ ap (λ c. some (answer c)) (look-end key b (map p.blocks xs) none_there)
          ∙ ap some (answer_if (b.ui4_key == key) b (look key (map p.blocks xs)))
          ∙ some_if (b.ui4_key == key) (Osr.ok, some b.pv_pvt) (answer (look key (map p.blocks xs)))
          ∙ ap (λ r. if b.ui4_key == key then some (Osr.ok, some b.pv_pvt) else r)
              (sym (u_thread_get_pvt-look p xs fuel kept (omega arith) key)),
    )
