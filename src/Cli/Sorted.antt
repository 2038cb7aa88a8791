-- ===== src/Cli/Sorted.antt =====
-- cli/cli_parser.c: the loop that sorts is an insertion.
use multithreading.Prelude.{
  ℕ, zero, suc, ◌+◌, ◌-◌, ◌<◌, Bool, true, false, Option, none, some, List, [], ◌∷◌, ◌++◌, ◌==◌,
  ◌&&◌, not, ◌≡◌, refl, sym, ap, ◌∙◌, subst, if◌then◌else◌, leb, ltb, length, arith, inl, inr,
  Bool-cases, eq→==, ne→==,
}
use multithreading.Cli.Command.{strcmp_zero, cli_ok}
use multithreading.Cli.Attach.{
  CliCat, is_root, same_table, add_table, attach_cmd_tbl, attach_at, Slot, Category, set_slot,
  new_slot, moved, sort_loop,
}

-- The slots from `i` on hold the list.
abbrev pub Cells : (ℕ → Slot) → (i : ℕ) → List Slot → Type 0
Cells slots i [] = Unit
Cells slots i (x ∷ xs) = (slots i ≡ x) × Cells slots (i + 1) xs

-- Both arrays agree on every table.
abbrev pub Agree : List Slot → Type 0
Agree [] = Unit
Agree (x ∷ xs) = (x.grp_tbl ≡ x.tbl) × Agree xs

abbrev pub insert_slot : (below : ℕ → ℕ → Bool) → Slot → List Slot → List Slot
insert_slot below new [] = new ∷ []
insert_slot below new (x ∷ xs) =
    if below new.tbl x.tbl then new ∷ x ∷ xs else x ∷ insert_slot below new xs

pub Cells-set :
    (slots : ℕ → Slot) (i j : ℕ) (x : Slot) (xs : List Slot)
    → j < i
    → Cells slots i xs
    → Cells (set_slot j x slots) i xs
Cells-set slots i j x [] h c = tt
Cells-set slots i j x (y ∷ ys) h (e, c) =
    (rw (ne→== j i (omega arith)) e, Cells-set slots (i + 1) j x ys (omega arith) c)

abbrev mk_slot : (tbl grp_tbl grp_msk : ℕ) → Slot
mk_slot a b c = record { tbl = a; grp_tbl = b; grp_msk = c }

module _ (below : ℕ → ℕ → Bool) (new : Slot) where
  -- The slots that the loop has left behind.
  sort_loop-behind :
      (left idx : ℕ) (tmp : Option Slot) (c : Category) (k : ℕ)
      → k < idx
      → (sort_loop below left idx new tmp c).slots k ≡ c.slots k
  unfolding sort_loop
  sort_loop-behind zero idx tmp c k h = refl
  sort_loop-behind (suc left) idx (some x) c k h =
      let other : (idx == k) ≡ false = ground arith in
      sort_loop-behind left (idx + 1) (some (c.slots idx))
        (record c { slots = set_slot idx (moved x) c.slots }) k (omega arith)
      ∙ rw other refl
  sort_loop-behind (suc left) idx none c k h =
      let other : (idx == k) ≡ false = ground arith in
      let here : Category = record c { slots = set_slot idx new c.slots } in
      elim (Bool-cases (ltb idx (c.count - 1))) [
        | inr p ↦ rw p (sort_loop-behind left (idx + 1) none here k (omega arith) ∙ rw other refl)
        | inl p ↦ elim (Bool-cases (below new.tbl (c.slots idx).tbl)) [
          | inl q ↦
              rw (p, q)
                (sort_loop-behind left (idx + 1) (some (c.slots idx))
                    (record here { first_level = if idx == 0 then new.tbl else c.first_level }) k
                    (omega arith)
                  ∙ rw other refl)
          | inr q ↦ rw (p, q) (sort_loop-behind left (idx + 1) none c k (omega arith))
        ]
      ]

  set_here : (slots : ℕ → Slot) (i : ℕ) (x : Slot) → set_slot i x slots i ≡ x
  set_here slots i x = rw (eq→== i i refl) refl

  moved_same : (x : Slot) → x.grp_tbl ≡ x.tbl → moved x ≡ x
  moved_same x e = ap (λ g. mk_slot x.tbl g x.grp_msk) (sym e)

  -- After a swap the rest moves on by one place.
  shifted :
      (idx : ℕ) (x : Slot) (ys : List Slot) (c : Category)
      → Cells c.slots idx ys
      → Agree (x ∷ ys)
      → Cells (sort_loop below (suc (length ys)) idx new (some x) c).slots idx (x ∷ ys)
  unfolding sort_loop
  shifted idx x [] c cells (a, as') = (set_here c.slots idx (moved x) ∙ moved_same x a, tt)
  shifted idx x (y ∷ ys) c (e, cells) (a, (b, bs)) =
      let c' : Category = record c { slots = set_slot idx (moved x) c.slots } in
      (
        sort_loop-behind (suc (length ys)) (idx + 1) (some (c.slots idx)) c' idx (omega arith)
            ∙ set_here c.slots idx (moved x)
            ∙ moved_same x a,
        subst
            (λ z.
              Cells (sort_loop below (suc (length ys)) (idx + 1) new (some z) c').slots (idx + 1)
                (y ∷ ys))
            (sym e)
            (shifted (idx + 1) y ys c'
              (Cells-set c.slots (idx + 1) idx (moved x) ys (omega arith) cells) (b, bs)),
      )

  pub sort_loop-insert_slot :
      (idx : ℕ) (ys : List Slot) (c : Category)
      → Cells c.slots idx ys
      → Agree ys
      → idx + length ys ≡ c.count - 1
      → Cells
          (sort_loop below (suc (length ys)) idx new none c).slots
          idx
          (insert_slot below new ys)
  unfolding sort_loop
  sort_loop-insert_slot idx [] c cells a h =
      let last : ltb idx (c.count - 1) ≡ false = ground arith in
      rw last (set_here c.slots idx new, tt)
  sort_loop-insert_slot idx (y ∷ ys) c (e, cells) (b, bs) h =
      let inside : ltb idx (c.count - 1) ≡ true = ground arith in
      let same = ap (λ z. below new.tbl z.tbl) e in
      let here : Category = record c {
        slots = set_slot idx new c.slots;
        first_level = if idx == 0 then new.tbl else c.first_level;
      } in
      elim (Bool-cases (below new.tbl y.tbl)) [
        | inl q ↦
            let test : below new.tbl (c.slots idx).tbl ≡ true = same ∙ q in
            rw (inside, test, q)
              (
                sort_loop-behind (suc (length ys)) (idx + 1) (some (c.slots idx)) here idx
                      (omega arith)
                    ∙ set_here c.slots idx new,
                subst
                    (λ z.
                      Cells (sort_loop below (suc (length ys)) (idx + 1) new (some z) here).slots
                        (idx + 1) (y ∷ ys))
                    (sym e)
                    (shifted (idx + 1) y ys here
                      (Cells-set c.slots (idx + 1) idx new ys (omega arith) cells) (b, bs)),
              )
        | inr q ↦
            let test : below new.tbl (c.slots idx).tbl ≡ false = same ∙ q in
            rw (inside, test, q)
              (
                sort_loop-behind (suc (length ys)) (idx + 1) none c idx (omega arith) ∙ e,
                sort_loop-insert_slot (idx + 1) ys c cells bs (omega arith),
              )
      ]

-- No table of the list has the name.
abbrev pub NoTable : (name : ℕ → List ℕ) (tbl : ℕ) → List Slot → Type 0
NoTable name tbl [] = Unit
NoTable name tbl (x ∷ xs) = (strcmp_zero (name tbl) (name x.tbl) ≡ false) × NoTable name tbl xs

same_table-NoTable :
    (name : ℕ → List ℕ) (tbl idx : ℕ) (xs : List Slot) (c : Category)
    → Cells c.slots idx xs
    → NoTable name tbl xs
    → same_table name tbl (length xs) idx c ≡ none
same_table-NoTable name tbl idx [] c cells n = refl
same_table-NoTable name tbl idx (x ∷ xs) c (e, cells) (m, n) =
    let other : strcmp_zero (name tbl) (name (c.slots idx).tbl) ≡ false =
      ap (λ z. strcmp_zero (name tbl) (name z.tbl)) e ∙ m in
    rw other (same_table-NoTable name tbl (idx + 1) xs c cells n)

-- The list with a new table: at its place by name, and in the root category at the end.
abbrev pub attached : (below : ℕ → ℕ → Bool) → CliCat → Slot → List Slot → List Slot
attached below cat new xs = if is_root cat then xs ++ new ∷ [] else insert_slot below new xs

Cells-last :
    (slots : ℕ → Slot) (new : Slot) (i n : ℕ) (xs : List Slot)
    → Cells slots i xs
    → n ≡ i + length xs
    → Cells (set_slot n new slots) i (xs ++ new ∷ [])
Cells-last slots new i n [] c h = (rw (eq→== n i (omega arith)) refl, tt)
Cells-last slots new i n (x ∷ xs) (e, c) h =
    (rw (ne→== n i (omega arith)) e, Cells-last slots new (i + 1) n xs c (omega arith))

sort_loop-count :
    (below : ℕ → ℕ → Bool) (new : Slot) (left idx : ℕ) (tmp : Option Slot) (c : Category)
    → (sort_loop below left idx new tmp c).count ≡ c.count
unfolding sort_loop
sort_loop-count below new zero idx tmp c = refl
sort_loop-count below new (suc left) idx (some x) c =
    sort_loop-count below new left (idx + 1) (some (c.slots idx))
      (record c { slots = set_slot idx (moved x) c.slots })
sort_loop-count below new (suc left) idx none c =
    let here : Category = record c { slots = set_slot idx new c.slots } in
    elim (Bool-cases (ltb idx (c.count - 1))) [
      | inr p ↦ rw p (sort_loop-count below new left (idx + 1) none here)
      | inl p ↦ elim (Bool-cases (below new.tbl (c.slots idx).tbl)) [
        | inl q ↦
            rw (p, q)
              (sort_loop-count below new left (idx + 1) (some (c.slots idx))
                (record here { first_level = if idx == 0 then new.tbl else c.first_level }))
        | inr q ↦ rw (p, q) (sort_loop-count below new left (idx + 1) none c)
      ]
    ]

add_table-attached :
    (below : ℕ → ℕ → Bool) (cat : CliCat) (tbl mask : ℕ) (xs : List Slot) (c : Category)
    → Cells c.slots 0 xs
    → Agree xs
    → length xs ≡ c.count
    → Cells (add_table below cat tbl mask c).slots 0 (attached below cat (new_slot tbl mask) xs)
      × ((add_table below cat tbl mask c).count ≡ c.count + 1)
add_table-attached below cat tbl mask [] c cells a h =
    let test : (ltb 0 c.count && not (is_root cat)) ≡ false = ground arith in
    let new = new_slot tbl mask in
    let alone = Cells-last c.slots new 0 c.count [] cells (omega arith) in
    elim (Bool-cases (is_root cat)) [
      | inl r ↦ rw (test, r) (alone, refl)
      | inr r ↦ rw (test, r) (alone, refl)
    ]
add_table-attached below cat tbl mask (x ∷ xs) c cells a h = elim (Bool-cases (is_root cat)) [
  | inl r ↦
      let test : (ltb 0 c.count && not (is_root cat)) ≡ false = ground arith in
      rw (test, r)
        (Cells-last c.slots (new_slot tbl mask) 0 c.count (x ∷ xs) cells (omega arith), refl)
  | inr r ↦
      let test : (ltb 0 c.count && not (is_root cat)) ≡ true = ground arith in
      let new = new_slot tbl mask in
      let c' : Category = record c { count = c.count + 1 } in
      rw (test, r)
        (
          subst
              (λ n.
                Cells (sort_loop below (suc n) 0 new none c').slots 0
                  (insert_slot below new (x ∷ xs)))
              h (sort_loop-insert_slot below new 0 (x ∷ xs) c' cells a (omega arith)),
          sort_loop-count below new (suc c.count) 0 none c',
        )
]

-- `cli_parser_attach_cmd_tbl` of a table whose name no table of the category has, while there is
-- room, returns CLIR_OK; the table is added at the end in the root category, and in the others in
-- front of the first table for which `strcmp` returns -1, and all other tables keep their order.
pub attach_cmd_tbl-attached :
    (below : ℕ → ℕ → Bool) (name : ℕ → List ℕ) (abbr : ℕ → Option (List ℕ)) (cat : CliCat)
    (tbl mask : ℕ) (xs : List Slot) (c : Category)
    → Cells c.slots 0 xs
    → Agree xs
    → length xs ≡ c.count
    → c.count < 128
    → NoTable name tbl xs
    → (c' : Category) × (attach_cmd_tbl below name abbr true cat tbl mask c ≡ some (cli_ok, c'))
      × Cells c'.slots 0 (attached below cat (new_slot tbl mask) xs)
      × (c'.count ≡ c.count + 1)
unfolding attach_cmd_tbl
attach_cmd_tbl-attached below name abbr cat tbl mask xs c cells a h room n =
    let fits : leb 128 c.count ≡ false = ground arith in
    let absent : same_table name tbl c.count 0 c ≡ none =
      subst (λ k. same_table name tbl k 0 c ≡ none) h
        (same_table-NoTable name tbl 0 xs c cells n) in
    let (kept, more) = add_table-attached below cat tbl mask xs c cells a h in
    (
      add_table below cat tbl mask c,
      rw fits (ap (λ o. attach_at below abbr cat tbl mask o c) absent),
      kept,
      more,
    )
