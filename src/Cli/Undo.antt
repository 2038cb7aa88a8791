-- ===== src/Cli/Undo.antt =====
-- cli/cli_parser.c: `cli_parser_detach_cmd_tbl` undoes `cli_parser_attach_cmd_tbl`.
use multithreading.Prelude.{
  ℕ, zero, suc, ◌+◌, ◌-◌, ◌<◌, ◌≤◌, Bool, true, false, Option, none, some, List, [], ◌∷◌, ◌++◌,
  ◌==◌, ◌≡◌, refl, sym, ap, ◌∙◌, subst, if◌then◌else◌, ltb, length, length-append, Option-cases,
  arith, inl, inr, Bool-cases, eq→==,
}
use multithreading.Cli.Command.{cli_ok, strcmp_zero}
use multithreading.Cli.Attach.{
  CliCat, is_root, Slot, Category, max_cmd_tbl_num, set_slot, new_slot, attach_cmd_tbl,
}
use multithreading.Cli.Sorted.{
  Cells, Cells-set, insert_slot, Agree, NoTable, attached, attach_cmd_tbl-attached,
}
use multithreading.Cli.Detach.{
  same_str, is_slot_of, find_slot, shift_one, shift_loop, detach_cmd_tbl,
}

-- The list without the first slot that passes the test.
abbrev pub without : (Slot → Bool) → List Slot → List Slot
without test [] = []
without test (x ∷ xs) = if test x then xs else x ∷ without test xs

at_self : (i : ℕ) (x : Slot) (slots : ℕ → Slot) → set_slot i x slots i ≡ x
at_self i x slots = rw (eq→== i i refl) refl

shift_one-behind : (idx k : ℕ) (slots : ℕ → Slot) → k < idx → shift_one idx slots k ≡ slots k
shift_one-behind idx k slots b =
    let other : (idx == k) ≡ false = ground arith in
    elim (Bool-cases (ltb idx (max_cmd_tbl_num - 1))) [
      | inl p ↦ rw (p, other) refl
      | inr p ↦ elim (Bool-cases (idx == max_cmd_tbl_num - 1)) [
        | inl q ↦ rw (p, q, other) refl
        | inr q ↦ rw (p, q) refl
      ]
    ]

shift_loop-behind :
    (left idx k : ℕ) (slots : ℕ → Slot) → k < idx → shift_loop left idx slots k ≡ slots k
unfolding shift_loop
shift_loop-behind zero idx k slots b = refl
shift_loop-behind (suc left) idx k slots b =
    shift_loop-behind left (idx + 1) k (shift_one idx slots) (omega arith)
    ∙ shift_one-behind idx k slots b

shift_loop-Cells :
    (idx : ℕ) (x : Slot) (xs : List Slot) (slots : ℕ → Slot)
    → Cells slots idx (x ∷ xs)
    → idx + suc (length xs) ≤ 128
    → Cells (shift_loop (suc (length xs)) idx slots) idx xs
unfolding shift_loop
shift_loop-Cells idx x [] slots c b = tt
shift_loop-Cells idx x (y ∷ ys) slots (e, (f, c)) b =
    let inside : ltb idx (max_cmd_tbl_num - 1) ≡ true = ground arith in
    let next = set_slot idx (slots (idx + 1)) slots in
    let step : shift_one idx slots ≡ next = rw inside refl in
    subst (λ s. Cells (shift_loop (suc (length ys)) (idx + 1) s) idx (y ∷ ys)) (sym step)
      (
        shift_loop-behind (suc (length ys)) (idx + 1) idx next (omega arith)
            ∙ at_self idx (slots (idx + 1)) slots
            ∙ f,
        shift_loop-Cells (idx + 1) y ys next
            (Cells-set slots (idx + 1) idx (slots (idx + 1)) (y ∷ ys) (omega arith) (f, c))
            (omega arith),
      )

-- Where the search ends: at no slot, or at one that the loop then takes out.
abbrev pub Cut : (test : Slot → Bool) (idx n : ℕ) → List Slot → (ℕ → Slot) → Option ℕ → Type 0
Cut test idx n xs slots none = without test xs ≡ xs
Cut test idx n xs slots (some i) =
    (idx ≤ i)
    × (i < n)
    × (length (without test xs) + 1 ≡ length xs)
    × Cells (shift_loop (n - i) i slots) idx (without test xs)

module _ (name : ℕ → List ℕ) (abbr : ℕ → Option (List ℕ)) (tbl mask : ℕ) where
  abbrev test : Slot → Bool
  test = is_slot_of name abbr tbl mask

  Cut-later :
      (idx n : ℕ) (x : Slot) (xs : List Slot) (slots : ℕ → Slot) (o : Option ℕ)
      → slots idx ≡ x
      → test x ≡ false
      → Cut test (idx + 1) n xs slots o
      → Cut test idx n (x ∷ xs) slots o
  Cut-later idx n x xs slots none e f c = rw f (ap (λ ys. x ∷ ys) c)
  Cut-later idx n x xs slots (some i) e f (a, b, d, c) = rw f (
    omega arith,
    b,
    omega (arith, d),
    (shift_loop-behind (n - i) i idx slots (omega arith) ∙ e, c),
  )

  find_slot-Cut :
      (idx n : ℕ) (xs : List Slot) (slots : ℕ → Slot)
      → Cells slots idx xs
      → n ≡ idx + length xs
      → n ≤ 128
      → Cut test idx n xs slots (find_slot name abbr tbl mask (length xs) idx slots)
  unfolding find_slot
  find_slot-Cut idx n [] slots c h b = refl
  find_slot-Cut idx n (x ∷ xs) slots (e, c) h b = elim (Bool-cases (test x)) [
    | inl p ↦
        let hit : test (slots idx) ≡ true = ap test e ∙ p in
        let left : n - idx ≡ suc (length xs) = omega (arith, h) in
        rw (hit, p)
          (
            omega arith,
            omega (arith, h),
            omega arith,
            subst (λ k. Cells (shift_loop k idx slots) idx xs) (sym left)
                (shift_loop-Cells idx x xs slots (e, c) (omega (arith, h, b))),
          )
    | inr p ↦
        let miss : test (slots idx) ≡ false = ap test e ∙ p in
        rw miss (
          Cut-later idx n x xs slots (find_slot name abbr tbl mask (length xs) (idx + 1) slots) e p
            (find_slot-Cut (idx + 1) n xs slots c (omega (arith, h)) b))
  ]

-- No slot passes the test.
abbrev pub Misses : (Slot → Bool) → List Slot → Type 0
Misses test [] = Unit
Misses test (x ∷ xs) = (test x ≡ false) × Misses test xs

without-end :
    (test : Slot → Bool) (new : Slot) (xs : List Slot)
    → test new ≡ true
    → Misses test xs
    → without test (xs ++ new ∷ []) ≡ xs
without-end test new [] h m = rw h refl
without-end test new (x ∷ xs) h (e, m) = rw e (ap (λ ys. x ∷ ys) (without-end test new xs h m))

without-insert_slot :
    (test : Slot → Bool) (below : ℕ → ℕ → Bool) (new : Slot) (xs : List Slot)
    → test new ≡ true
    → Misses test xs
    → without test (insert_slot below new xs) ≡ xs
without-insert_slot test below new [] h m = rw h refl
without-insert_slot test below new (x ∷ xs) h (e, m) = elim (Bool-cases (below new.tbl x.tbl)) [
  | inl p ↦ rw (p, h) refl
  | inr p ↦ rw (p, e) (ap (λ ys. x ∷ ys) (without-insert_slot test below new xs h m))
]

length-insert_slot :
    (below : ℕ → ℕ → Bool) (new : Slot) (xs : List Slot)
    → length (insert_slot below new xs) ≡ length xs + 1
length-insert_slot below new [] = refl
length-insert_slot below new (x ∷ xs) = elim (Bool-cases (below new.tbl x.tbl)) [
  | inl p ↦ rw p (omega arith)
  | inr p ↦ rw p (omega (arith, length-insert_slot below new xs))
]

strcmp_zero_self : (a : List ℕ) → strcmp_zero a a ≡ true
strcmp_zero_self [] = refl
strcmp_zero_self (c ∷ a) = ground (arith, strcmp_zero_self a)

same_str_self : (s : Option (List ℕ)) → same_str s s ≡ true
same_str_self none = refl
same_str_self (some a) = strcmp_zero_self a

own_slot :
    (name : ℕ → List ℕ) (abbr : ℕ → Option (List ℕ)) (tbl mask : ℕ)
    → is_slot_of name abbr tbl mask (new_slot tbl mask) ≡ true
own_slot name abbr tbl mask =
    rw
      (
        strcmp_zero_self (name tbl),
        same_str_self (abbr tbl),
        eq→== tbl tbl refl,
        eq→== mask mask refl,
      )
      refl

NoTable-Misses :
    (name : ℕ → List ℕ) (abbr : ℕ → Option (List ℕ)) (tbl mask : ℕ) (xs : List Slot)
    → NoTable name tbl xs
    → Misses (is_slot_of name abbr tbl mask) xs
NoTable-Misses name abbr tbl mask [] n = tt
NoTable-Misses name abbr tbl mask (x ∷ xs) (e, n) =
    (rw e refl, NoTable-Misses name abbr tbl mask xs n)

-- The new slot is the only one that passes the test.
without-attached :
    (test : Slot → Bool) (below : ℕ → ℕ → Bool) (cat : CliCat) (new : Slot) (xs : List Slot)
    → test new ≡ true
    → Misses test xs
    → without test (attached below cat new xs) ≡ xs
without-attached test below cat new xs h m = elim (Bool-cases (is_root cat)) [
  | inl p ↦ rw p (without-end test new xs h m)
  | inr p ↦ rw p (without-insert_slot test below new xs h m)
]

length-attached :
    (below : ℕ → ℕ → Bool) (cat : CliCat) (new : Slot) (xs : List Slot)
    → length (attached below cat new xs) ≡ length xs + 1
length-attached below cat new xs = elim (Bool-cases (is_root cat)) [
  | inl p ↦ rw p (length-append xs (new ∷ []))
  | inr p ↦ rw p (length-insert_slot below new xs)
]

detached :
    (name : ℕ → List ℕ) (abbr : ℕ → Option (List ℕ)) (tbl mask : ℕ) (c : Category)
    (ys xs : List Slot)
    → Cells c.slots 0 ys
    → length ys ≡ c.count
    → c.count ≤ 128
    → length ys ≡ length xs + 1
    → without (is_slot_of name abbr tbl mask) ys ≡ xs
    → (c' : Category) × (detach_cmd_tbl name abbr true tbl mask c ≡ (cli_ok, c'))
      × Cells c'.slots 0 xs
      × (c'.count ≡ length xs)
unfolding detach_cmd_tbl
detached name abbr tbl mask c ys xs cells h b more e =
    let some_table : (c.count == 0) ≡ false = ground (arith, h, more) in
    let cut =
      subst
        (λ k.
          Cut (is_slot_of name abbr tbl mask) 0 c.count ys c.slots
            (find_slot name abbr tbl mask k 0 c.slots))
        h (find_slot-Cut name abbr tbl mask 0 c.count ys c.slots cells (omega (arith, h)) b) in
    elim (Option-cases (find_slot name abbr tbl mask c.count 0 c.slots)) [
      | inl f ↦
          let same : without (is_slot_of name abbr tbl mask) ys ≡ ys =
            subst (Cut (is_slot_of name abbr tbl mask) 0 c.count ys c.slots) f cut in
          absurd (omega (arith, more, ap length (sym e ∙ same)))
      | inr (i, f) ↦
          let (low, high, less, rest) =
            subst (Cut (is_slot_of name abbr tbl mask) 0 c.count ys c.slots) f cut in
          (
            record c { slots = shift_loop (c.count - i) i c.slots; count = c.count - 1 },
            rw (some_table, f) refl,
            subst (λ zs. Cells (shift_loop (c.count - i) i c.slots) 0 zs) e rest,
            omega (arith, h, more),
          )
    ]

-- A table that `cli_parser_attach_cmd_tbl` puts into a category with room, and with no table of that name,
-- is taken out again by `cli_parser_detach_cmd_tbl` with the same groups: both return CLIR_OK, and then
-- the category holds the tables that it held before, in their order.
pub detach_cmd_tbl-attach_cmd_tbl :
    (below : ℕ → ℕ → Bool) (name : ℕ → List ℕ) (abbr : ℕ → Option (List ℕ)) (cat : CliCat)
    (tbl mask : ℕ) (xs : List Slot) (c : Category)
    → Cells c.slots 0 xs
    → Agree xs
    → length xs ≡ c.count
    → c.count < 128
    → NoTable name tbl xs
    → (c1 c2 : Category) × (attach_cmd_tbl below name abbr true cat tbl mask c ≡ some (cli_ok, c1))
      × (detach_cmd_tbl name abbr true tbl mask c1 ≡ (cli_ok, c2))
      × Cells c2.slots 0 xs
      × (c2.count ≡ c.count)
detach_cmd_tbl-attach_cmd_tbl below name abbr cat tbl mask xs c cells agree h room n =
    let (c1, done, kept, more) =
      attach_cmd_tbl-attached below name abbr cat tbl mask xs c cells agree h room n in
    let new = new_slot tbl mask in
    let longer = length-attached below cat new xs in
    let (c2, undone, back, count) =
      detached name abbr tbl mask c1 (attached below cat new xs) xs kept
        (longer ∙ omega (arith, h, more)) (omega (arith, more, room)) longer
        (without-attached (is_slot_of name abbr tbl mask) below cat new xs
          (own_slot name abbr tbl mask) (NoTable-Misses name abbr tbl mask xs n)) in
    (c1, c2, done, undone, back, count ∙ h)
