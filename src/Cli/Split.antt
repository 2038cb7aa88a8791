-- ===== src/Cli/Split.antt =====
-- cli/cli_parser.c: what `_find_cmd_argv` writes stays inside its buffers.
use multithreading.Prelude.{
  ℕ, zero, suc, ◌+◌, ◌-◌, ◌<◌, ◌≤◌, Bool, true, false, Option, some, List, [], ◌∷◌, ◌==◌, ◌||◌, not,
  if◌then◌else◌, leb, ltb, length, ◌≡◌, ◌⊎◌, refl, sym, ap, subst, arith, inl, inr, Bool-cases,
  Option-cases,
}
use multithreading.Cli.{
  QuoteState, no_quote, goes_on, quoted, Grabbed, grab, behind_quote, after_quote, skip,
  is_printable, is_space, sgl_quote, dbl_quote, punch, with_arg, argv_loop, find_cmd_argv,
}

-- What a call of the grabbing loop leaves: the argument is no longer than the index has moved, which
-- stays below the length of the buffer, and the line is shorter by as much.
pub record Bounded (argv_len idx : ℕ) (cs : List ℕ) (g : Grabbed) : Type 0 where
  pub used : idx + length g.arg ≤ g.cmd_idx
  pub fits : g.cmd_idx ≤ argv_len - 1
  pub moved : g.cmd_idx + length g.rest ≡ idx + length cs

module _ (argv_len : ℕ) where
  pub grab-Bounded :
      (q : QuoteState) (idx : ℕ) (cs : List ℕ)
      → idx ≤ argv_len - 1
      → Bounded argv_len idx cs (grab argv_len q idx cs)
  unfolding grab
  grab-Bounded q idx [] h = record { used = omega arith; fits = h; moved = refl }
  grab-Bounded q idx (c ∷ cs) h = elim (Bool-cases (not (goes_on q c) || leb (argv_len - 1) idx)) [
    | inl p ↦ rw p (record { used = omega arith; fits = h; moved = refl })
    | inr p ↦
        let room : idx + 1 ≤ argv_len - 1 = ground arith in
        elim (Option-cases (quoted q c)) [
          | inl n ↦
              let b = grab-Bounded q (idx + 1) cs room in
              rw (p, n)
                (record {
                  used = omega (arith, b.used);
                  fits = b.fits;
                  moved = omega (arith, b.moved);
                })
          | inr (q', n) ↦
              let b = grab-Bounded q' (idx + 1) cs room in
              rw (p, n)
                (record {
                  used = omega (arith, b.used);
                  fits = b.fits;
                  moved = omega (arith, b.moved);
                })
        ]
  ]

  -- An argument takes at least one character.
  grab-moves :
      (c : ℕ) (cs : List ℕ)
      → 2 ≤ argv_len
      → goes_on no_quote c ≡ true
      → 0 < (grab argv_len no_quote 0 (c ∷ cs)).cmd_idx
  unfolding grab
  grab-moves c cs h p =
      let stop : (not (goes_on no_quote c) || leb (argv_len - 1) 0) ≡ false = ground (arith, p) in
      let room : 1 ≤ argv_len - 1 = omega arith in
      elim (Option-cases (quoted no_quote c)) [
        | inl n ↦ let b = grab-Bounded no_quote 1 cs room in rw (stop, n) (omega (arith, b.used))
        | inr (q', n) ↦ let b = grab-Bounded q' 1 cs room in rw (stop, n) (omega (arith, b.used))
      ]

-- What is known behind the argument, with its closing quote.
pub record Taken (argv_len : ℕ) (cs : List ℕ) (g : Grabbed) : Type 0 where
  pub fits : length g.arg ≤ argv_len - 1
  pub moved : g.cmd_idx + length g.rest ≡ length cs

behind_quote-Taken :
    (argv_len : ℕ) (cs : List ℕ) (g : Grabbed) (r : List ℕ)
    → g.rest ≡ r
    → Bounded argv_len 0 cs g
    → Taken argv_len cs (behind_quote r g) × (g.cmd_idx ≤ (behind_quote r g).cmd_idx)
behind_quote-Taken argv_len cs g [] e b =
    (record { fits = omega (arith, b.used, b.fits); moved = omega (arith, b.moved) }, omega arith)
behind_quote-Taken argv_len cs g (c ∷ r) e b =
    let split = ap length e in
    elim (Bool-cases ((c == sgl_quote) || (c == dbl_quote))) [
      | inl p ↦ rw p (
        record { fits = omega (arith, b.used, b.fits); moved = omega (arith, b.moved, split) },
        omega arith,
      )
      | inr p ↦ rw p (
        record { fits = omega (arith, b.used, b.fits); moved = omega (arith, b.moved) },
        omega arith,
      )
    ]

length-skip : (cs : List ℕ) → length (skip cs) ≤ length cs
length-skip [] = omega arith
length-skip (c ∷ cs) = elim (Bool-cases (not (is_printable c) || is_space c)) [
  | inl p ↦ rw p (omega (arith, length-skip cs))
  | inr p ↦ rw p (omega arith)
]

-- Behind `skip` an argument begins, or the line is over.
skip-goes_on :
    (cs : List ℕ)
    → (skip cs ≡ []) ⊎ ((c : ℕ) × (r : List ℕ) × (skip cs ≡ c ∷ r) × (goes_on no_quote c ≡ true))
skip-goes_on [] = inl refl
skip-goes_on (c ∷ cs) = elim (Bool-cases (not (is_printable c) || is_space c)) [
  | inl p ↦ rw p (skip-goes_on cs)
  | inr p ↦ rw p (inr (c, cs, refl, ground arith))
]

-- A round of the loop of `_find_cmd_argv` leaves less of the line.
abbrev next_arg : (argv_len : ℕ) → List ℕ → Grabbed
next_arg argv_len cs = after_quote (grab argv_len no_quote 0 (skip cs))

next_arg-shorter :
    (argv_len c : ℕ) (cs : List ℕ)
    → 2 ≤ argv_len
    → (length (next_arg argv_len (c ∷ cs)).arg ≤ argv_len - 1)
      × (length (next_arg argv_len (c ∷ cs)).rest < length (c ∷ cs))
next_arg-shorter argv_len c cs h =
    let g = grab argv_len no_quote 0 (skip (c ∷ cs)) in
    let b = grab-Bounded argv_len no_quote 0 (skip (c ∷ cs)) (omega arith) in
    let (t, grows) = behind_quote-Taken argv_len (skip (c ∷ cs)) g g.rest refl b in
    let short = length-skip (c ∷ cs) in
    (
      t.fits,
      elim (skip-goes_on (c ∷ cs)) [
        | inl e ↦ let none_left = ap length e in omega (arith, t.moved, none_left)
        | inr (d, r, e, on) ↦
            let more =
              subst (λ ds. 0 < (grab argv_len no_quote 0 ds).cmd_idx) (sym e)
                (grab-moves argv_len d r h on) in
            omega (arith, t.moved, grows, short, more)
      ],
    )

-- Every argument fits into its buffer with the NUL behind it.
abbrev pub Fit : (argv_len : ℕ) → List (List ℕ) → Type 0
Fit argv_len [] = Unit
Fit argv_len (a ∷ args) = (length a < argv_len) × Fit argv_len args

with_arg-Fit :
    (found : Bool) (argv_len argc argv_num : ℕ) (a : List ℕ) (o : Option (List (List ℕ)))
    → length a < argv_len
    → (args : List (List ℕ)) × (o ≡ some args)
      × ((if found then argc + 1 else argc) + length args ≤ argv_num)
      × Fit argv_len args
    → (args : List (List ℕ)) × (with_arg found a o ≡ some args)
      × (argc + length args ≤ argv_num)
      × Fit argv_len args
with_arg-Fit true argv_len argc argv_num a o h (args, e, b, f) =
    (a ∷ args, ap (with_arg true a) e, omega arith, (h, f))
with_arg-Fit false argv_len argc argv_num a o h (args, e, b, f) =
    (args, ap (with_arg false a) e, b, f)

argv_loop-Fit :
    (fuel argv_num argv_len argc : ℕ) (cs : List ℕ)
    → 2 ≤ argv_len
    → argc < argv_num
    → length cs < fuel
    → (args : List (List ℕ)) × (argv_loop fuel argv_num argv_len argc cs ≡ some args)
      × (argc + length args ≤ argv_num)
      × Fit argv_len args
unfolding argv_loop
argv_loop-Fit zero argv_num argv_len argc cs a b h = absurd (omega arith)
argv_loop-Fit (suc fuel) argv_num argv_len argc [] a b h = ([], refl, omega arith, tt)
argv_loop-Fit (suc fuel) argv_num argv_len argc (c ∷ cs) a b h = elim (Bool-cases (c == punch)) [
  | inl p ↦ ([], rw p refl, omega arith, tt)
  | inr p ↦
      let (fits, less) = next_arg-shorter argv_len c cs a in
      let g = next_arg argv_len (c ∷ cs) in
      let found = ltb 0 g.cmd_idx in
      let argc' : ℕ = if found then argc + 1 else argc in
      let low : argc' ≤ argc + 1 = ground arith in
      let more = argv_loop fuel argv_num argv_len argc' g.rest in
      rw p (
        with_arg-Fit found argv_len argc argv_num g.arg
          (if leb argv_num argc' then some [] else more) (omega (arith, fits))
          (elim (Bool-cases (leb argv_num argc')) [
            | inl q ↦ rw q ([], refl, omega arith, tt)
            | inr q ↦ rw q (
                argv_loop-Fit fuel argv_num argv_len argc' g.rest a (ground arith)
                  (omega (arith, less)))
          ]))
]

-- `_find_cmd_argv` with room for at least one argument and buffers of at least two characters comes to
-- its end with fuel for the line, gives at most `argv_num` arguments, and every one fits into its
-- buffer with the NUL behind it.
pub find_cmd_argv-Fit :
    (fuel argv_num argv_len : ℕ) (cs : List ℕ)
    → 2 ≤ argv_len
    → 0 < argv_num
    → length cs < fuel
    → (args : List (List ℕ)) × (find_cmd_argv fuel argv_num argv_len cs ≡ some args)
      × (length args ≤ argv_num)
      × Fit argv_len args
find_cmd_argv-Fit fuel argv_num argv_len cs a b h =
    let given : ((argv_num == 0) || (argv_len == 0)) ≡ false = ground arith in
    let (args, e, few, fit) = argv_loop-Fit fuel argv_num argv_len 0 cs a b h in
    rw given (args, e, omega (arith, few), fit)
