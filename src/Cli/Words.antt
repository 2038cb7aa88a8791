-- ===== src/Cli/Words.antt =====
-- cli/cli_parser.c: `_find_cmd_argv` on words with a space between them.
use multithreading.Prelude.{
  ℕ, zero, suc, ◌+◌, ◌-◌, ◌<◌, ◌≤◌, Bool, true, false, Option, none, some, List, [], ◌∷◌, ◌++◌,
  ◌==◌, ◌&&◌, ◌||◌, not, if◌then◌else◌, leb, ltb, length, ◌≡◌, refl, ap, ◌∙◌, arith, inl, inr,
  Bool-cases,
}
use multithreading.Cli.{
  no_quote, goes_on, quoted, Grabbed, copied, grab, after_quote, skip, is_printable, is_space,
  sgl_quote, dbl_quote, punch, at_end, with_arg, argv_loop, find_cmd_argv,
}

-- A character that stands for itself.
abbrev pub plain : ℕ → Bool
plain c = is_printable c && not (is_space c) && not (c == sgl_quote) && not (c == dbl_quote)

abbrev pub Plain : List ℕ → Type 0
Plain [] = Unit
Plain (c ∷ cs) = (plain c ≡ true) × Plain cs

-- Words that fit into their buffers.
abbrev pub Words : (argv_len : ℕ) → List (List ℕ) → Type 0
Words argv_len [] = Unit
Words argv_len (w ∷ ws) = Plain w × (0 < length w) × (length w < argv_len) × Words argv_len ws

-- The words, each behind a space.
abbrev pub spaced : List (List ℕ) → List ℕ
spaced [] = []
spaced (w ∷ ws) = 32 ∷ w ++ spaced ws

plain-goes_on : (c : ℕ) → plain c ≡ true → (goes_on no_quote c ≡ true) × (quoted no_quote c ≡ none)
plain-goes_on c h =
    let a : (c == sgl_quote) ≡ false = ground (arith, h) in
    let b : (c == dbl_quote) ≡ false = ground (arith, h) in (ground (arith, h), rw (a, b) refl)

-- A word that is grabbed whole.
abbrev whole : List ℕ → List (List ℕ) → (idx : ℕ) → Grabbed
whole w ws idx = record { arg = w; rest = spaced ws; cmd_idx = idx }

-- What the loop grabs of a word, and what follows.
module _ (argv_len : ℕ) where
  grab_space :
      (idx : ℕ) (ws : List (List ℕ)) → grab argv_len no_quote idx (spaced ws) ≡ whole [] ws idx
  unfolding grab
  grab_space idx [] = refl
  grab_space idx (w ∷ ws) = refl

  grab_word :
      (idx : ℕ) (w : List ℕ) (ws : List (List ℕ))
      → Plain w
      → idx + length w < argv_len
      → grab argv_len no_quote idx (w ++ spaced ws) ≡ whole w ws (idx + length w)
  unfolding grab
  grab_word idx [] ws p h = grab_space idx ws ∙ ap (whole [] ws) (omega arith)
  grab_word idx (c ∷ w) ws (p, ps) h =
      let (on, itself) = plain-goes_on c p in
      let room : leb (argv_len - 1) idx ≡ false = ground arith in
      rw (on, room, itself)
        (ap (copied c) (grab_word (idx + 1) w ws ps (omega arith))
          ∙ ap (whole (c ∷ w) ws) (omega arith))

no_quote_behind :
    (w : List ℕ) (ws : List (List ℕ)) (idx : ℕ) → after_quote (whole w ws idx) ≡ whole w ws idx
no_quote_behind w [] idx = refl
no_quote_behind w (v ∷ ws) idx = refl

skip_word :
    (w : List ℕ) (ws : List (List ℕ))
    → Plain w
    → 0 < length w
    → skip (w ++ spaced ws) ≡ w ++ spaced ws
skip_word [] ws p h = absurd (omega arith)
skip_word (c ∷ w) ws (p, ps) h =
    let start : (not (is_printable c) || is_space c) ≡ false = ground (arith, p) in rw start refl

-- The loop at a word that begins at once, or behind spaces.
module _ (fuel argv_num argv_len argc : ℕ) (w : List ℕ) (ws : List (List ℕ)) (cs : List ℕ) where
  -- What the loop does with an argument.
  abbrev goes : Grabbed → Option (List (List ℕ))
  goes g =
      let argc' : ℕ = if ltb 0 g.cmd_idx then argc + 1 else argc in
      with_arg (ltb 0 g.cmd_idx) g.arg
        (if leb argv_num argc' then some [] else argv_loop fuel argv_num argv_len argc' g.rest)

  word_found :
      skip cs ≡ w ++ spaced ws
      → at_end cs ≡ false
      → Plain w
      → 0 < length w
      → length w < argv_len
      → argv_loop (suc fuel) argv_num argv_len argc cs
        ≡ with_arg true w (
            if leb argv_num (argc + 1)
            then some []
            else argv_loop fuel argv_num argv_len (argc + 1) (spaced ws))
  unfolding argv_loop
  word_found e on p more fits =
      let g = ap (grab argv_len no_quote 0) e ∙ grab_word argv_len 0 w ws p (omega arith) in
      let h = ap after_quote g ∙ no_quote_behind w ws (0 + length w) in
      let found : ltb 0 (0 + length w) ≡ true = ground arith in rw on (ap goes h ∙ rw found refl)

-- No more arguments are looked for when all are there.
rest_found :
    (fuel argv_num argv_len argc : ℕ) (ws : List (List ℕ))
    → argv_loop fuel argv_num argv_len (argc + 1) (spaced ws) ≡ some ws
    → argc + suc (length ws) ≤ argv_num
    → (if leb argv_num (argc + 1)
        then some []
        else argv_loop fuel argv_num argv_len (argc + 1) (spaced ws))
      ≡ some ws
rest_found fuel argv_num argv_len argc [] ih h = elim (Bool-cases (leb argv_num (argc + 1))) [
  | inl p ↦ rw p refl
  | inr p ↦ rw p ih
]
rest_found fuel argv_num argv_len argc (w ∷ ws) ih h =
    let more : leb argv_num (argc + 1) ≡ false = ground arith in rw more ih

-- The rest of the line, and all of it.
spaced_found :
    (fuel argv_num argv_len argc : ℕ) (ws : List (List ℕ))
    → Words argv_len ws
    → argc + length ws ≤ argv_num
    → length ws < fuel
    → argv_loop fuel argv_num argv_len argc (spaced ws) ≡ some ws
unfolding argv_loop
spaced_found zero argv_num argv_len argc ws p few h = absurd (omega arith)
spaced_found (suc fuel) argv_num argv_len argc [] p few h = refl
spaced_found (suc fuel) argv_num argv_len argc (w ∷ ws) (p, more, fits, ps) few h =
    word_found fuel argv_num argv_len argc w ws (spaced (w ∷ ws)) (skip_word w ws p more) refl p
      more fits
    ∙ ap (with_arg true w) (
        rest_found fuel argv_num argv_len argc ws
          (spaced_found fuel argv_num argv_len (argc + 1) ws ps (omega arith) (omega arith)) few)

-- `_find_cmd_argv`, with fuel for the words, gives back the words of a line with a space between them:
-- words of printable characters other than quotes, not empty, shorter than a buffer, no more than there
-- is room for, the first of which does not begin with `#`.
pub find_cmd_argv-Words :
    (fuel argv_num argv_len c : ℕ) (w : List ℕ) (ws : List (List ℕ))
    → Words argv_len ((c ∷ w) ∷ ws)
    → (c == punch) ≡ false
    → suc (length ws) ≤ argv_num
    → suc (length ws) < fuel
    → find_cmd_argv fuel argv_num argv_len (c ∷ w ++ spaced ws) ≡ some ((c ∷ w) ∷ ws)
find_cmd_argv-Words zero argv_num argv_len c w ws (p, more, fits, ps) n few h = absurd (omega arith)
find_cmd_argv-Words (suc fuel) argv_num argv_len c w ws (p, more, fits, ps) n few h =
    let given : ((argv_num == 0) || (argv_len == 0)) ≡ false = ground arith in
    rw given (
      word_found fuel argv_num argv_len 0 (c ∷ w) ws (c ∷ w ++ spaced ws)
        (skip_word (c ∷ w) ws p more) n p more fits
      ∙ ap (with_arg true (c ∷ w)) (
          rest_found fuel argv_num argv_len 0 ws
            (spaced_found fuel argv_num argv_len (0 + 1) ws ps (omega arith) (omega arith))
            (omega arith)))
