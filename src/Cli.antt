-- ===== src/Cli.antt =====
-- cli/cli_parser.c: how a line of the command line becomes arguments and numbers. A C string is the
-- list of its characters without the NUL. Characters are their codes.
pub mod Number
pub mod Split
pub mod Words
pub mod Command
pub mod Dispatch
pub mod Levels
pub mod Attach
pub mod Sorted
pub mod Detach
pub mod Undo
mod Examples
use multithreading.Prelude.{
  ℕ, zero, suc, ◌+◌, ◌-◌, ◌*◌, ◌%◌, ◌^◌, Bool, true, false, Option, none, some, List, [], ◌∷◌, ◌==◌,
  ◌&&◌, ◌||◌, not, if◌then◌else◌, leb, ltb, length, take,
}

-- The 32 bits of a UINT32.
abbrev pub w32 : ℕ → ℕ
w32 n = n % 2 ^ 32

abbrev pub between : (a b c : ℕ) → Bool
between a b c = leb a c && leb c b

abbrev pub hex_digit : ℕ → Option ℕ
hex_digit c =
    if between 48 57 c
    then some (c - 48)
    else if between 65 70 c
    then some (c - 65 + 10)
    else if between 97 102 c
    then some (c - 97 + 10)
    else none

abbrev pub dec_digit : ℕ → Option ℕ
dec_digit c = if between 48 57 c then some (c - 48) else none

-- The loops of `_str2hex` and `_str2dec`: another character makes the result 0.
unfoldable pub digits_loop : (base : ℕ) (digit : ℕ → Option ℕ) (value : ℕ) → List ℕ → ℕ
digits_loop base digit value [] = value
digits_loop base digit value (c ∷ cs) = elim (digit c) [
  | none ↦ 0
  | some d ↦ digits_loop base digit (w32 (w32 (value * base) + d)) cs
]

abbrev pub str2hex : List ℕ → ℕ
str2hex cs = digits_loop 16 hex_digit 0 (take 8 cs)

abbrev pub str2dec : List ℕ → ℕ
str2dec cs = digits_loop 10 dec_digit 0 (take 10 cs)

-- `_str2int` of a string that is not NULL
abbrev pub str2int : List ℕ → ℕ
str2int (a ∷ b ∷ c ∷ cs) =
    if (a == 48) && (b == 120) then str2hex (c ∷ cs) else str2dec (a ∷ b ∷ c ∷ cs)
str2int cs = str2dec cs

-- IS_PRINTABLE, IS_SPACE
abbrev pub is_printable : ℕ → Bool
is_printable c = not (ltb 0 c && ltb c 32)

abbrev pub is_space : ℕ → Bool
is_space c = (c == 32) || (c == 10) || (c == 9) || (c == 13) || (c == 7)

-- ASCII_KEY_SGL_QUOTE, ASCII_KEY_DBL_QUOTE, ASCII_KEY_PUNCH
abbrev pub sgl_quote : ℕ
sgl_quote = 39

abbrev pub dbl_quote : ℕ
dbl_quote = 34

abbrev pub punch : ℕ
punch = 35

-- The search for the first character of an argument.
abbrev pub skip : List ℕ → List ℕ
skip [] = []
skip (c ∷ cs) = if not (is_printable c) || is_space c then skip cs else c ∷ cs

-- `ui1_quote_state`
pub data QuoteState : Type 0 where
  no_quote single double : QuoteState

abbrev pub goes_on : QuoteState → ℕ → Bool
goes_on no_quote c = is_printable c && not (is_space c)
goes_on single c = is_printable c && not (c == sgl_quote)
goes_on double c = is_printable c && not (c == dbl_quote)

-- The state after a quote, when the character at hand is one that counts.
abbrev pub quoted : QuoteState → ℕ → Option QuoteState
quoted no_quote c =
    if c == sgl_quote then some single else if c == dbl_quote then some double else none
quoted single c = if c == sgl_quote then some no_quote else none
quoted double c = if c == dbl_quote then some no_quote else none

-- What is copied of an argument, what is left of the line, and `ui4_cmd_idx`.
pub record Grabbed : Type 0 where
  pub arg : List ℕ
  pub rest : List ℕ
  pub cmd_idx : ℕ

abbrev pub copied : ℕ → Grabbed → Grabbed
copied c g = record g { arg = c ∷ g.arg }

-- The loop that grabs an argument.
unfoldable pub grab : (argv_len : ℕ) → QuoteState → (idx : ℕ) → List ℕ → Grabbed
grab argv_len q idx [] = record { arg = []; rest = []; cmd_idx = idx }
grab argv_len q idx (c ∷ cs) =
    let more : Grabbed = elim (quoted q c) [
      | some q' ↦ grab argv_len q' (idx + 1) cs
      | none ↦ copied c (grab argv_len q (idx + 1) cs)
    ] in
    if not (goes_on q c) || leb (argv_len - 1) idx
    then record { arg = []; rest = c ∷ cs; cmd_idx = idx }
    else more

-- A quote behind the argument.
abbrev pub behind_quote : List ℕ → Grabbed → Grabbed
behind_quote [] g = g
behind_quote (c ∷ cs) g =
    if (c == sgl_quote) || (c == dbl_quote)
    then record g { rest = cs; cmd_idx = g.cmd_idx + 1 }
    else g

abbrev pub after_quote : Grabbed → Grabbed
after_quote g = behind_quote g.rest g

abbrev pub at_end : List ℕ → Bool
at_end [] = true
at_end (c ∷ cs) = c == punch

abbrev pub with_arg : Bool → List ℕ → Option (List (List ℕ)) → Option (List (List ℕ))
with_arg found a none = none
with_arg found a (some args) = some (if found then a ∷ args else args)

-- The loop of `_find_cmd_argv` from the argument `argc` on; `none` is the end of the fuel.
unfoldable pub argv_loop : (fuel argv_num argv_len argc : ℕ) → List ℕ → Option (List (List ℕ))
argv_loop zero argv_num argv_len argc cs = none
argv_loop (suc fuel) argv_num argv_len argc cs =
    let g = after_quote (grab argv_len no_quote 0 (skip cs)) in
    let found = ltb 0 g.cmd_idx in
    let argc' : ℕ = if found then argc + 1 else argc in
    let more = argv_loop fuel argv_num argv_len argc' g.rest in
    if at_end cs
    then some []
    else with_arg found g.arg (if leb argv_num argc' then some [] else more)

-- `_find_cmd_argv` with pointers that are not NULL
abbrev pub find_cmd_argv : (fuel argv_num argv_len : ℕ) → List ℕ → Option (List (List ℕ))
find_cmd_argv fuel argv_num argv_len cs =
    if (argv_num == 0) || (argv_len == 0) then some [] else argv_loop fuel argv_num argv_len 0 cs
