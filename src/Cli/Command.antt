-- ===== src/Cli/Command.antt =====
-- cli/cli_parser.c: the search for a command in the tables. A table is an address; an element of it is
-- where a pointer to the element points, the rest of the table. `functions` are the numbers of the
-- functions that the tables call.
use multithreading.Prelude.{
  ℕ, zero, suc, Bool, true, false, Option, none, some, List, [], ◌∷◌, ◌==◌, ◌&&◌, ◌||◌,
  if◌then◌else◌, ltb,
}

-- inc/u_cli.h: the codes that the parser returns, without their prefix CLIR_.
pub data Clir : Type 0 where
  cli_ok inv_cmd_usage inv_arg inv_cmd_tbl cmd_not_found cmd_tbl_full cmd_tbl_null : Clir

-- CLI_EXEC_T; `next_level` is an address, 0 being NULL.
pub record CliExec : Type 0 where
  pub cmd_str : List ℕ
  pub cmd_abbr_str : Option (List ℕ)
  pub exec_fct : Option ℕ
  pub next_level : ℕ

-- The tables by address, and the addresses of those of each category.
pub record CmdTables : Type 0 where
  pub table : ℕ → List CliExec
  pub root : List ℕ
  pub app : List ℕ
  pub mw : List ℕ

-- ASCII_KEY_DOT, CLI_CAT_APP_STR, CLI_CAT_MW_STR
abbrev pub dot : ℕ
dot = 46

abbrev pub app_str : List ℕ
app_str = 97 ∷ 112 ∷ 112 ∷ []

abbrev pub mw_str : List ℕ
mw_str = 109 ∷ 119 ∷ []

abbrev pub strcmp_zero : List ℕ → List ℕ → Bool
strcmp_zero [] [] = true
strcmp_zero [] (d ∷ b) = false
strcmp_zero (c ∷ a) [] = false
strcmp_zero (c ∷ a) (d ∷ b) = (c == d) && strcmp_zero a b

-- The name up to the first dot, and what follows from the dot on.
abbrev pub before_dot : List ℕ → List ℕ
before_dot [] = []
before_dot (c ∷ cs) = if c == dot then [] else c ∷ before_dot cs

abbrev pub from_dot : List ℕ → List ℕ
from_dot [] = []
from_dot (c ∷ cs) = if c == dot then c ∷ cs else from_dot cs

abbrev pub tail : List ℕ → List ℕ
tail [] = []
tail (c ∷ cs) = cs

abbrev pub named_by : CliExec → List ℕ → Bool
named_by e dir =
    strcmp_zero e.cmd_str dir || elim e.cmd_abbr_str [ none ↦ false | some a ↦ strcmp_zero a dir ]

-- `_search_tbl`; the empty list is NULL.
abbrev pub search_tbl : (dir : List ℕ) → List CliExec → List CliExec
search_tbl dir [] = []
search_tbl dir (e ∷ es) = if named_by e dir then e ∷ es else search_tbl dir es

-- `_is_cmd_tbl_array` of a pointer to an element
abbrev pub is_category : CliExec → Bool
is_category e = strcmp_zero e.cmd_str app_str || strcmp_zero e.cmd_str mw_str

-- `_get_cmd_tbl_array` of a pointer to an element, and of NULL
abbrev pub category : CmdTables → CliExec → List ℕ
category t e =
    if strcmp_zero e.cmd_str app_str
    then t.app
    else if strcmp_zero e.cmd_str mw_str
    then t.mw
    else []

abbrev pub or_else : List CliExec → List CliExec → List CliExec
or_else [] rest = rest
or_else (e ∷ es) rest = e ∷ es

abbrev pub search_array : CmdTables → (dir : List ℕ) → List ℕ → List CliExec
search_array t dir [] = []
search_array t dir (a ∷ tables) = or_else (search_tbl dir (t.table a)) (search_array t dir tables)

-- Where the search starts: NULL, or an element of a table. The end of a table is no element.
pub data Start : Type 0 where
  null : Start
  from : List CliExec → Start

-- What `_parse_cmd` comes to: a code, a call of a function with `argv[0]`, help; or an access through
-- NULL, or the end of the fuel.
pub data Parsed : Type 0 where
  returned : Clir → Parsed
  run : (fct : ℕ) (argv0 : List ℕ) → Parsed
  help : Parsed
  through_null : Parsed
  out_of_fuel : Parsed

abbrev pub find : CmdTables → (dir : List ℕ) → Start → Option (List CliExec)
find t dir null = some (search_array t dir t.root)
find t dir (from []) = none
find t dir (from (e ∷ es)) =
    some (if is_category e then search_array t dir (category t e) else search_tbl dir (e ∷ es))

-- The next level of an element.
abbrev pub below : CmdTables → CliExec → List CliExec → Start
below t e es = if is_category e then from (e ∷ es) else from (t.table e.next_level)

-- What `_parse_cmd` does with the element that it has found: its function, whether it has no next
-- level, whether it is a category; `rest` is the name from the dot on, and `deeper` what the next
-- level comes to.
abbrev pub execute_at :
    (argc : ℕ) (argv0 : List ℕ)
    → Option ℕ
    → (no_next is_cat : Bool) (rest : List ℕ) → Parsed
    → Parsed
execute_at argc argv0 none true true rest deeper = returned Clir.cmd_not_found
execute_at argc argv0 none true false rest deeper = returned Clir.inv_cmd_tbl
execute_at argc argv0 (some f) true is_cat rest deeper = run f argv0
execute_at argc argv0 (some f) false is_cat [] deeper =
    if ltb 1 argc then run f argv0 else if argc == 1 then help else returned Clir.cmd_not_found
execute_at argc argv0 none false is_cat [] deeper =
    if argc == 1 then help else returned Clir.cmd_not_found
execute_at argc argv0 exec false is_cat (c ∷ cs) deeper = deeper

abbrev pub execute : (argc : ℕ) (argv0 rest : List ℕ) → CliExec → Parsed → Parsed
execute argc argv0 rest e deeper =
    execute_at argc argv0 e.exec_fct (e.next_level == 0) (is_category e) rest deeper

-- What the search has found.
abbrev pub found : Option (List CliExec) → (CliExec → List CliExec → Parsed) → Parsed
found none act = through_null
found (some []) act = returned Clir.cmd_not_found
found (some (e ∷ es)) act = act e es

-- `_parse_cmd` of arguments that are not NULL
unfoldable pub parse_cmd : (fuel : ℕ) → CmdTables → (argc : ℕ) (argv0 : List ℕ) → Start → Parsed
parse_cmd zero t argc argv0 at = out_of_fuel
parse_cmd (suc fuel) t argc argv0 at = found (find t (before_dot argv0) at) (λ e es.
    execute argc argv0 (from_dot argv0) e
      (parse_cmd fuel t argc (tail (from_dot argv0)) (below t e es)))
