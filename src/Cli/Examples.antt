-- ===== src/Cli/Examples.antt =====
-- cli/cli_parser.c: the line `ab c` and the number 48879.
use multithreading.Prelude.{
  true, Bool, Option, ◌+◌, ◌&&◌, none, ◌≢◌, if◌then◌else◌, ◌==◌, ℕ, ◌≤◌, ◌≡◌, List, [], ◌∷◌, ◌++◌,
  some, length, map, refl, arith, inl, inr,
}
use multithreading.Cli.{str2int, find_cmd_argv}
use multithreading.Cli.Attach.{cat_app, Category, new_slot, attach_cmd_tbl}
use multithreading.Cli.Detach.{detach_cmd_tbl}
use multithreading.Cli.Undo.{detach_cmd_tbl-attach_cmd_tbl}
use multithreading.Cli.Sorted.{Cells, attached, attach_cmd_tbl-attached}
use multithreading.Cli.Command.{
  cli_ok, CliExec, CmdTables, null, app_str, run, out_of_fuel, parse_cmd,
}
use multithreading.Cli.Dispatch.{dotted, parse_cmd-ends}
use multithreading.Cli.Levels.{Named, arrives, descends, tables_at, table_at, parse_cmd-Way}
use multithreading.Cli.Number.{dec_char, hex_char, digits, str2int-digits}
use multithreading.Cli.Split.{Fit, find_cmd_argv-Fit}
use multithreading.Cli.Words.{spaced, find_cmd_argv-Words}

str2int-digits_example :
    (str2int (map dec_char (digits 10 10 48879)) ≡ 48879)
    × (str2int (48 ∷ 120 ∷ map hex_char (digits 16 8 48879)) ≡ 48879)
str2int-digits_example = str2int-digits 48879 (omega arith)

-- The quote begins an argument with a space in it.
find_cmd_argv-Fit_example :
    (args : List (List ℕ)) × (find_cmd_argv 9 4 3 (97 ∷ 32 ∷ 34 ∷ 98 ∷ 32 ∷ 99 ∷ 34 ∷ [])
      ≡ some args)
    × (length args ≤ 4)
    × Fit 3 args
find_cmd_argv-Fit_example =
    find_cmd_argv-Fit 9 4 3 (97 ∷ 32 ∷ 34 ∷ 98 ∷ 32 ∷ 99 ∷ 34 ∷ []) (omega arith) (omega arith)
      (omega arith)

find_cmd_argv-Words_example :
    find_cmd_argv 3 4 8 (97 ∷ (98 ∷ []) ++ spaced ((99 ∷ []) ∷ []))
    ≡ some ((97 ∷ 98 ∷ []) ∷ (99 ∷ []) ∷ [])
find_cmd_argv-Words_example =
    find_cmd_argv-Words 3 4 8 97 (98 ∷ []) ((99 ∷ []) ∷ [])
      ((refl, (refl, tt)), omega arith, omega arith, ((refl, tt), omega arith, omega arith, tt))
      refl (omega arith) (omega arith)

-- The command `b` in the table 16, below `a` in the table 8.
abbrev dir_a : CliExec
dir_a = record { cmd_str = 97 ∷ []; cmd_abbr_str = none; exec_fct = none; next_level = 16 }

abbrev cmd_b : CliExec
cmd_b = record { cmd_str = 98 ∷ []; cmd_abbr_str = none; exec_fct = some 5; next_level = 0 }

abbrev two_tables : CmdTables
two_tables = record {
  table = λ k. if k == 8 then dir_a ∷ [] else cmd_b ∷ [];
  root = 8 ∷ [];
  app = [];
  mw = [];
}

parse_cmd-ends_example : parse_cmd 4 two_tables 1 (97 ∷ 46 ∷ 98 ∷ []) null ≢ out_of_fuel
parse_cmd-ends_example = parse_cmd-ends 4 two_tables 1 (97 ∷ 46 ∷ 98 ∷ []) null (omega arith)

-- The category `app`, whose second table has `a`, under the abbreviation `x`, and the command `b` below.
abbrev categories : CmdTables
categories = record {
  table = λ k.
      if k == 8
      then record { cmd_str = app_str; cmd_abbr_str = none; exec_fct = none; next_level = 24 } ∷ []
      else if k == 16
      then record dir_a { cmd_abbr_str = some (120 ∷ []); next_level = 32 } ∷ []
      else cmd_b ∷ [];
  root = 8 ∷ [];
  app = 24 ∷ 16 ∷ [];
  mw = [];
}

first_char : (c d : ℕ) (a b : List ℕ) → c ≢ d → ◌≢◌ {A = List ℕ} (c ∷ a) (d ∷ b)
first_char c d a b n e = n cc

same_char : (c d : ℕ) (a b : List ℕ) → ◌≢◌ {A = List ℕ} (c ∷ []) (c ∷ d ∷ b)
same_char c d a b e = absurd cc

other : Named cmd_b (120 ∷ []) → ⊥
other (inl e) = first_char 98 120 [] [] (λ x. absurd (omega (arith, x))) e
other (inr e) = absurd cc

parse_cmd-Way_example :
    parse_cmd 3 categories 1 (dotted app_str ((120 ∷ []) ∷ (98 ∷ []) ∷ [])) null ≡ run 5 (98 ∷ [])
parse_cmd-Way_example =
    parse_cmd-Way 3 categories 1 5 cmd_b app_str ((120 ∷ []) ∷ (98 ∷ []) ∷ [])
      (descends (tables_at (8 ∷ [])) (tables_at (24 ∷ 16 ∷ [])) app_str (120 ∷ []) ((98 ∷ []) ∷ [])
        (record { cmd_str = app_str; cmd_abbr_str = none; exec_fct = none; next_level = 24 })
        ([], 8, [], refl, tt, ([], [], refl, tt, inl refl)) (λ e. absurd (omega (arith, e)))
        (inl (refl, refl))
        (descends (tables_at (24 ∷ 16 ∷ [])) (table_at 32) (120 ∷ []) (98 ∷ []) []
          (record dir_a { cmd_abbr_str = some (120 ∷ []); next_level = 32 })
          (24 ∷ [], 16, [], refl, ((other, tt), tt), ([], [], refl, tt, inr refl))
          (λ e. absurd (omega (arith, e)))
          (inr (
            inr (
              (
                same_char 97 112 [] (112 ∷ []),
                first_char 97 109 [] (119 ∷ []) (λ x. absurd (omega (arith, x))),
              ),
              refl,
              cmd_b,
              [],
              refl,
              (
                first_char 98 97 [] (112 ∷ 112 ∷ []) (λ x. absurd (omega (arith, x))),
                first_char 98 109 [] (119 ∷ []) (λ x. absurd (omega (arith, x))),
              ),
            )))
          (arrives (table_at 32) (98 ∷ []) ([], [], refl, tt, inl refl))))
      ((refl, (refl, (refl, tt))), ((refl, tt), ((refl, tt), tt))) refl refl (omega arith)

-- The tables 8 and 16 of the category `app`, with the names `b` and `d`; 24 has the name `c`.
abbrev two_slots : Category
two_slots = record {
  slots = λ k. if k == 0 then new_slot 8 1 else new_slot 16 1;
  count = 2;
  first_level = 8;
}

abbrev name_of : ℕ → List ℕ
name_of tbl = if tbl == 8 then 98 ∷ [] else if tbl == 16 then 100 ∷ [] else 99 ∷ []

abbrev no_abbr : ℕ → Option (List ℕ)
no_abbr tbl = none

abbrev in_order : ℕ → ℕ → Bool
in_order a b = (a == 24) && (b == 16)

attach_cmd_tbl-attached_example :
    (c' : Category) × (attach_cmd_tbl in_order name_of no_abbr true cat_app 24 1 two_slots
      ≡ some (cli_ok, c'))
    × Cells c'.slots 0
        (attached in_order cat_app (new_slot 24 1) (new_slot 8 1 ∷ new_slot 16 1 ∷ []))
    × (c'.count ≡ two_slots.count + 1)
attach_cmd_tbl-attached_example =
    attach_cmd_tbl-attached in_order name_of no_abbr cat_app 24 1
      (new_slot 8 1 ∷ new_slot 16 1 ∷ []) two_slots (refl, (refl, tt)) (refl, (refl, tt)) refl
      (omega arith) (refl, (refl, tt))

detach_cmd_tbl-attach_cmd_tbl_example :
    (c1 c2 : Category) × (attach_cmd_tbl in_order name_of no_abbr true cat_app 24 1 two_slots
      ≡ some (cli_ok, c1))
    × (detach_cmd_tbl name_of no_abbr true 24 1 c1 ≡ (cli_ok, c2))
    × Cells c2.slots 0 (new_slot 8 1 ∷ new_slot 16 1 ∷ [])
    × (c2.count ≡ 2)
detach_cmd_tbl-attach_cmd_tbl_example =
    detach_cmd_tbl-attach_cmd_tbl in_order name_of no_abbr cat_app 24 1
      (new_slot 8 1 ∷ new_slot 16 1 ∷ []) two_slots (refl, (refl, tt)) (refl, (refl, tt)) refl
      (omega arith) (refl, (refl, tt))
