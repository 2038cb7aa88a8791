-- ===== src/Cli/Dispatch.antt =====
-- cli/cli_parser.c: `_parse_cmd` on a name with dots.
use multithreading.Prelude.{
  ℕ, zero, suc, ◌<◌, ◌≤◌, Bool, true, false, Option, none, some, List, [], ◌∷◌, ◌++◌, ◌==◌, ltb,
  length, ◌≡◌, ◌≢◌, ◌⊎◌, refl, ap, ◌∙◌, arith, inl, inr, Bool-cases,
}
use multithreading.Cli.Command.{
  CliExec, CmdTables, dot, before_dot, from_dot, tail, Start, Parsed, returned, run, help,
  through_null, out_of_fuel, find, below, execute, execute_at, found, is_category, parse_cmd,
}

length-from_dot : (cs : List ℕ) → length (from_dot cs) ≤ length cs
length-from_dot [] = omega arith
length-from_dot (c ∷ cs) = elim (Bool-cases (c == dot)) [
  | inl p ↦ rw p (omega arith)
  | inr p ↦ rw p (omega (arith, length-from_dot cs))
]

-- Whether the fuel has come to its end.
abbrev over : Parsed → Bool
over out_of_fuel = true
over (returned c) = false
over (run f a) = false
over help = false
over through_null = false

execute_at-over :
    (argc : ℕ) (argv0 : List ℕ) (exec : Option ℕ) (no_next is_cat : Bool) (rest : List ℕ)
    (deeper : Parsed)
    → (rest ≡ []) ⊎ (over deeper ≡ false)
    → over (execute_at argc argv0 exec no_next is_cat rest deeper) ≡ false
execute_at-over argc argv0 none true true rest deeper h = refl
execute_at-over argc argv0 none true false rest deeper h = refl
execute_at-over argc argv0 (some f) true is_cat rest deeper h = refl
execute_at-over argc argv0 (some f) false is_cat [] deeper h = elim (Bool-cases (ltb 1 argc)) [
  | inl p ↦ rw p refl
  | inr p ↦ elim (Bool-cases (argc == 1)) [ inl q ↦ rw (p, q) refl | inr q ↦ rw (p, q) refl ]
]
execute_at-over argc argv0 none false is_cat [] deeper h = elim (Bool-cases (argc == 1)) [
  | inl q ↦ rw q refl
  | inr q ↦ rw q refl
]
execute_at-over argc argv0 exec false is_cat (c ∷ cs) deeper (inl e) =
    absurd (let l = ap length e in omega (arith, l))
execute_at-over argc argv0 (some f) false is_cat (c ∷ cs) deeper (inr e) = e
execute_at-over argc argv0 none false is_cat (c ∷ cs) deeper (inr e) = e

List-cases : {A : Type 0} (xs : List A) → (xs ≡ []) ⊎ ((x : A) × (ys : List A) × (xs ≡ x ∷ ys))
List-cases [] = inl refl
List-cases (x ∷ xs) = inr (x, xs, refl)

shorter_below : (cs ds : List ℕ) (c n : ℕ) → from_dot cs ≡ c ∷ ds → length cs ≤ n → length ds < n
shorter_below cs ds c n e h = let same = ap length e in omega (arith, same, length-from_dot cs)

found-over :
    (o : Option (List CliExec)) (act : CliExec → List CliExec → Parsed)
    → ((e : CliExec) (es : List CliExec) → over (act e es) ≡ false)
    → over (found o act) ≡ false
found-over none act h = refl
found-over (some []) act h = refl
found-over (some (e ∷ es)) act h = h e es

module _ (t : CmdTables) (argc : ℕ) where
  parse_cmd-over :
      (fuel : ℕ) (argv0 : List ℕ) (at : Start)
      → length argv0 < fuel
      → over (parse_cmd fuel t argc argv0 at) ≡ false
  unfolding parse_cmd
  parse_cmd-over zero argv0 at h = absurd (omega arith)
  parse_cmd-over (suc fuel) argv0 at h =
      found-over (find t (before_dot argv0) at)
        (λ e es.
          execute argc argv0 (from_dot argv0) e
            (parse_cmd fuel t argc (tail (from_dot argv0)) (below t e es)))
        (λ e es.
          execute_at-over argc argv0 e.exec_fct (e.next_level == 0) (is_category e) (from_dot argv0)
            (parse_cmd fuel t argc (tail (from_dot argv0)) (below t e es))
            (elim (List-cases (from_dot argv0)) [
              | inl k ↦ inl k
              | inr (c, ds, k) ↦
                  let s = ap (λ xs. length (tail xs)) k in
                  let short = shorter_below argv0 ds c fuel k (omega arith) in
                  inr (
                    parse_cmd-over fuel (tail (from_dot argv0)) (below t e es)
                      (omega (arith, s, short)))
            ]))

-- `_parse_cmd` with fuel for the name comes to its end, whatever the tables, also when they lead
-- back to each other.
pub parse_cmd-ends :
    (fuel : ℕ) (t : CmdTables) (argc : ℕ) (argv0 : List ℕ) (at : Start)
    → length argv0 < fuel
    → parse_cmd fuel t argc argv0 at ≢ out_of_fuel
parse_cmd-ends fuel t argc argv0 at h e =
    ground (arith, ap over e, parse_cmd-over t argc fuel argv0 at h)

-- Names without a dot, and a name of them with dots in between.
abbrev pub NoDot : List ℕ → Type 0
NoDot [] = Unit
NoDot (c ∷ cs) = ((c == dot) ≡ false) × NoDot cs

abbrev pub dotted : List ℕ → List (List ℕ) → List ℕ
dotted s [] = s
dotted s (r ∷ segs) = s ++ dot ∷ dotted r segs

abbrev pub NoDots : List (List ℕ) → Type 0
NoDots [] = Unit
NoDots (s ∷ segs) = NoDot s × NoDots segs

abbrev pub last : List ℕ → List (List ℕ) → List ℕ
last s [] = s
last s (r ∷ segs) = last r segs

-- The tables lead by the names to the element `e`: each but the last is found on the way, and has a
-- next level.
pub data Leads (t : CmdTables) (e : CliExec) : Start → List ℕ → List (List ℕ) → Type 0 where
  here :
      (at : Start) (s : List ℕ) (es : List CliExec)
      → find t s at ≡ some (e ∷ es)
      → Leads t e at s []
  on :
      (at : Start) (s r : List ℕ) (segs : List (List ℕ)) (d : CliExec) (es : List CliExec)
      → find t s at ≡ some (d ∷ es)
      → (d.next_level == 0) ≡ false
      → Leads t e (below t d es) r segs
      → Leads t e at s (r ∷ segs)

before_dot_all : (s : List ℕ) → NoDot s → (before_dot s ≡ s) × (from_dot s ≡ [])
before_dot_all [] n = (refl, refl)
before_dot_all (c ∷ s) (n, m) =
    let (a, b) = before_dot_all s m in (rw n (ap (λ xs. c ∷ xs) a), rw n b)

before_dot-append :
    (s cs : List ℕ)
    → NoDot s
    → (before_dot (s ++ dot ∷ cs) ≡ s) × (from_dot (s ++ dot ∷ cs) ≡ dot ∷ cs)
before_dot-append [] cs n = (refl, refl)
before_dot-append (c ∷ s) cs (n, m) =
    let (a, b) = before_dot-append s cs m in (rw n (ap (λ xs. c ∷ xs) a), rw n b)

leaf_runs :
    (argc f : ℕ) (argv0 rest : List ℕ) (e : CliExec) (deeper : Parsed)
    → e.exec_fct ≡ some f
    → (e.next_level == 0) ≡ true
    → execute argc argv0 rest e deeper ≡ run f argv0
leaf_runs argc f argv0 rest e deeper g leaf =
    ap (λ x. execute_at argc argv0 x (e.next_level == 0) (is_category e) rest deeper) g
    ∙ ap (λ b. execute_at argc argv0 (some f) b (is_category e) rest deeper) leaf

deeper_at :
    (argc c : ℕ) (argv0 cs : List ℕ) (exec : Option ℕ) (is_cat : Bool) (deeper : Parsed)
    → execute_at argc argv0 exec false is_cat (c ∷ cs) deeper ≡ deeper
deeper_at argc c argv0 cs none is_cat deeper = refl
deeper_at argc c argv0 cs (some f) is_cat deeper = refl

goes_deeper :
    (argc c : ℕ) (argv0 cs : List ℕ) (d : CliExec) (deeper : Parsed)
    → (d.next_level == 0) ≡ false
    → execute argc argv0 (c ∷ cs) d deeper ≡ deeper
goes_deeper argc c argv0 cs d deeper more =
    ap (λ b. execute_at argc argv0 d.exec_fct b (is_category d) (c ∷ cs) deeper) more
    ∙ deeper_at argc c argv0 cs d.exec_fct (is_category d) deeper

-- `_parse_cmd`, with fuel for the names, of names with dots in between that lead to an element with a
-- function and no next level calls this function, with the last name as `argv[0]`.
pub parse_cmd-Leads :
    (fuel : ℕ) (t : CmdTables) (argc f : ℕ) (e : CliExec) (at : Start) (s : List ℕ)
    (segs : List (List ℕ))
    → Leads t e at s segs
    → NoDots (s ∷ segs)
    → e.exec_fct ≡ some f
    → (e.next_level == 0) ≡ true
    → length segs < fuel
    → parse_cmd fuel t argc (dotted s segs) at ≡ run f (last s segs)
unfolding parse_cmd
parse_cmd-Leads zero t argc f e at s segs leads n g leaf h = absurd (omega arith)
parse_cmd-Leads (suc fuel) t argc f e at s [] (here _ _ es p) (n, m) g leaf h =
    let (b, r) = before_dot_all s n in
    let act = λ (e' : CliExec) (es' : List CliExec).
      execute argc s (from_dot s) e' (parse_cmd fuel t argc (tail (from_dot s)) (below t e' es')) in
    ap (λ o. found o act) (ap (λ x. find t x at) b ∙ p) ∙ leaf_runs argc f s (from_dot s) e _ g leaf
parse_cmd-Leads (suc fuel) t argc f e at s (r ∷ segs) (on _ _ _ _ d es p more leads) (n, m) g leaf
      h =
    let name = dotted s (r ∷ segs) in
    let (b, k) = before_dot-append s (dotted r segs) n in
    let act = λ (e' : CliExec) (es' : List CliExec).
      execute argc name (from_dot name) e'
        (parse_cmd fuel t argc (tail (from_dot name)) (below t e' es')) in
    ap (λ o. found o act) (ap (λ x. find t x at) b ∙ p)
    ∙ ap (λ x. execute argc name x d (parse_cmd fuel t argc (tail x) (below t d es))) k
    ∙ goes_deeper argc dot name (dotted r segs) d
        (parse_cmd fuel t argc (dotted r segs) (below t d es)) more
    ∙ parse_cmd-Leads fuel t argc f e (below t d es) r segs leads m g leaf (omega arith)
