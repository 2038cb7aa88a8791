-- ===== src/Cli/Levels.antt =====
-- cli/cli_parser.c: the command that a name with dots means, told from the tables alone, and `_parse_cmd`.
use multithreading.Prelude.{
  ℕ, ◌<◌, true, false, some, List, [], ◌∷◌, ◌++◌, length, ◌≡◌, ◌≢◌, ◌⊎◌, inl, inr, refl, sym, ap,
  ◌∙◌, subst, arith, Bool-cases, ne→==, eq→==, Option-cases,
}
use multithreading.Cli.Command.{
  CliExec, CmdTables, app_str, mw_str, strcmp_zero, named_by, search_tbl, is_category, category,
  or_else, search_array, Start, null, from, run, find, below, parse_cmd,
}
use multithreading.Cli.Dispatch.{Leads, here, on, NoDots, dotted, last, parse_cmd-Leads}

-- An element has a name: its own one, or its abbreviation.
abbrev pub Named : CliExec → List ℕ → Type 0
Named e s = (e.cmd_str ≡ s) ⊎ (e.cmd_abbr_str ≡ some s)

abbrev pub Unnamed : List ℕ → List CliExec → Type 0
Unnamed s [] = Unit
Unnamed s (d ∷ ds) = (Named d s → ⊥) × Unnamed s ds

-- The first element of a table with a name.
abbrev pub FirstOf : List ℕ → List CliExec → CliExec → Type 0
FirstOf s xs e =
    (before : List CliExec) × (after : List CliExec) × (xs ≡ before ++ e ∷ after)
    × Unnamed s before
    × Named e s

abbrev pub UnnamedIn : CmdTables → List ℕ → List ℕ → Type 0
UnnamedIn t s [] = Unit
UnnamedIn t s (a ∷ tables) = Unnamed s (t.table a) × UnnamedIn t s tables

-- What a name is looked up in: all tables of a category, or the table at an address.
pub data View : Type 0 where
  tables_at : List ℕ → View
  table_at : ℕ → View

-- The element that a name means there, the first one of the first table that has it.
abbrev pub Means : CmdTables → View → List ℕ → CliExec → Type 0
Means t (table_at a) s e = FirstOf s (t.table a) e
Means t (tables_at tables) s e =
    (before : List ℕ) × (a : ℕ) × (after : List ℕ) × (tables ≡ before ++ a ∷ after)
    × UnnamedIn t s before
    × FirstOf s (t.table a) e

-- No category has the name of the element.
abbrev pub Plain : CliExec → Type 0
Plain e = (e.cmd_str ≢ app_str) × (e.cmd_str ≢ mw_str)

-- What the name behind an element is looked up in: the tables of the category that has its name, or its next
-- level, a table that does not begin with the name of a category.
abbrev pub Next : CmdTables → CliExec → View → Type 0
Next t d v =
    ((d.cmd_str ≡ app_str) × (v ≡ tables_at t.app))
    ⊎ (((d.cmd_str ≡ mw_str) × (v ≡ tables_at t.mw))
        ⊎ (Plain d
            × (v ≡ table_at d.next_level)
            × (x : CliExec) × (xs : List CliExec) × (t.table d.next_level ≡ x ∷ xs)
            × Plain x))

-- The names lead to an element: each but the last means one with a next level on the way.
pub data Way (t : CmdTables) (e : CliExec) : View → List ℕ → List (List ℕ) → Type 0 where
  arrives : (v : View) (s : List ℕ) → Means t v s e → Way t e v s []
  descends :
      (v v' : View) (s r : List ℕ) (segs : List (List ℕ)) (d : CliExec)
      → Means t v s d
      → d.next_level ≢ 0
      → Next t d v'
      → Way t e v' r segs
      → Way t e v s (r ∷ segs)

strcmp_same : (a : List ℕ) → strcmp_zero a a ≡ true
strcmp_same [] = refl
strcmp_same (c ∷ a) = ground (arith, strcmp_same a)

strcmp_zero-eq : (a b : List ℕ) → strcmp_zero a b ≡ true → a ≡ b
strcmp_zero-eq [] [] e = refl
strcmp_zero-eq [] (d ∷ b) e = absurd cc
strcmp_zero-eq (c ∷ a) [] e = absurd cc
strcmp_zero-eq (c ∷ a) (d ∷ b) e =
    let head : c ≡ d = ground (arith, e) in
    let rest : strcmp_zero a b ≡ true = ground (arith, e) in
    ap (λ x. x ∷ a) head ∙ ap (λ xs. d ∷ xs) (strcmp_zero-eq a b rest)

strcmp_zero-yes : (a b : List ℕ) → a ≡ b → strcmp_zero a b ≡ true
strcmp_zero-yes a b e = subst (λ x. strcmp_zero a x ≡ true) e (strcmp_same a)

strcmp_zero-no : (a b : List ℕ) → a ≢ b → strcmp_zero a b ≡ false
strcmp_zero-no a b n = elim (Bool-cases (strcmp_zero a b)) [
  | inl p ↦ absurd (n (strcmp_zero-eq a b p))
  | inr p ↦ p
]

named_by-yes : (e : CliExec) (s : List ℕ) → Named e s → named_by e s ≡ true
named_by-yes e s (inl p) = rw (strcmp_zero-yes e.cmd_str s p) refl
named_by-yes e s (inr p) = rw p (elim (Bool-cases (strcmp_zero e.cmd_str s)) [
  | inl q ↦ rw q refl
  | inr q ↦ rw (q, strcmp_same s) refl
])

named_by-no : (e : CliExec) (s : List ℕ) → (Named e s → ⊥) → named_by e s ≡ false
named_by-no e s n =
    rw (strcmp_zero-no e.cmd_str s (λ x. n (inl x))) (elim (Option-cases e.cmd_abbr_str) [
      | inl p ↦ rw p refl
      | inr (a, p) ↦ rw p (strcmp_zero-no a s (λ x. n (inr (p ∙ ap some x))))
    ])

search_tbl-skips :
    (s : List ℕ) (before xs : List CliExec)
    → Unnamed s before
    → search_tbl s (before ++ xs) ≡ search_tbl s xs
search_tbl-skips s [] xs u = refl
search_tbl-skips s (d ∷ before) xs (n, u) = rw (named_by-no d s n) (search_tbl-skips s before xs u)

search_tbl-none : (s : List ℕ) (xs : List CliExec) → Unnamed s xs → search_tbl s xs ≡ []
search_tbl-none s [] u = refl
search_tbl-none s (d ∷ xs) (n, u) = rw (named_by-no d s n) (search_tbl-none s xs u)

search_tbl-FirstOf :
    (s : List ℕ) (xs : List CliExec) (e : CliExec)
    → FirstOf s xs e
    → (es : List CliExec) × (search_tbl s xs ≡ e ∷ es)
search_tbl-FirstOf s xs e (before, after, split, u, n) = (
  after,
  ap (search_tbl s) split ∙ search_tbl-skips s before (e ∷ after) u ∙ rw (named_by-yes e s n) refl,
)

search_array-skips :
    (t : CmdTables) (s before tables : List ℕ)
    → UnnamedIn t s before
    → search_array t s (before ++ tables) ≡ search_array t s tables
search_array-skips t s [] tables u = refl
search_array-skips t s (a ∷ before) tables (n, u) =
    ap (λ xs. or_else xs (search_array t s (before ++ tables))) (search_tbl-none s (t.table a) n)
    ∙ search_array-skips t s before tables u

search_array-Means :
    (t : CmdTables) (s tables : List ℕ) (e : CliExec)
    → Means t (tables_at tables) s e
    → (es : List CliExec) × (search_array t s tables ≡ e ∷ es)
search_array-Means t s tables e (before, a, after, split, u, f) =
    let (es, hit) = search_tbl-FirstOf s (t.table a) e f in
    (
      es,
      ap (search_array t s) split
          ∙ search_array-skips t s before (a ∷ after) u
          ∙ ap (λ xs. or_else xs (search_array t s after)) hit,
    )

-- The pointer with which `_parse_cmd` looks a name up in a view.
abbrev At : CmdTables → View → Start → Type 0
At t v null = v ≡ tables_at t.root
At t v (from []) = ⊥
At t v (from (x ∷ xs)) =
    ((x.cmd_str ≡ app_str) × (v ≡ tables_at t.app))
    ⊎ (((x.cmd_str ≡ mw_str) × (v ≡ tables_at t.mw))
        ⊎ (Plain x × (a : ℕ) × (v ≡ table_at a) × (t.table a ≡ x ∷ xs)))

plain : (x : CliExec) → Plain x → is_category x ≡ false
plain x (a, b) = rw (strcmp_zero-no x.cmd_str app_str a, strcmp_zero-no x.cmd_str mw_str b) refl

app_category :
    (t : CmdTables) (x : CliExec)
    → x.cmd_str ≡ app_str
    → (is_category x ≡ true) × (category t x ≡ t.app)
app_category t x e = rw e (refl, refl)

mw_category :
    (t : CmdTables) (x : CliExec)
    → x.cmd_str ≡ mw_str
    → (is_category x ≡ true) × (category t x ≡ t.mw)
mw_category t x e = rw e (refl, refl)

in_category :
    (t : CmdTables) (s tables : List ℕ) (e x : CliExec) (xs : List CliExec)
    → is_category x ≡ true
    → category t x ≡ tables
    → Means t (tables_at tables) s e
    → (es : List CliExec) × (find t s (from (x ∷ xs)) ≡ some (e ∷ es))
in_category t s tables e x xs c k m =
    let (es, hit) = search_array-Means t s tables e m in
    (es, rw c (ap some (ap (search_array t s) k ∙ hit)))

find-Means :
    (t : CmdTables) (v : View) (s : List ℕ) (e : CliExec) (at : Start)
    → At t v at
    → Means t v s e
    → (es : List CliExec) × (find t s at ≡ some (e ∷ es))
find-Means t v s e null p m =
    let (es, hit) = search_array-Means t s t.root e (subst (λ w. Means t w s e) p m) in
    (es, ap some hit)
find-Means t v s e (from []) p m = absurd p
find-Means t v s e (from (x ∷ xs)) (inl (c, p)) m =
    let (k, l) = app_category t x c in
    in_category t s t.app e x xs k l (subst (λ w. Means t w s e) p m)
find-Means t v s e (from (x ∷ xs)) (inr (inl (c, p))) m =
    let (k, l) = mw_category t x c in
    in_category t s t.mw e x xs k l (subst (λ w. Means t w s e) p m)
find-Means t v s e (from (x ∷ xs)) (inr (inr (c, a, p, q))) m =
    let (es, hit) = search_tbl-FirstOf s (t.table a) e (subst (λ w. Means t w s e) p m) in
    (es, rw (plain x c) (ap some (ap (search_tbl s) (sym q) ∙ hit)))

below-Next :
    (t : CmdTables) (d : CliExec) (es : List CliExec) (v : View)
    → Next t d v
    → At t v (below t d es)
below-Next t d es v (inl (c, p)) = rw (app_category t d c).0 (inl (c, p))
below-Next t d es v (inr (inl (c, p))) = rw (mw_category t d c).0 (inr (inl (c, p)))
below-Next t d es v (inr (inr (c, p, x, xs, q, o))) =
    rw (plain d c) (subst (λ ys. At t v (from ys)) (sym q) (inr (inr (o, d.next_level, p, q))))

Way-Leads :
    (t : CmdTables) (e : CliExec) (v : View) (s : List ℕ) (segs : List (List ℕ)) (at : Start)
    → At t v at
    → Way t e v s segs
    → Leads t e at s segs
Way-Leads t e v s segs at p (arrives _ _ m) =
    let (es, hit) = find-Means t v s e at p m in here at s es hit
Way-Leads t e v s segs at p (descends _ v' _ r rest d m more n w) =
    let (es, hit) = find-Means t v s d at p m in
    on at s r rest d es hit (ne→== d.next_level 0 more)
      (Way-Leads t e v' r rest (below t d es) (below-Next t d es v' n) w)

-- From the root tables on, a name may be that of an element or its abbreviation; the first element of the
-- first table that has it counts. Behind an element named `app` or `mw` the next name is looked up in the
-- tables of this category, behind any other one in the table of its next level, which does not begin with
-- such an element. Where names without dots lead in this way to an element with a function and no next level,
-- `_parse_cmd` of the names with dots in between, with fuel for them, calls this function, with the last
-- name as `argv[0]`.
pub parse_cmd-Way :
    (fuel : ℕ) (t : CmdTables) (argc f : ℕ) (e : CliExec) (s : List ℕ) (segs : List (List ℕ))
    → Way t e (tables_at t.root) s segs
    → NoDots (s ∷ segs)
    → e.exec_fct ≡ some f
    → e.next_level ≡ 0
    → length segs < fuel
    → parse_cmd fuel t argc (dotted s segs) null ≡ run f (last s segs)
parse_cmd-Way fuel t argc f e s segs w n g leaf h =
    parse_cmd-Leads fuel t argc f e null s segs
      (Way-Leads t e (tables_at t.root) s segs null refl w) n g (eq→== e.next_level 0 leaf) h
