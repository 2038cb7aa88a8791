-- ===== src/Aee/Listed.antt =====
-- am/aee/aee.c: the list of the environments.
use multithreading.Prelude.{
  ℕ, zero, suc, ◌<◌, false, some, List, [], ◌∷◌, ◌==◌, ◌&&◌, not, ◌≡◌, refl, sym, ap, ◌∙◌, subst,
  if◌then◌else◌, length, has, erase, Distinct, arith, inl, inr, Bool-cases, eq→==, ne→==, has-apart,
  has-erase, Distinct-erase,
}
use multithreading.Ring.{store}
use multithreading.Ring.Insert.{place}
use multithreading.MsgQ.Names.{same_string}
use multithreading.Aee.{
  Aees, set_aee, aee_add, with_links, aee_remove, aee_find_by_name, orphan, clean_loop,
  aee_clean_relationships,
}
use multithreading.Aee.Line.{Line, Line-frame, walk-place, remove_loop-Line}

-- The list holds the environments `xs`.
pub record Listed (s : Aees) (xs : List ℕ) : Type 0 where
  pub line : Line s.pt_next (s.pt_next 0) xs
  pub distinct : Distinct (0 ∷ xs)

behind : (next : ℕ → ℕ) (t : ℕ) → (0 == t) ≡ false → store (store next t (next 0)) 0 t t ≡ next 0
behind next t e = rw (e, eq→== t t refl) refl

unmoved :
    (next : ℕ → ℕ) (t k : ℕ)
    → (0 == k) ≡ false
    → (t == k) ≡ false
    → store (store next t (next 0)) 0 t k ≡ next k
unmoved next t k e f = rw (e, f) refl

pub aee_add-Listed :
    (t : ℕ) (s : Aees) (xs : List ℕ)
    → Listed s xs
    → has t (0 ∷ xs) ≡ false
    → Listed (aee_add t s) (t ∷ xs)
unfolding aee_add
aee_add-Listed t s xs i n =
    let (m, d) = i.distinct in
    let next = store (store s.pt_next t (s.pt_next 0)) 0 t in
    let other : (0 == t) ≡ false = ground arith in
    record {
      line = (
        refl,
        ground arith,
        subst (λ k. Line next k xs) (sym (behind s.pt_next t other))
            (Line-frame s.pt_next next (s.pt_next 0) xs
              (λ k j.
                unmoved s.pt_next t k (ne→== 0 k (λ z. has-apart k 0 xs j m (sym z)))
                  (ne→== t k (λ z. has-apart k t xs j (ground arith) (sym z))))
              i.line),
      );
      distinct = (ground arith, (ground arith, d));
    }

pub aee_remove-Listed :
    (fuel t : ℕ) (s : Aees) (xs : List ℕ)
    → Listed s xs
    → length xs < fuel
    → (s' : Aees) × (aee_remove fuel t s ≡ some s')
      × Listed s' (erase t xs)
      × (s'.aees ≡ s.aees)
      × (s'.objects ≡ s.objects)
unfolding aee_remove
aee_remove-Listed fuel t s xs i b =
    let (next, run, line, frame) = remove_loop-Line fuel 0 t s.pt_next xs i.line i.distinct b in
    let (m, d) = i.distinct in
    (
      record s { pt_next = next },
      ap (with_links s) run,
      record { line = line; distinct = (has-erase 0 t xs m, Distinct-erase t xs d) },
      refl,
      refl,
    )

-- The search finds the first environment with the name, with fuel for the list.
pub aee_find_by_name-place :
    (fuel : ℕ) (name : List ℕ) (s : Aees) (xs : List ℕ)
    → Listed s xs
    → length xs < fuel
    → aee_find_by_name fuel name s ≡ some (place (λ k. same_string (s.aees k).s_name name) xs 0)
unfolding aee_find_by_name
aee_find_by_name-place fuel name s xs i b =
    walk-place (λ k. same_string (s.aees k).s_name name) s.pt_next fuel (s.pt_next 0) xs i.line b

-- The environment that the loop has just left.
one_more :
    (h k x : ℕ) (xs : List ℕ) (s : Aees)
    → has x xs ≡ false
    → (if has k xs
        then orphan h ((set_aee x (orphan h (s.aees x)) s).aees k)
        else (set_aee x (orphan h (s.aees x)) s).aees k)
      ≡ (if has k (x ∷ xs) then orphan h (s.aees k) else s.aees k)
one_more h k x xs s m = elim (Bool-cases (x == k)) [
  | inl e ↦
      let same : x ≡ k = ground arith in
      let gone : has k xs ≡ false = subst (λ j. has j xs ≡ false) same m in
      rw (e, gone) (ap (λ j. orphan h (s.aees j)) same)
  | inr e ↦ rw e refl
]

-- What the loop leaves of each environment.
clean_loop-orphan :
    (fuel h p : ℕ) (s : Aees) (xs : List ℕ)
    → Line s.pt_next p xs
    → Distinct xs
    → length xs < fuel
    → (s' : Aees) × (clean_loop fuel h p s ≡ some s')
      × (s'.pt_next ≡ s.pt_next)
      × (s'.objects ≡ s.objects)
      × ((k : ℕ) → s'.aees k ≡ (if has k xs then orphan h (s.aees k) else s.aees k))
unfolding clean_loop
clean_loop-orphan zero h p s xs l d b = absurd (omega arith)
clean_loop-orphan (suc fuel) h p s [] l d b = (s, rw (eq→== p 0 l) refl, refl, refl, λ k. refl)
clean_loop-orphan (suc fuel) h p s (x ∷ xs) (e, n, l) (m, d) b =
    let some_object : (p == 0) ≡ false = ne→== p 0 (λ z. n (sym e ∙ z)) in
    let s1 = set_aee x (orphan h (s.aees x)) s in
    let (s', run, links, objects, all) =
      clean_loop-orphan fuel h (s.pt_next x) s1 xs l d (omega arith) in
    (
      s',
      rw (clean_loop, some_object)
          (ap (λ k. clean_loop fuel h (s.pt_next k) (set_aee k (orphan h (s.aees k)) s)) e ∙ run),
      links,
      objects,
      λ k. all k ∙ one_more h k x xs s m,
    )

-- `aee_clean_relationships`, with fuel for the list: when the environment that ends has a parent, every
-- environment of the list that names it as its parent has none any longer; when it has no parent itself,
-- nothing changes.
pub aee_clean_relationships-orphan :
    (fuel h t : ℕ) (s : Aees) (xs : List ℕ)
    → Listed s xs
    → length xs < fuel
    → (s' : Aees) × (aee_clean_relationships fuel h t s ≡ some s')
      × Listed s' xs
      × (s'.pt_next ≡ s.pt_next)
      × (s'.objects ≡ s.objects)
      × ((k : ℕ)
          → s'.aees k ≡ (
              if not ((s.aees t).h_parent_app == 0) && has k xs
              then orphan h (s.aees k)
              else s.aees k))
unfolding aee_clean_relationships
aee_clean_relationships-orphan fuel h t s xs i b =
    elim (Bool-cases ((s.aees t).h_parent_app == 0)) [
      | inl e ↦ (s, rw e refl, i, refl, refl, λ k. rw e refl)
      | inr e ↦
          let (s', run, links, objects, all) =
            clean_loop-orphan fuel h (s.pt_next 0) s xs i.line i.distinct.1 b in
          (
            s',
            rw e run,
            record {
              line = subst (λ n. Line n (n 0) xs) (sym links) i.line;
              distinct = i.distinct;
            },
            links,
            objects,
            λ k. rw e (all k),
          )
    ]
