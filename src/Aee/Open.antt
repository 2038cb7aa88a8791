-- ===== src/Aee/Open.antt =====
-- am/aee/aee.c: handles of environments, from `aee_create_op` to `aee_clean_up`.
use multithreading.Prelude.{
  ℕ, ◌<◌, true, Option, none, some, List, ◌==◌, ◌&&◌, not, ◌≡◌, ◌≢◌, ◌⊎◌, Option-cases, refl, sym,
  ap, ◌∙◌, if◌then◌else◌, length, has, inl, inr, Bool-cases, eq→==, ne→==, take,
}
use multithreading.Ring.Insert.{place}
use multithreading.MsgQ.Names.{same_string}
use multithreading.Aee.{
  Aeer, Aee, Aees, Object, ok, fail, inv_handle, out_of_handles, set_aee, set_object, orphan,
  is_valid, free_primary, aee_get_handle_op, aee_send_data_op, aee_find_by_name,
}
use multithreading.Aee.Calls.{AppDesc, new_aee, create_failed, aee_create_op}
use multithreading.Aee.Line.{Line}
use multithreading.Aee.Listed.{Listed, aee_find_by_name-place, aee_clean_relationships-orphan}

abbrev pub Autofree : Type 0
Autofree = (h_aux : ℕ) → (ℕ → Option Object) → ℕ → Option Object

abbrev pub named : List ℕ → Aees → List ℕ → ℕ
named name s xs = place (λ k. same_string (s.aees k).s_name name) xs 0

found :
    (fuel h : ℕ) (name : List ℕ) (s : Aees) (p : ℕ)
    → aee_find_by_name fuel name s ≡ some p
    → p ≢ 0
    → aee_get_handle_op fuel (some h) name s
      ≡ some (ok, set_object h (some (record { is_aee = true; pv_obj = p })) s)
unfolding aee_get_handle_op
found fuel h name s p e n = rw (aee_get_handle_op, e, ne→== p 0 n) refl

reached :
    (h t : ℕ) (s : Aees)
    → aee_send_data_op h (set_object h (some (record { is_aee = true; pv_obj = t })) s)
      ≡ (ok, some (s.aees t).pf_receive_data)
unfolding aee_send_data_op
reached h t s = rw (aee_send_data_op, eq→== h h refl) refl

elsewhere :
    (h k t : ℕ) (s : Aees)
    → k ≢ h
    → aee_send_data_op k (set_object h (some (record { is_aee = true; pv_obj = t })) s)
      ≡ aee_send_data_op k s
unfolding aee_send_data_op
elsewhere h k t s n = rw (aee_send_data_op, ne→== h k (λ e. n (sym e))) refl

-- A handle by name: with a new handle and fuel for the list, the name of an environment of the list gives
-- AEER_OK, the data that is sent to the handle goes to the first environment of the list with the name,
-- and data for another handle goes where it went before.
pub aee_send_data_op-aee_get_handle_op :
    (fuel h k : ℕ) (name : List ℕ) (s : Aees) (xs : List ℕ)
    → Listed s xs
    → named name s xs ≢ 0
    → length xs < fuel
    → k ≢ h
    → (s' : Aees) × (aee_get_handle_op fuel (some h) name s ≡ some (ok, s'))
      × (aee_send_data_op h s' ≡ (ok, some (s.aees (named name s xs)).pf_receive_data))
      × (aee_send_data_op k s' ≡ aee_send_data_op k s)
aee_send_data_op-aee_get_handle_op fuel h k name s xs i n b other =
    let t = named name s xs in
    (
      set_object h (some (record { is_aee = true; pv_obj = t })) s,
      found fuel h name s t (aee_find_by_name-place fuel name s xs i b) n,
      reached h t s,
      elsewhere h k t s other,
    )

-- What the end of an application leaves of an environment: with a valid handle and a parent, the environments
-- of the list whose parent it was have none.
abbrev pub left_by : (h t : ℕ) → List ℕ → Aees → ℕ → Aee
left_by h t xs s k =
    if is_valid (s.objects h) && not ((s.aees t).h_parent_app == 0) && has k xs
    then orphan h (s.aees k)
    else s.aees k

-- A primary handle is freed, or it is not valid.
free_primary-Listed :
    (autofree : Autofree) (fuel h t : ℕ) (s : Aees) (xs : List ℕ)
    → Listed s xs
    → length xs < fuel
    → (s' : Aees) × (free_primary autofree fuel h t s ≡ some s')
      × Listed s' xs
      × (s'.objects h ≡ none)
      × ((k : ℕ) → s'.aees k ≡ left_by h t xs s k)
unfolding free_primary
free_primary-Listed autofree fuel h t s xs i b = elim (Option-cases (s.objects h)) [
  | inl gone ↦ (s, rw (free_primary, gone) refl, i, gone, λ k. rw gone refl)
  | inr (o, e) ↦
      let s1 = record s { objects = autofree (s.aees t).h_aux s.objects } in
      let (s', run, listed, links, objects, all) =
        aee_clean_relationships-orphan fuel h t s1 xs
          (record { line = i.line; distinct = i.distinct }) b in
      (
        set_object h none s',
        rw (free_primary, e, run) refl,
        record { line = listed.line; distinct = listed.distinct },
        rw (eq→== h h refl) refl,
        λ k. all k ∙ rw e refl,
      )
]

abbrev answer : Aeer → ℕ → Aeer × Option ℕ
answer c f = (c, some f)

same_fct :
    (f t : ℕ) (s : Aees) (a : Aee)
    → a.pf_receive_data ≡ f
    → ((set_aee t a s).aees t).pf_receive_data ≡ f
same_fct f t s a e = rw (eq→== t t refl) e

-- The result of `aee_create_op` with memory for the environment at `t` and the new handle `h`.
abbrev pub Outcome : (h t : ℕ) → AppDesc → List ℕ → Aees → Aeer → Type 0
Outcome h t d name s c =
    ((c ≡ ok)
      × (aee_send_data_op h s ≡ (ok, some d.pf_receive_data))
      × ((s.aees t).s_name ≡ take 16 name)
      × ((s.aees t).h_app ≡ h))
    ⊎ ((c ≢ ok) × (aee_send_data_op h s ≡ (inv_handle, none)))

refused : (h : ℕ) (s : Aees) → s.objects h ≡ none → aee_send_data_op h s ≡ (inv_handle, none)
unfolding aee_send_data_op
refused h s e = rw (aee_send_data_op, e) refl

given_back :
    (autofree : Autofree) (fuel h t : ℕ) (c : Aeer) (d : AppDesc) (name : List ℕ) (s : Aees)
    (xs : List ℕ)
    → Listed s xs
    → length xs < fuel
    → c ≢ ok
    → (r : Aeer × Aees) × (create_failed autofree fuel c h t s ≡ some r)
      × Listed r.1 xs
      × Outcome h t d name r.1 r.0
unfolding create_failed
given_back autofree fuel h t c d name s xs i b n =
    let (s', run, listed, gone, all) = free_primary-Listed autofree fuel h t s xs i b in
    ((c, s'), rw (create_failed, run) refl, listed, inr (n, refused h s' gone))

module _ (autofree : Autofree) (fuel h t parent : ℕ) (d : AppDesc) (name : List ℕ) (s : Aees)
    (xs : List ℕ) (i : Listed s xs) (b : length xs < fuel) where
  -- Whatever the other calls give, `aee_create_op` with memory and a handle returns, with fuel for the
  -- list, and leaves the list as it is. With AEER_OK the new environment has the name, cut to 16
  -- characters, and the handle, and data for the handle goes to its function; with another code the handle
  -- names nothing.
  pub aee_create_op-Outcome :
      (aux thread : Option ℕ)
      → (r : Aeer × Aees) × (aee_create_op autofree fuel
            (some t)
            (some h)
            aux
            thread
            parent
            d
            name
            s
          ≡ some r)
        × Listed r.1 xs
        × Outcome h t d name r.1 r.0
  unfolding aee_create_op
  aee_create_op-Outcome none thread =
      given_back autofree fuel h t out_of_handles d name
        (set_object h (some (record { is_aee = true; pv_obj = t })) (set_aee t (new_aee d name) s))
        xs (record { line = i.line; distinct = i.distinct }) b (λ e. absurd cc)
  aee_create_op-Outcome (some x) thread =
      let a = record (new_aee d name) { h_aux = x; h_app = h } in
      elim (Bool-cases d.pv_arg_ok) [
        | inr e ↦
            rw (aee_create_op, e)
              (given_back autofree fuel h t fail d name
                (set_object h (some (record { is_aee = true; pv_obj = t })) (set_aee t a s)) xs
                (record { line = i.line; distinct = i.distinct }) b (λ z. absurd cc))
        | inl e ↦ elim (Option-cases thread) [
          | inl f ↦
              rw (aee_create_op, e, f)
                (given_back autofree fuel h t fail d name
                  (set_object h (some (record { is_aee = true; pv_obj = t }))
                    (set_aee t (record a { h_parent_app = parent }) s))
                  xs (record { line = i.line; distinct = i.distinct }) b (λ z. absurd cc))
          | inr (th, f) ↦
              let s' =
                set_object h (some (record { is_aee = true; pv_obj = t }))
                  (set_aee t (record a { h_parent_app = parent; h_thread = th }) s) in
              (
                (ok, s'),
                rw (aee_create_op, e, f) refl,
                record { line = i.line; distinct = i.distinct },
                inl (
                  refl,
                  reached h t (set_aee t (record a { h_parent_app = parent; h_thread = th }) s)
                      ∙ ap (answer ok) (
                          same_fct d.pf_receive_data t s
                            (record a { h_parent_app = parent; h_thread = th }) refl),
                  rw (eq→== t t refl) refl,
                  rw (eq→== t t refl) refl,
                ),
              )
        ]
      ]
