-- ===== src/Am/Lifecycle.antt =====
-- am/am.c: an application is started, gets messages and ends.
use multithreading.Prelude.{
  ℕ, zero, suc, ◌+◌, ◌<◌, Bool, true, false, Option, none, some, List, ◌==◌, ◌&&◌, not, ◌≡◌, ◌≢◌,
  refl, sym, ap, ◌∙◌, arith, inl, inr, Option-cases, eq→==, ne→==, ℕ_discrete,
}
use multithreading.MsgQ.Names.{same_string}
use multithreading.Am.{
  Aeer, Post, Am, Reg, Desc, Dispatch, ok, fail, not_authorized, already_started,
}
use multithreading.Am.Retry.{retry_times, send_retry, delay}
use multithreading.Am.Apps.{
  Msg, amr_of, app_mngr, Start, start_desc, find_app, has_name, is_running, set_handle, after_start,
  am_start_app, exit_retry, after_exit, am_exit_app, am_dispatch_msg,
}
use multithreading.Am.Table.{Table, find_app_only, find_app-none, only_name, set_handle-Table}

not_first : (a b : Bool) → b ≡ false → (a && b) ≡ false
not_first true b e = e
not_first false b e = refl

module _ (n : List ℕ) (a : Am) (t : Table a) where
  -- The place of the name.
  found_name :
      (i : ℕ)
      → i < a.ui4_app_id
      → has_name n a i ≡ true
      → find_app (has_name n a) a.ui4_app_id 0 ≡ some i
  found_name i b e =
      find_app_only (has_name n a) a.ui4_app_id 0 i (omega arith) (omega arith) e
        (λ j c d. only_name n a i j t b (omega arith) (λ x. absurd (omega (arith, x))) e)

  found_running :
      (i : ℕ)
      → i < a.ui4_app_id
      → has_name n a i ≡ true
      → a.ah_app i ≢ 0
      → find_app (is_running n a) a.ui4_app_id 0 ≡ some i
  found_running i b e h =
      let up = ne→== (a.ah_app i) 0 h in
      find_app_only (is_running n a) a.ui4_app_id 0 i (omega arith) (omega arith)
        (ap (λ z. not z && has_name n a i) up ∙ e)
        (λ j c d.
          not_first (not (a.ah_app j == 0)) (has_name n a j)
            (only_name n a i j t b (omega arith) (λ x. absurd (omega (arith, x))) e))

-- A message for the running application goes to its handle, in at most 11 tries.
abbrev pub to_handle : (answer : ℕ → Aeer) (h : ℕ) → Dispatch → Post Msg → Aeer × Post Msg
to_handle answer h m p =
    send_retry answer false (suc retry_times) none
      (record { to = h; body = record { ui4_type = m.ui4_type; bytes = m.uc_msg } }) p

dispatch_at :
    (answer : ℕ → Aeer) (m : Dispatch) (a : Am) (t : Table a) (i : ℕ) (p : Post Msg)
    → i < a.ui4_app_id
    → has_name m.ps_name a i ≡ true
    → a.ah_app i ≢ 0
    → same_string m.ps_name app_mngr ≡ false
    → am_dispatch_msg answer m a p
      ≡ (amr_of (to_handle answer (a.ah_app i) m p).0, (to_handle answer (a.ah_app i) m p).1)
unfolding am_dispatch_msg
dispatch_at answer m a t i p b e h o = rw (o, found_running m.ps_name a t i b e h) refl

exit_at :
    (answer : ℕ → Aeer) (n : List ℕ) (a : Am) (t : Table a) (i : ℕ) (p : Post Msg)
    → i < a.ui4_app_id
    → has_name n a i ≡ true
    → a.ah_app i ≢ 0
    → am_exit_app answer n a p ≡ after_exit i a (exit_retry answer (suc retry_times) none p)
unfolding am_exit_app
exit_at answer n a t i p b e h = rw (am_exit_app, found_running n a t i b e h) refl

-- One of the calls is answered with AEER_OK.
exit_none :
    (answer : ℕ → Aeer) (left j : ℕ) (i : Aeer) (p : Post Msg)
    → j < left
    → answer (p.calls + j) ≡ none
    → (exit_retry answer left i p).0 ≡ none
unfolding exit_retry
exit_none answer zero j i p b e = absurd (omega arith)
exit_none answer (suc left) zero i p b e =
    let now : answer p.calls ≡ none = ap answer (omega arith) ∙ e in rw now refl
exit_none answer (suc left) (suc j) i p b e = elim (Option-cases (answer p.calls)) [
  | inl now ↦ rw now refl
  | inr (c, later) ↦ rw later (
      exit_none answer left j (some c) (delay (record p { calls = p.calls + 1 })) (omega arith)
        (ap answer (omega arith) ∙ e))
]

after_ok :
    (i : ℕ) (st : Start) (a : Am)
    → st.code ≡ none
    → st.b_ok ≡ true
    → after_start i st a ≡ (ok, set_handle i st.handle a)
after_ok i st a e f = rw (e, f) refl

start_at :
    (launch : Desc → Start) (r : Reg) (n : List ℕ) (a : Am) (t : Table a) (i : ℕ)
    → i < a.ui4_app_id
    → has_name n a i ≡ true
    → a.ah_app i ≡ 0
    → am_start_app launch (some r) n a ≡ after_start i (launch (start_desc r)) a
unfolding am_start_app
start_at launch r n a t i b e z =
    rw (am_start_app, found_name n a t i b e, eq→== (a.ah_app i) 0 z) refl

start_again :
    (launch : Desc → Start) (r : Reg) (n : List ℕ) (a : Am) (t : Table a) (i : ℕ)
    → i < a.ui4_app_id
    → has_name n a i ≡ true
    → a.ah_app i ≢ 0
    → am_start_app launch (some r) n a ≡ (already_started, a)
unfolding am_start_app
start_again launch r n a t i b e z =
    rw (am_start_app, found_name n a t i b e, ne→== (a.ah_app i) 0 z) refl

after_exit_ok :
    (i : ℕ) (a : Am) (r : Aeer × Post Msg)
    → r.0 ≡ none
    → ((after_exit i a r).0 ≡ ok) × ((after_exit i a r).1 ≡ set_handle i 0 a)
after_exit_ok i a (none, p) e = (refl, refl)
after_exit_ok i a (some c, p) e = absurd cc

handle_back :
    (i h k : ℕ) (a : Am)
    → a.ah_app i ≡ 0
    → (set_handle i 0 (set_handle i h a)).ah_app k ≡ a.ah_app k
handle_back i h k a z = elim (ℕ_discrete i k) [
  | yes p ↦ rw (eq→== i k p) (sym z ∙ ap a.ah_app p)
  | no p ↦ rw (ne→== i k p) refl
]

-- An application of the table that has no handle is started: with a handle from the execution
-- environment, and its notification of a success, AMR_OK and that handle in the table. A second start is
-- AMR_ALREADY_STARTED and changes nothing, a message under the name goes to the handle, and the end of
-- the application, when one of its 11 calls is answered with AEER_OK, returns AMR_OK and leaves every
-- handle as it was before the start.
pub am_exit_app-am_start_app :
    (launch : Desc → Start) (r : Reg) (n : List ℕ) (a : Am) (i : ℕ) (answer : ℕ → Aeer)
    (p : Post Msg) (j : ℕ)
    → Table a
    → i < a.ui4_app_id
    → has_name n a i ≡ true
    → a.ah_app i ≡ 0
    → (launch (start_desc r)).code ≡ none
    → (launch (start_desc r)).b_ok ≡ true
    → (launch (start_desc r)).handle ≢ 0
    → same_string n app_mngr ≡ false
    → j < 11
    → answer (p.calls + j) ≡ none
    → (a' : Am) × (am_start_app launch (some r) n a ≡ (ok, a'))
      × (a'.ah_app i ≡ (launch (start_desc r)).handle)
      × (am_start_app launch (some r) n a' ≡ (already_started, a'))
      × ((ui4_type : ℕ) (bytes : List ℕ)
          → (am_dispatch_msg answer
              (record { ps_name = n; ui4_type = ui4_type; uc_msg = bytes })
              a'
              p).1
            ≡ (send_retry answer false 11 none
                (record {
                  to = (launch (start_desc r)).handle;
                  body = record { ui4_type = ui4_type; bytes = bytes };
                })
                p).1)
      × ((am_exit_app answer n a' p).0 ≡ ok)
      × ((k : ℕ) → (am_exit_app answer n a' p).1.ah_app k ≡ a.ah_app k)
am_exit_app-am_start_app launch r n a i answer p j t b e z code done h other early hit =
    let st = launch (start_desc r) in
    let a' = set_handle i st.handle a in
    let t' = set_handle-Table i st.handle a t b in
    let here : a'.ah_app i ≡ st.handle = rw (eq→== i i refl) refl in
    let up : a'.ah_app i ≢ 0 = λ x. h (sym here ∙ x) in
    let ended =
      after_exit_ok i a' (exit_retry answer (suc retry_times) none p)
        (exit_none answer (suc retry_times) j none p early hit) in
    let exits = exit_at answer n a' t' i p b e up in
    (
      a',
      start_at launch r n a t i b e z ∙ after_ok i st a code done,
      here,
      start_again launch r n a' t' i b e up,
      λ ui4_type bytes.
          ap (λ c. c.1)
            (dispatch_at answer (record { ps_name = n; ui4_type = ui4_type; uc_msg = bytes }) a' t'
              i p b e up other)
          ∙ ap
              (λ k.
                (to_handle answer k (record { ps_name = n; ui4_type = ui4_type; uc_msg = bytes })
                  p).1)
              here,
      ap (λ c. c.0) exits ∙ ended.0,
      λ k.
          ap (λ c. c.1.ah_app k) exits
          ∙ ap (λ (c : Am). c.ah_app k) ended.1
          ∙ handle_back i st.handle k a z,
    )

no_app :
    (n : List ℕ) (a : Am) (test : ℕ → Bool)
    → ((j : ℕ) → j < a.ui4_app_id → test j ≡ false)
    → find_app test a.ui4_app_id 0 ≡ none
no_app n a test o = find_app-none test a.ui4_app_id 0 (λ j c d. o j (omega arith))

-- Under a name that is not in the table and not the manager's nothing is started, ended or sent.
pub unknown_name :
    (launch : Desc → Start) (r : Option Reg) (answer : ℕ → Aeer) (m : Dispatch) (a : Am)
    (p : Post Msg)
    → ((j : ℕ) → j < a.ui4_app_id → has_name m.ps_name a j ≡ false)
    → same_string m.ps_name app_mngr ≡ false
    → (am_start_app launch r m.ps_name a ≡ (not_authorized, a))
      × (am_exit_app answer m.ps_name a p ≡ (not_authorized, a, p))
      × (am_dispatch_msg answer m a p ≡ (fail, p))
unfolding am_start_app am_exit_app am_dispatch_msg
unknown_name launch r answer m a p o other =
    let n = m.ps_name in
    let none_named = no_app n a (has_name n a) o in
    let none_running =
      no_app n a (is_running n a)
        (λ j b. not_first (not (a.ah_app j == 0)) (has_name n a j) (o j b)) in
    (
      elim r as (λ k. am_start_app launch k n a ≡ (not_authorized, a)) [
        | none ↦ refl
        | some k ↦ rw (am_start_app, none_named) refl
      ],
      rw (am_exit_app, none_running) refl,
      rw (am_dispatch_msg, other, none_running) refl,
    )
