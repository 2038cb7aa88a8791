-- ===== src/Am/Join.antt =====
-- am/am.c and am/amb/amb.c together: the broker sends a request, the manager carries it out.
use multithreading.Prelude.{
  ℕ, suc, ◌+◌, ◌<◌, Bool, true, false, Option, none, some, List, [], ◌∷◌, ◌++◌, ◌&&◌, ◌≡◌, refl,
  sym, ap, ◌∙◌, subst, take, arith, inl, inr, Bool-cases, Option-cases, inc32, eq→==, ne→==,
  ℕ_discrete, lt→ltb,
}
use multithreading.MsgQ.Names.{same_string}
use multithreading.Am.{
  Amr, Aeer, Sent, Post, Am, Reg, Desc, ok, inv_arg, be_registered, Request, reg,
}
use multithreading.Am.Retry.{retry_times, send_retry, Posted, posted, given_up, send_retry-Posted}
use multithreading.Am.Apps.{Msg, Start, add_name, am_app_process_msg_fct}
use multithreading.Am.Broker.{
  u_amb_get_register_info, name_of, amb_authorized_app, request_result, amb_send_request_to_am,
  within_bounds, u_amb_register_app, is_known,
}
use multithreading.Am.Table.{Table, same_string_refl, same_string_eq}
use multithreading.Am.Requests.{Welcome, add_name-Table}

-- The manager carries out the requests of its queue, in their order.
abbrev pub after_request :
    (rest : Am → Post Msg → Option (Am × Post Msg))
    → Option (Amr × Am × Post Msg)
    → Option (Am × Post Msg)
after_request rest none = none
after_request rest (some (c, a, p)) = rest a p

unfoldable pub run_requests :
    (answer : ℕ → Aeer) (launch : Desc → Start)
    → List Reg
    → List (Sent Request)
    → Am
    → Post Msg
    → Option (Am × Post Msg)
run_requests answer launch regs [] a p = some (a, p)
run_requests answer launch regs (m ∷ ms) a p =
    after_request (run_requests answer launch regs ms)
      (am_app_process_msg_fct answer launch (λ n. u_amb_get_register_info n regs) m.body a p)

-- Every application of the manager's table is registered with the broker.
pub record Joined (regs : List Reg) (a : Am) : Type 0 where
  pub table : Table a
  pub known :
      (j : ℕ) → j < a.ui4_app_id → is_known (u_amb_get_register_info (a.as_app_name j) regs) ≡ true

-- A registration more.
known_more :
    (n : List ℕ) (r : Reg) (regs : List Reg)
    → is_known (u_amb_get_register_info n regs) ≡ true
    → is_known (u_amb_get_register_info n (r ∷ regs)) ≡ true
unfolding u_amb_get_register_info
known_more n r regs e = elim (Bool-cases (same_string r.s_name n)) [
  | inl h ↦ rw h refl
  | inr h ↦ rw h e
]

known_new : (r : Reg) (regs : List Reg) → u_amb_get_register_info r.s_name (r ∷ regs) ≡ some r
unfolding u_amb_get_register_info
known_new r regs = rw (same_string_refl r.s_name) refl

not_known :
    (n : List ℕ) (regs : List Reg)
    → amb_authorized_app n regs ≡ none
    → is_known (u_amb_get_register_info n regs) ≡ false
unfolding amb_authorized_app
not_known n regs e = elim (Option-cases (u_amb_get_register_info n regs)) [
  | inl h ↦ rw h refl
  | inr (r, h) ↦ let x : some r.s_name ≡ none = sym (ap name_of h) ∙ e in absurd cc
]

ok_none : (reached : Bool) (i : Aeer) → request_result true reached i ≡ ok → i ≡ none
ok_none reached none e = refl
ok_none reached (some c) e = absurd cc

run_one :
    (answer : ℕ → Aeer) (launch : Desc → Start) (regs : List Reg) (m : Sent Request) (a : Am)
    (p : Post Msg)
    → run_requests answer launch regs (m ∷ []) a p
      ≡ after_request
          (λ a p. some (a, p))
          (am_app_process_msg_fct answer launch (λ n. u_amb_get_register_info n regs) m.body a p)
unfolding run_requests
run_one answer launch regs m a p = refl

process_reg :
    (answer : ℕ → Aeer) (launch : Desc → Start) (regs : List ℕ → Option Reg) (n : List ℕ) (a : Am)
    (p : Post Msg)
    → a.ui4_app_id < 30
    → am_app_process_msg_fct answer launch regs (reg n) a p ≡ some (ok, add_name n a, p)
unfolding am_app_process_msg_fct
process_reg answer launch regs n a p b = rw (lt→ltb a.ui4_app_id 30 b) refl

module _ (r : Reg) (regs : List Reg) (a : Am) (j : Joined regs a) (room : a.ui4_app_id < 30)
    (short : take 16 r.s_name ≡ r.s_name) where
  welcome : amb_authorized_app r.s_name regs ≡ none → Welcome (reg r.s_name) a
  welcome e = (
    room,
    λ k b. elim (Bool-cases (same_string (a.as_app_name k) (take 16 r.s_name))) [
      | inr h ↦ h
      | inl h ↦
          let same = same_string_eq (a.as_app_name k) (take 16 r.s_name) h ∙ short in
          let there =
            ap (λ n. is_known (u_amb_get_register_info n regs)) (sym same) ∙ j.known k b in
          let gone = not_known r.s_name regs e in absurd cc
    ],
  )

  Joined-more : Joined (r ∷ regs) a
  Joined-more = record {
    table = j.table;
    known = λ k b. known_more (a.as_app_name k) r regs (j.known k b);
  }

  Joined-new : Table (add_name r.s_name a) → Joined (r ∷ regs) (add_name r.s_name a)
  Joined-new t =
      let more : inc32 a.ui4_app_id ≡ a.ui4_app_id + 1 = omega (arith, room) in
      record {
        table = t;
        known = λ k b. elim (ℕ_discrete a.ui4_app_id k) [
          | yes p ↦ rw (eq→== a.ui4_app_id k p) (
              ap (λ n. is_known (u_amb_get_register_info n (r ∷ regs))) short
              ∙ ap is_known (known_new r regs))
          | no p ↦
              rw (ne→== a.ui4_app_id k p)
                (known_more (a.as_app_name k) r regs (j.known k (omega (arith, more, b, p))))
        ];
      }

  module _ (answer answer' : ℕ → Aeer) (launch : Desc → Start) (reached : Bool) (h_am : ℕ)
      (p : Post Request) (empty : p.sent ≡ []) (po : Post Msg) where
    abbrev Carried : Amr × List Reg × Post Request → Type 0
    Carried u =
        (c : Am × Post Msg) × (run_requests answer' launch u.1 u.2.sent a po ≡ some c)
        × Joined u.1 c.0

    idle :
        (regs' : List Reg) (sent : List (Sent Request))
        → sent ≡ []
        → run_requests answer' launch regs' sent a po ≡ some (a, po)
    unfolding run_requests
    idle regs' sent e = rw e refl

    one_request :
        (sent : List (Sent Request)) (m : Sent Request)
        → m.body ≡ reg r.s_name
        → sent ≡ m ∷ []
        → run_requests answer' launch (r ∷ regs) sent a po ≡ some (add_name r.s_name a, po)
    one_request sent m f e =
        ap (λ s. run_requests answer' launch (r ∷ regs) s a po) e
        ∙ run_one answer' launch (r ∷ regs) m a po
        ∙ ap
            (λ b.
              after_request (λ a p. some (a, p))
                (am_app_process_msg_fct answer' launch (λ n. u_amb_get_register_info n (r ∷ regs)) b
                  a po))
            f
        ∙ ap (after_request (λ a p. some (a, p))) (
            process_reg answer' launch (λ n. u_amb_get_register_info n (r ∷ regs)) r.s_name a po
              room)

    abbrev request : Sent Request
    request = record { to = h_am; body = reg r.s_name }

    carried :
        (u : Amr × List Reg × Post Request) (s : Aeer × Post Request)
        → u.1 ≡ r ∷ regs
        → u.2 ≡ s.1
        → amb_authorized_app r.s_name regs ≡ none
        → Posted request 11 p s
        → Carried u
    carried u s e f free (posted i sent c d) =
        let all =
          ap (λ (q : Post Request). q.sent) f ∙ sent ∙ ap (λ xs. xs ++ request ∷ []) empty in
        (
          (add_name r.s_name a, po),
          ap (λ rs. run_requests answer' launch rs u.2.sent a po) e
              ∙ one_request u.2.sent request refl all,
          subst (λ rs. Joined rs (add_name r.s_name a)) (sym e)
              (Joined-new (add_name-Table r.s_name a j.table (welcome free))),
        )
    carried u s e f free (given_up i sent c) = (
      (a, po),
      idle u.1 u.2.sent (ap (λ (q : Post Request). q.sent) f ∙ sent ∙ empty),
      subst (λ rs. Joined rs a) (sym e) Joined-more,
    )

    registered :
        (u : Amr × List Reg × Post Request) (s : Aeer × Post Request)
        → u.0 ≡ request_result true reached s.0
        → u.1 ≡ r ∷ regs
        → u.2 ≡ s.1
        → u.0 ≡ ok
        → Posted request 11 p s
        → run_requests answer' launch u.1 u.2.sent a po ≡ some (add_name r.s_name a, po)
    registered u s e f g o (posted i sent c d) =
        ap (λ rs. run_requests answer' launch rs u.2.sent a po) f
        ∙ one_request u.2.sent request refl
            (ap (λ (q : Post Request). q.sent) g ∙ sent ∙ ap (λ xs. xs ++ request ∷ []) empty)
    registered u s e f g o (given_up i sent c) = absurd (i (ok_none reached s.0 (sym e ∙ o)))

    module _ (highest : ℕ) where
      abbrev u : Amr × List Reg × Post Request
      u = u_amb_register_app highest answer reached h_am r regs p

      abbrev s : Aeer × Post Request
      s = send_retry answer true (suc retry_times) none request p

      refused : (r.callbacks && within_bounds highest r.t_desc) ≡ false → u ≡ (inv_arg, regs, p)
      unfolding u_amb_register_app
      refused e = rw e refl

      twice :
          (n : List ℕ)
          → (r.callbacks && within_bounds highest r.t_desc) ≡ true
          → amb_authorized_app r.s_name regs ≡ some n
          → u ≡ (be_registered, regs, p)
      unfolding u_amb_register_app
      twice n e f = rw (e, f) refl

      first_time :
          (r.callbacks && within_bounds highest r.t_desc) ≡ true
          → amb_authorized_app r.s_name regs ≡ none
          → u ≡ (request_result true reached s.0, r ∷ regs, s.1)
      unfolding u_amb_register_app amb_send_request_to_am
      first_time e f = rw (e, f) refl

      unchanged : (c : Amr) → u ≡ (c, regs, p) → Carried u
      unchanged c e = subst Carried (sym e) ((a, po), idle regs p.sent empty, j)

      -- From a state in which every application of the manager is registered with the broker, and with a name of
      -- at most 16 characters, fewer than 30 applications in the manager's table and no request under way:
      -- whatever the execution environment answers, the manager carries out what `u_amb_register_app` sent,
      -- and after it every application of its table is registered with the broker and every name stands once.
      pub u_amb_register_app-Joined : Carried u
      u_amb_register_app-Joined =
          elim (Bool-cases (r.callbacks && within_bounds highest r.t_desc)) [
            | inr e ↦ unchanged inv_arg (refused e)
            | inl e ↦ elim (Option-cases (amb_authorized_app r.s_name regs)) [
              | inr (n, f) ↦ unchanged be_registered (twice n e f)
              | inl f ↦
                  let v = first_time e f in
                  carried u s (ap (λ c. c.1) v) (ap (λ c. c.2) v) f
                    (send_retry-Posted answer true request retry_times none p)
            ]
          ]

      -- When `u_amb_register_app` returns AMBR_OK, the name is known to the broker, and the manager puts it
      -- at the end of its table.
      pub u_amb_register_app_ok :
          u.0 ≡ ok
          → (amb_authorized_app r.s_name u.1 ≡ some r.s_name)
            × (run_requests answer' launch u.1 u.2.sent a po ≡ some (add_name r.s_name a, po))
      unfolding amb_authorized_app
      u_amb_register_app_ok o = elim (Bool-cases (r.callbacks && within_bounds highest r.t_desc)) [
        | inr e ↦ let x : inv_arg ≡ ok = sym (ap (λ c. c.0) (refused e)) ∙ o in absurd cc
        | inl e ↦ elim (Option-cases (amb_authorized_app r.s_name regs)) [
          | inr (n, f) ↦
              let x : be_registered ≡ ok = sym (ap (λ c. c.0) (twice n e f)) ∙ o in absurd cc
          | inl f ↦
              let v = first_time e f in
              (
                ap (λ rs. amb_authorized_app r.s_name rs) (ap (λ c. c.1) v)
                    ∙ ap name_of (known_new r regs),
                registered u s (ap (λ c. c.0) v) (ap (λ c. c.1) v) (ap (λ c. c.2) v) o
                    (send_retry-Posted answer true request retry_times none p),
              )
        ]
      ]
