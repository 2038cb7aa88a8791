-- ===== src/Am/Requests.antt =====
-- am/am.c: `_am_app_process_msg_fct` keeps the table of the applications.
use multithreading.Prelude.{
  ℕ, zero, suc, ◌+◌, ◌<◌, ◌⊎◌, Bool, true, false, ltb, ap, Option, none, some, List, ◌==◌, ◌≡◌,
  refl, sym, ◌∙◌, subst, take, arith, inl, inr, Bool-cases, Option-cases, eq→==, ne→==, ℕ_discrete,
  inc32, lt→ltb,
}
use multithreading.MsgQ.Names.{same_string}
use multithreading.MsgQ.Registry.{same_string_sym}
use multithreading.Am.{
  Amr, Aeer, Post, Am, Reg, Desc, ok, unknown_request, inv_arg, Request, start, exit, reg, resume,
  pause, broadcast_msg, dispatch_msg, request_unknown, other_number,
}
use multithreading.Am.Retry.{is_ok, retry_times}
use multithreading.Am.Apps.{
  Msg, Start, start_desc, find_app, has_name, is_running, after_start, am_start_app, exit_retry,
  after_exit, am_exit_app, add_name, am_broadcast_msg, am_dispatch_msg, am_app_process_msg_fct,
}
use multithreading.Am.Table.{Table, Hit, find_app-Hit, set_handle-Table}

-- A name that the table can take: there is room, and no application has it.
abbrev pub Welcome : Request → Am → Type 0
Welcome (reg n) a =
    (a.ui4_app_id < 30)
    × ((j : ℕ) → j < a.ui4_app_id → same_string (a.as_app_name j) (take 16 n) ≡ false)
Welcome (start n) a = Unit
Welcome (exit n) a = Unit
Welcome (resume n) a = Unit
Welcome (pause n) a = Unit
Welcome (broadcast_msg m) a = Unit
Welcome (dispatch_msg m) a = Unit
Welcome request_unknown a = Unit
Welcome other_number a = Unit

pub add_name-Table : (n : List ℕ) (a : Am) → Table a → Welcome (reg n) a → Table (add_name n a)
add_name-Table n a t (b, other) =
    let more : inc32 a.ui4_app_id ≡ a.ui4_app_id + 1 = omega (arith, b) in
    record {
      bound = omega (arith, more, b);
      free = λ i c. t.free i (omega (arith, more, c));
      apart = λ i j c d e. elim (ℕ_discrete a.ui4_app_id i) [
        | yes p ↦
            rw (eq→== a.ui4_app_id i p, ne→== a.ui4_app_id j (λ q. e (sym p ∙ q)))
              (same_string_sym (take 16 n) (a.as_app_name j)
                ∙ other j (omega (arith, more, c, d, e, p)))
        | no p ↦ elim (ℕ_discrete a.ui4_app_id j) [
          | yes q ↦
              rw (ne→== a.ui4_app_id i p, eq→== a.ui4_app_id j q)
                (other i (omega (arith, more, c, p)))
          | no q ↦
              rw (ne→== a.ui4_app_id i p, ne→== a.ui4_app_id j q)
                (t.apart i j (omega (arith, more, c, p)) (omega (arith, more, d, q)) e)
        ]
      ];
    }

after_start-Table :
    (i : ℕ) (st : Start) (a : Am) → Table a → i < a.ui4_app_id → Table (after_start i st a).1
after_start-Table i st a t b = elim (Bool-cases (is_ok st.code)) [
  | inr e ↦ rw e (set_handle-Table i 0 a t b)
  | inl e ↦ elim (Bool-cases st.b_ok) [
    | inl f ↦ rw (e, f) (set_handle-Table i st.handle a t b)
    | inr f ↦ rw (e, f) (set_handle-Table i 0 a t b)
  ]
]

am_start_app-Table :
    (launch : Desc → Start) (r : Option Reg) (n : List ℕ) (a : Am)
    → Table a
    → Table (am_start_app launch r n a).1
unfolding am_start_app
am_start_app-Table launch none n a t = t
am_start_app-Table launch (some r) n a t =
    elim (Option-cases (find_app (has_name n a) a.ui4_app_id 0)) [
      | inl e ↦ rw (am_start_app, e) t
      | inr (i, e) ↦
          let (hit, low, high) =
            subst (Hit (has_name n a) a.ui4_app_id 0) e
              (find_app-Hit (has_name n a) a.ui4_app_id 0) in
          elim (Bool-cases (a.ah_app i == 0)) [
            | inl z ↦
                rw (am_start_app, e, z)
                  (after_start-Table i (launch (start_desc r)) a t (omega (arith, high)))
            | inr z ↦ rw (am_start_app, e, z) t
          ]
    ]

after_exit-Table :
    (i : ℕ) (a : Am) (r : Aeer × Post Msg) → Table a → i < a.ui4_app_id → Table (after_exit i a r).1
after_exit-Table i a (none, p) t b = set_handle-Table i 0 a t b
after_exit-Table i a (some c, p) t b = t

am_exit_app-Table :
    (answer : ℕ → Aeer) (n : List ℕ) (a : Am) (p : Post Msg)
    → Table a
    → Table (am_exit_app answer n a p).1
unfolding am_exit_app
am_exit_app-Table answer n a p t = elim (Option-cases (find_app (is_running n a) a.ui4_app_id 0)) [
  | inl e ↦ rw (am_exit_app, e) t
  | inr (i, e) ↦
      let (hit, low, high) =
        subst (Hit (is_running n a) a.ui4_app_id 0) e
          (find_app-Hit (is_running n a) a.ui4_app_id 0) in
      rw (am_exit_app, e)
        (after_exit-Table i a (exit_retry answer (suc retry_times) none p) t (omega (arith, high)))
]

-- With room for a registration, and a name that the table does not hold, the manager answers every request
-- and keeps its table.
am_app_process_msg_fct-Table :
    (answer : ℕ → Aeer) (launch : Desc → Start) (regs : List ℕ → Option Reg) (q : Request) (a : Am)
    (p : Post Msg)
    → Table a
    → Welcome q a
    → (c : Amr × Am × Post Msg) × (am_app_process_msg_fct answer launch regs q a p ≡ some c)
      × Table c.1
unfolding am_app_process_msg_fct
am_app_process_msg_fct-Table answer launch regs (start n) a p t w =
    let r = am_start_app launch (regs n) n a in
    ((r.0, r.1, p), refl, am_start_app-Table launch (regs n) n a t)
am_app_process_msg_fct-Table answer launch regs (exit n) a p t w =
    (am_exit_app answer n a p, refl, am_exit_app-Table answer n a p t)
am_app_process_msg_fct-Table answer launch regs (reg n) a p t (b, o) =
    ((ok, add_name n a, p), rw (lt→ltb a.ui4_app_id 30 b) refl, add_name-Table n a t (b, o))
am_app_process_msg_fct-Table answer launch regs (dispatch_msg m) a p t w =
    let r = am_dispatch_msg answer m a p in ((r.0, a, r.1), refl, t)
am_app_process_msg_fct-Table answer launch regs (broadcast_msg m) a p t w =
    let r = am_broadcast_msg answer m false a p in ((r.0, a, r.1), refl, t)
am_app_process_msg_fct-Table answer launch regs (resume n) a p t w =
    ((unknown_request, a, p), refl, t)
am_app_process_msg_fct-Table answer launch regs (pause n) a p t w =
    ((unknown_request, a, p), refl, t)
am_app_process_msg_fct-Table answer launch regs request_unknown a p t w =
    ((unknown_request, a, p), refl, t)
am_app_process_msg_fct-Table answer launch regs other_number a p t w = ((inv_arg, a, p), refl, t)

some_place :
    (test : ℕ → Bool) (k : ℕ)
    → ((j : ℕ) × (j < k) × (test j ≡ true)) ⊎ ((j : ℕ) → j < k → test j ≡ false)
some_place test zero = inr (λ j b. absurd (omega (arith, b)))
some_place test (suc k) = elim (Bool-cases (test k)) [
  | inl e ↦ inl (k, omega arith, e)
  | inr e ↦ elim (some_place test k) [
    | inl (j, b, f) ↦ inl (j, omega arith, f)
    | inr all ↦ inr (λ j b. elim (ℕ_discrete j k) [
      | yes q ↦ ap test q ∙ e
      | no n ↦ all j (omega (arith, b, n))
    ])
  ]
]

-- What a request comes to.
abbrev pub Answered : Request → Am → Post Msg → Option (Amr × Am × Post Msg) → Type 0
Answered q a p r =
    ((c : Amr × Am × Post Msg) × (r ≡ some c) × Table c.1)
    ⊎ (((n : List ℕ) × (q ≡ reg n) × (a.ui4_app_id ≡ 30) × (r ≡ none))
        ⊎ ((n : List ℕ) × (j : ℕ) × (q ≡ reg n)
            × (j < a.ui4_app_id)
            × (same_string (a.as_app_name j) (take 16 n) ≡ true)
            × (r ≡ some (ok, add_name n a, p))))

-- From a table in order, that is of at most 30 applications, with no handle behind them and every name once,
-- each request has one of three outcomes, whatever the execution environment answers. It is answered and the
-- table is in order again; or it is a registration with 30 applications in the table, whose name goes behind
-- the end of the table; or it is a registration of a name that the table has, cut to 16 characters, which is
-- entered a second time.
pub am_app_process_msg_fct-Answered :
    (answer : ℕ → Aeer) (launch : Desc → Start) (regs : List ℕ → Option Reg) (q : Request) (a : Am)
    (p : Post Msg)
    → Table a
    → Answered q a p (am_app_process_msg_fct answer launch regs q a p)
unfolding am_app_process_msg_fct
am_app_process_msg_fct-Answered answer launch regs (reg n) a p t =
    elim (Bool-cases (ltb a.ui4_app_id 30)) [
      | inr full ↦ rw full (inr (inl (n, refl, ground (arith, t.bound, full), refl)))
      | inl room ↦ elim (some_place (λ j. same_string (a.as_app_name j) (take 16 n)) a.ui4_app_id) [
        | inl (j, b, e) ↦ rw room (inr (inr (n, j, refl, b, e, refl)))
        | inr new ↦
            rw room (inl ((ok, add_name n a, p), refl, add_name-Table n a t (ground arith, new)))
      ]
    ]
am_app_process_msg_fct-Answered answer launch regs (start n) a p t =
    inl (am_app_process_msg_fct-Table answer launch regs (start n) a p t tt)
am_app_process_msg_fct-Answered answer launch regs (exit n) a p t =
    inl (am_app_process_msg_fct-Table answer launch regs (exit n) a p t tt)
am_app_process_msg_fct-Answered answer launch regs (dispatch_msg m) a p t =
    inl (am_app_process_msg_fct-Table answer launch regs (dispatch_msg m) a p t tt)
am_app_process_msg_fct-Answered answer launch regs (broadcast_msg m) a p t =
    inl (am_app_process_msg_fct-Table answer launch regs (broadcast_msg m) a p t tt)
am_app_process_msg_fct-Answered answer launch regs (resume n) a p t =
    inl (am_app_process_msg_fct-Table answer launch regs (resume n) a p t tt)
am_app_process_msg_fct-Answered answer launch regs (pause n) a p t =
    inl (am_app_process_msg_fct-Table answer launch regs (pause n) a p t tt)
am_app_process_msg_fct-Answered answer launch regs request_unknown a p t =
    inl (am_app_process_msg_fct-Table answer launch regs request_unknown a p t tt)
am_app_process_msg_fct-Answered answer launch regs other_number a p t =
    inl (am_app_process_msg_fct-Table answer launch regs other_number a p t tt)
