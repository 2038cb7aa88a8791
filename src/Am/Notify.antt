-- ===== src/Am/Notify.antt =====
-- am/am.c and am/aee/appman.c together: the manager waits for its synchronous messages.
use multithreading.Prelude.{
  ℕ, suc, ◌+◌, Bool, true, false, Option, none, some, List, [], ◌∷◌, ◌++◌, ◌==◌, not, ◌≡◌, ◌≢◌,
  refl, ap, ◌∙◌, if◌then◌else◌, arith, inl, inr, Bool-cases,
}
use multithreading.Aee.Main.{
  Reason, pre_init, init_ok, init_failed, pre_process_msg, process_msg_ok, process_msg_failed,
  pre_exit, exit_ok, exit_failed, Event, notified, ran_init, ran_exit, ran_process_msg, Command,
  msg_init, other_msg, msg_exit, msg_process, Header, Answers, notify, call, ignored, handle_msg,
  proceed, appman_main,
}

-- The value of a synchronous call that a reason gives.
abbrev pub b_ok_of : Reason → Option Bool
b_ok_of init_ok = some true
b_ok_of exit_ok = some true
b_ok_of process_msg_ok = some true
b_ok_of init_failed = some false
b_ok_of exit_failed = some false
b_ok_of process_msg_failed = some false
b_ok_of pre_init = none
b_ok_of pre_process_msg = none
b_ok_of pre_exit = none

-- `_am_app_nfy_fct`: the value written and the semaphore `h_bin_sema` unlocked, if they are, and FALSE, that
-- the message is not ignored.
abbrev pub am_app_nfy_fct : (pv_tag : ℕ) → Reason → Option Bool × Bool
am_app_nfy_fct pv_tag r = (if not (pv_tag == 0) then b_ok_of r else none, false)

abbrev pub unlocks_for : Option Bool → ℕ
unlocks_for none = 0
unlocks_for (some b) = 1

-- The unlocks of all notifications.
abbrev pub unlocks : List Event → ℕ
unlocks [] = 0
unlocks (notified t r ∷ es) = unlocks_for (am_app_nfy_fct t r).0 + unlocks es
unlocks (ran_init ∷ es) = unlocks es
unlocks (ran_exit e ∷ es) = unlocks es
unlocks (ran_process_msg t m ∷ es) = unlocks es

-- The synchronous messages.
abbrev pub synchronous : List (Option Header) → ℕ
synchronous [] = 0
synchronous (none ∷ ms) = synchronous ms
synchronous (some h ∷ ms) = (if not (h.pv_tag == 0) then 1 else 0) + synchronous ms

-- The calls of the application's functions, and the messages that there are.
abbrev pub calls : List Event → ℕ
calls [] = 0
calls (notified t r ∷ es) = calls es
calls (ran_init ∷ es) = suc (calls es)
calls (ran_exit e ∷ es) = suc (calls es)
calls (ran_process_msg t m ∷ es) = suc (calls es)

abbrev pub received : List (Option Header) → ℕ
received [] = 0
received (none ∷ ms) = received ms
received (some h ∷ ms) = suc (received ms)

-- The manager's messages: one of the three commands, with its notification function.
abbrev pub IsSent : List (Option Header) → Type 0
IsSent [] = Unit
IsSent (none ∷ ms) = IsSent ms
IsSent (some h ∷ ms) = (h.has_nfy ≡ true) × (h.command ≢ other_msg) × IsSent ms

unlocks-append : (xs ys : List Event) → unlocks (xs ++ ys) ≡ unlocks xs + unlocks ys
unlocks-append [] ys = omega arith
unlocks-append (notified t r ∷ xs) ys = omega (arith, unlocks-append xs ys)
unlocks-append (ran_init ∷ xs) ys = unlocks-append xs ys
unlocks-append (ran_exit e ∷ xs) ys = unlocks-append xs ys
unlocks-append (ran_process_msg t m ∷ xs) ys = unlocks-append xs ys

calls-append : (xs ys : List Event) → calls (xs ++ ys) ≡ calls xs + calls ys
calls-append [] ys = omega arith
calls-append (notified t r ∷ xs) ys = calls-append xs ys
calls-append (ran_init ∷ xs) ys = omega (arith, calls-append xs ys)
calls-append (ran_exit e ∷ xs) ys = omega (arith, calls-append xs ys)
calls-append (ran_process_msg t m ∷ xs) ys = omega (arith, calls-append xs ys)

calls-notify : (h : Header) (r : Reason) (log : List Event) → calls (notify h r log) ≡ calls log
calls-notify h r log = elim (Bool-cases h.has_nfy) [
  | inl e ↦ rw e (calls-append log (notified h.pv_tag r ∷ []) ∙ omega arith)
  | inr e ↦ rw e refl
]

-- One message is handled with one call, and gives one unlock if it is synchronous.
abbrev IsHandled : Header → List Event → Option (List Event × Bool) → Type 0
IsHandled h log none = ⊥
IsHandled h log (some (l, b)) =
    (unlocks l ≡ unlocks log + (if not (h.pv_tag == 0) then 1 else 0)) × (calls l ≡ suc (calls log))

unlocks-notify :
    (h : Header) (r : Reason) (log : List Event)
    → h.has_nfy ≡ true
    → unlocks (notify h r log) ≡ unlocks log + unlocks_for (am_app_nfy_fct h.pv_tag r).0
unlocks-notify h r log e = rw e (unlocks-append log (notified h.pv_tag r ∷ []) ∙ omega arith)

-- The notification before a function is called: no unlock.
unlocks-before :
    (h : Header) (r : Reason) (log : List Event)
    → h.has_nfy ≡ true
    → b_ok_of r ≡ none
    → unlocks (notify h r log) ≡ unlocks log
unlocks-before h r log e f =
    let no : unlocks_for (am_app_nfy_fct h.pv_tag r).0 ≡ 0 =
      rw f (elim (Bool-cases (h.pv_tag == 0)) [ inl p ↦ rw p refl | inr p ↦ rw p refl ]) in
    omega (arith, unlocks-notify h r log e, no)

-- The notification of a result: one unlock for a synchronous message.
unlocks-result :
    (h : Header) (r : Reason) (b : Bool) (log : List Event)
    → h.has_nfy ≡ true
    → b_ok_of r ≡ some b
    → unlocks (notify h r log) ≡ unlocks log + (if not (h.pv_tag == 0) then 1 else 0)
unlocks-result h r b log e f =
    unlocks-notify h r log e
    ∙ elim (Bool-cases (h.pv_tag == 0)) [ inl p ↦ rw p refl | inr p ↦ rw (p, f) refl ]

module _ (a : Answers)
    (nfy : (t : ℕ) (r : Reason) (l : List Event) → a.ignores t r l ≡ (am_app_nfy_fct t r).1) where
  handled :
      (h : Header) (ev : Event) (pre good bad : Reason) (log : List Event)
      → h.has_nfy ≡ true
      → unlocks (ev ∷ []) ≡ 0
      → b_ok_of pre ≡ none
      → b_ok_of good ≡ some true
      → b_ok_of bad ≡ some false
      → unlocks (call a h ev good bad (notify h pre log)).0
        ≡ unlocks log + (if not (h.pv_tag == 0) then 1 else 0)
  handled h ev pre good bad log e z p g b =
      let l = notify h pre log in
      let same : unlocks (l ++ ev ∷ []) ≡ unlocks log =
        omega (arith, unlocks-append l (ev ∷ []), unlocks-before h pre log e p, z) in
      elim (Bool-cases (a.succeeds (l ++ ev ∷ []))) [
        | inl q ↦ rw q (
            unlocks-result h good true (l ++ ev ∷ []) e g
            ∙ ap (λ k. k + (if not (h.pv_tag == 0) then 1 else 0)) same)
        | inr q ↦ rw q (
            unlocks-result h bad false (l ++ ev ∷ []) e b
            ∙ ap (λ k. k + (if not (h.pv_tag == 0) then 1 else 0)) same)
      ]

  called :
      (h : Header) (ev : Event) (pre good bad : Reason) (log : List Event)
      → calls (ev ∷ []) ≡ 1
      → calls (call a h ev good bad (notify h pre log)).0 ≡ suc (calls log)
  called h ev pre good bad log one =
      let l = notify h pre log in
      omega (
        arith,
        one,
        calls-notify h (if a.succeeds (l ++ ev ∷ []) then good else bad) (l ++ ev ∷ []),
        calls-append l (ev ∷ []),
        calls-notify h pre log,
      )

  not_ignored :
      (h : Header) (r : Reason) (l : List Event) → h.has_nfy ≡ true → ignored a h r l ≡ false
  not_ignored h r l e = rw (e, nfy h.pv_tag r l) refl

  handle_msg-IsHandled :
      (h : Header) (c : Command) (log : List Event)
      → h.has_nfy ≡ true
      → c ≢ other_msg
      → IsHandled h log (handle_msg a h c log)
  unfolding handle_msg
  handle_msg-IsHandled h (msg_process t m) log e n =
      rw (not_ignored h pre_process_msg (notify h pre_process_msg log) e) (
        handled h (ran_process_msg t m) pre_process_msg process_msg_ok process_msg_failed log e refl
            refl refl refl,
        called h (ran_process_msg t m) pre_process_msg process_msg_ok process_msg_failed log refl,
      )
  handle_msg-IsHandled h (msg_exit m) log e n =
      rw (not_ignored h pre_exit (notify h pre_exit log) e) (
        handled h (ran_exit m) pre_exit exit_ok exit_failed log e refl refl refl refl,
        called h (ran_exit m) pre_exit exit_ok exit_failed log refl,
      )
  handle_msg-IsHandled h msg_init log e n = rw (not_ignored h pre_init (notify h pre_init log) e) (
    handled h ran_init pre_init init_ok init_failed log e refl refl refl refl,
    called h ran_init pre_init init_ok init_failed log refl,
  )
  handle_msg-IsHandled h other_msg log e n = absurd (n refl)

-- What the loop has done: of the messages that it has taken each one has been given to one of the
-- application's functions, and each synchronous one has given one unlock, the last one included; a loop that
-- waits for more has taken all.
abbrev pub TakenFrom : List (Option Header) → List Event → Option (List Event × Bool) → Type 0
TakenFrom ms log o =
    (r : List Event × Bool) × (o ≡ some r)
    × (taken : List (Option Header)) × (rest : List (Option Header)) × (ms ≡ taken ++ rest)
    × (unlocks r.0 ≡ unlocks log + synchronous taken)
    × (calls r.0 ≡ calls log + received taken)
    × (r.1 ≡ false → rest ≡ [])

proceed-TakenFrom :
    (h : Header) (ms : List (Option Header)) (log : List Event)
    (next : List Event → Option (List Event × Bool)) (o : Option (List Event × Bool))
    → IsHandled h log o
    → ((l : List Event) → TakenFrom ms l (next l))
    → TakenFrom (some h ∷ ms) log (proceed next o)
proceed-TakenFrom h ms log next none u all = absurd u
proceed-TakenFrom h ms log next (some (l, true)) (u, c) all =
    ((l, true), refl, some h ∷ [], ms, refl, omega (arith, u), omega (arith, c), λ e. absurd cc)
proceed-TakenFrom h ms log next (some (l, false)) (u, c) all =
    let (r, e, taken, rest, s, v, k, w) = all l in
    (
      r,
      e,
      some h ∷ taken,
      rest,
      ap (λ ys. some h ∷ ys) s,
      omega (arith, u, v),
      omega (arith, c, k),
      w,
    )

-- The loop of an application whose messages come from the manager, each one of the three commands, with
-- `_am_app_nfy_fct` as its notification function: no message ends in the ABORT. The loop takes the first ones
-- of the messages, as many as there are calls of the application's functions, all of them when it has not
-- ended; and for each synchronous one of these, and for no other, the semaphore that the manager waits on is
-- unlocked once. So the one that ends the loop has its unlock.
pub appman_main-TakenFrom :
    (a : Answers) (ms : List (Option Header)) (log : List Event)
    → ((t : ℕ) (r : Reason) (l : List Event) → a.ignores t r l ≡ (am_app_nfy_fct t r).1)
    → IsSent ms
    → TakenFrom ms log (appman_main a ms log)
unfolding appman_main
appman_main-TakenFrom a [] log k s =
    ((log, false), refl, [], [], refl, omega arith, omega arith, λ e. refl)
appman_main-TakenFrom a (none ∷ ms) log k s =
    ((log, true), refl, none ∷ [], ms, refl, omega arith, omega arith, λ e. absurd cc)
appman_main-TakenFrom a (some h ∷ ms) log k (e, n, s) =
    proceed-TakenFrom h ms log (appman_main a ms) (handle_msg a h h.command log)
      (handle_msg-IsHandled a k h h.command log e n) (λ l. appman_main-TakenFrom a ms l k s)
