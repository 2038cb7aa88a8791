-- ===== src/Am/Retry.antt =====
-- am/am.c, am/amb/amb.c: the loops that try `u_app_send_msg` again until a queue accepts the message.
use multithreading.Prelude.{
  ℕ, zero, suc, ◌+◌, ◌<◌, ◌≤◌, Bool, true, false, none, some, List, [], ◌∷◌, ◌++◌, ◌≡◌, ◌≢◌, refl,
  sym, ap, ◌∙◌, subst, if◌then◌else◌, arith, inl, inr, Option-cases,
}
use multithreading.Am.{Aeer, Sent, Post}

abbrev pub is_ok : Aeer → Bool
is_ok none = true
is_ok (some c) = false

-- MSGQ_RETRY_TIMES; the loops run one time more.
abbrev pub retry_times : ℕ
retry_times = 10

-- `u_thread_delay (MSGQ_RETRY_DELAY)`
abbrev pub delay : {A : Type 0} → Post A → Post A
delay p = record p { delays = p.delays + 1 }

abbrev pub accepted : {A : Type 0} → Aeer → Sent A → List (Sent A) → List (Sent A)
accepted none m sent = sent ++ m ∷ []
accepted (some c) m sent = sent

-- A call of `u_app_send_msg`, which the environment answers.
abbrev pub u_app_send_msg : {A : Type 0} (answer : ℕ → Aeer) → Sent A → Post A → Post A
u_app_send_msg answer m p = record p {
  calls = p.calls + 1;
  sent = accepted (answer p.calls) m p.sent;
}

-- `_WAIT (h_bin_sema)`, in a synchronous call.
abbrev pub waited : {A : Type 0} (b_sync : Bool) → Post A → Post A
waited true q = record q { waits = q.waits + 1 }
waited false q = q

-- The loop with `left` tries, with `i4_res` so far; on a success a synchronous call waits.
unfoldable pub send_retry :
    {A : Type 0} (answer : ℕ → Aeer) (b_sync : Bool) (left : ℕ) (i4_res : Aeer)
    → Sent A
    → Post A
    → Aeer × Post A
send_retry answer b_sync zero i4_res m p = (i4_res, p)
send_retry answer b_sync (suc left) i4_res m p =
    let q = u_app_send_msg answer m p in
    let rest = send_retry answer b_sync left (answer p.calls) m (delay q) in
    if is_ok (answer p.calls) then (none, waited b_sync q) else rest

waited_sent : {A : Type 0} (b_sync : Bool) (q : Post A) → (waited b_sync q).sent ≡ q.sent
waited_sent true q = refl
waited_sent false q = refl

waited_calls : {A : Type 0} (b_sync : Bool) (q : Post A) → (waited b_sync q).calls ≡ q.calls
waited_calls true q = refl
waited_calls false q = refl

-- The end of the loop: the message was accepted once, by the last call, or it was never accepted and
-- every try was made.
pub data Posted {A : Type 0} (m : Sent A) (left : ℕ) (p : Post A) (r : Aeer × Post A) : Type 0 where
  posted :
      r.0 ≡ none
      → r.1.sent ≡ p.sent ++ m ∷ []
      → p.calls < r.1.calls
      → r.1.calls ≤ p.calls + left
      → Posted m left p r
  given_up : r.0 ≢ none → r.1.sent ≡ p.sent → r.1.calls ≡ p.calls + left → Posted m left p r

module _ {A : Type 0} (answer : ℕ → Aeer) (b_sync : Bool) (m : Sent A) where
  pub accepted_at :
      (left : ℕ) (i : Aeer) (p : Post A)
      → answer p.calls ≡ none
      → send_retry answer b_sync (suc left) i m p
        ≡ (none, waited b_sync (u_app_send_msg answer m p))
  unfolding send_retry
  accepted_at left i p e = rw e refl

  refused_at :
      (left c : ℕ) (i : Aeer) (p : Post A)
      → answer p.calls ≡ some c
      → send_retry answer b_sync (suc left) i m p
        ≡ send_retry answer b_sync left (some c) m (delay (u_app_send_msg answer m p))
  unfolding send_retry
  refused_at left c i p e = rw e refl

  later :
      (left c : ℕ) (p : Post A) (r : Aeer × Post A)
      → answer p.calls ≡ some c
      → Posted m left (delay (u_app_send_msg answer m p)) r
      → Posted m (suc left) p r
  later left c p r e (posted a b d f) =
      posted a (b ∙ ap (λ o. accepted o m p.sent ++ m ∷ []) e) (omega (arith, d)) (omega (arith, f))
  later left c p r e (given_up a b d) =
      given_up a (b ∙ ap (λ o. accepted o m p.sent) e) (omega (arith, d))

  no_more :
      (c : ℕ) (p : Post A)
      → send_retry answer b_sync 0 (some c) m (delay (u_app_send_msg answer m p))
        ≡ (some c, delay (u_app_send_msg answer m p))
  unfolding send_retry
  no_more c p = refl

  at_once :
      (left : ℕ) (i : Aeer) (p : Post A)
      → answer p.calls ≡ none
      → Posted m (suc left) p (send_retry answer b_sync (suc left) i m p)
  at_once left i p e =
      let q = u_app_send_msg answer m p in
      subst (λ r. Posted m (suc left) p r) (sym (accepted_at left i p e))
        (posted refl (waited_sent b_sync q ∙ ap (λ o. accepted o m p.sent) e)
          (omega (arith, waited_calls b_sync q)) (omega (arith, waited_calls b_sync q)))

  -- The loop with at least one try.
  pub send_retry-Posted :
      (left : ℕ) (i : Aeer) (p : Post A)
      → Posted m (suc left) p (send_retry answer b_sync (suc left) i m p)
  send_retry-Posted zero i p = elim (Option-cases (answer p.calls)) [
    | inl e ↦ at_once zero i p e
    | inr (c, e) ↦
        subst (λ r. Posted m 1 p r) (sym (refused_at zero c i p e ∙ no_more c p))
          (given_up (λ x. absurd cc) (ap (λ o. accepted o m p.sent) e) (omega arith))
  ]
  send_retry-Posted (suc left) i p = elim (Option-cases (answer p.calls)) [
    | inl e ↦ at_once (suc left) i p e
    | inr (c, e) ↦
        let q = delay (u_app_send_msg answer m p) in
        later (suc left) c p (send_retry answer b_sync (suc (suc left)) i m p) e (
          subst (λ r. Posted m (suc left) q r) (sym (refused_at (suc left) c i p e))
            (send_retry-Posted left (some c) q))
  ]

  -- One of the calls that the loop may make is answered with AEER_OK.
  pub send_retry-none :
      (left j : ℕ) (i : Aeer) (p : Post A)
      → j < left
      → answer (p.calls + j) ≡ none
      → (send_retry answer b_sync left i m p).0 ≡ none
  send_retry-none zero j i p b e = absurd (omega arith)
  send_retry-none (suc left) zero i p b e =
      ap (λ r. r.0) (accepted_at left i p (ap answer (omega arith) ∙ e))
  send_retry-none (suc left) (suc j) i p b e = elim (Option-cases (answer p.calls)) [
    | inl here ↦ ap (λ r. r.0) (accepted_at left i p here)
    | inr (c, there) ↦
        ap (λ r. r.0) (refused_at left c i p there)
        ∙ send_retry-none left j (some c) (delay (u_app_send_msg answer m p)) (omega arith)
            (ap answer (omega arith) ∙ e)
  ]
