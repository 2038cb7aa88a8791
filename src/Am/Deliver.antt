-- ===== src/Am/Deliver.antt =====
-- am/am.c: what a broadcast reaches.
use multithreading.Prelude.{
  ℕ, zero, suc, ◌+◌, ◌*◌, ◌<◌, ◌≤◌, Bool, true, false, none, List, [], ◌∷◌, ◌++◌, ◌==◌, ◌≡◌, refl,
  sym, ap, ◌∙◌, subst, if◌then◌else◌, arith, inl, inr, Bool-cases,
}
use multithreading.Am.{Aeer, Sent, Post, Am, Broadcast, ok}
use multithreading.Am.Retry.{
  retry_times, send_retry, Posted, posted, given_up, send_retry-Posted, send_retry-none,
}
use multithreading.Am.Apps.{Msg, amr_of, delays_only, broadcast_loop, am_broadcast_msg}

-- What a broadcast is to an application.
abbrev pub to_app : Broadcast → ℕ → Sent Msg
to_app m h = record { to = h; body = record { ui4_type = m.ui4_type; bytes = m.uc_msg } }

-- The messages for the applications that the environment has created, of the first `n`, the last first.
abbrev pub for_running : Broadcast → (ℕ → ℕ) → (n : ℕ) → List (Sent Msg)
for_running m ah_app zero = []
for_running m ah_app (suc n) =
    if ah_app n == 0 then for_running m ah_app n else to_app m (ah_app n) ∷ for_running m ah_app n

-- The list `xs` is `ys` less some of its members.
pub data Among {A : Type 0} : List A → List A → Type 0 where
  none_left : Among [] []
  kept : {x : A} {xs ys : List A} → Among xs ys → Among (x ∷ xs) (x ∷ ys)
  dropped : {x : A} {xs ys : List A} → Among xs ys → Among xs (x ∷ ys)

append_one : {A : Type 0} (xs : List A) (x : A) (ys : List A) → (xs ++ x ∷ []) ++ ys ≡ xs ++ x ∷ ys
append_one [] x ys = refl
append_one (y ∷ xs) x ys = ap (λ zs. y ∷ zs) (append_one xs x ys)

append_nil : {A : Type 0} (xs : List A) → xs ++ [] ≡ xs
append_nil [] = refl
append_nil (x ∷ xs) = ap (λ ys. x ∷ ys) (append_nil xs)

-- The messages that a broadcast adds, and the number of its calls.
abbrev pub Reached : (bound : ℕ) (all : List (Sent Msg)) → Post Msg → Post Msg → Type 0
Reached bound all p q =
    (got : List (Sent Msg)) × Among got all × (q.sent ≡ p.sent ++ got) × (q.calls ≤ p.calls + bound)

module _ (answer : ℕ → Aeer) (m : Broadcast) (b_sync : Bool) (a : Am) where
  abbrev send_to : ℕ → Aeer → Post Msg → Aeer × Post Msg
  send_to n i p = send_retry answer b_sync (suc retry_times) i (to_app m (a.ah_app n)) p

  skip_app :
      (n : ℕ) (i : Aeer) (p : Post Msg)
      → (a.ah_app n == 0) ≡ true
      → broadcast_loop answer b_sync m a (suc n) i p
        ≡ broadcast_loop answer b_sync m a n i (delays_only (suc retry_times) p)
  unfolding broadcast_loop
  skip_app n i p e = rw e refl

  send_app :
      (n : ℕ) (i : Aeer) (p : Post Msg)
      → (a.ah_app n == 0) ≡ false
      → broadcast_loop answer b_sync m a (suc n) i p
        ≡ broadcast_loop answer b_sync m a n (send_to n i p).0 (send_to n i p).1
  unfolding broadcast_loop
  send_app n i p e = rw e refl

  -- The message of one application, then those of the rest.
  with_first :
      (n bound : ℕ) (p : Post Msg) (r : Aeer × Post Msg) (s : Post Msg)
      → Posted (to_app m (a.ah_app n)) (suc retry_times) p r
      → Reached bound (for_running m a.ah_app n) r.1 s
      → Reached (bound + suc retry_times) (to_app m (a.ah_app n) ∷ for_running m a.ah_app n) p s
  with_first n bound p r s (posted e sent c d) (got, among, g, b) = (
    to_app m (a.ah_app n) ∷ got,
    kept among,
    g ∙ ap (λ xs. xs ++ got) sent ∙ append_one p.sent (to_app m (a.ah_app n)) got,
    omega (arith, b, d),
  )
  with_first n bound p r s (given_up e sent c) (got, among, g, b) =
      (got, dropped among, g ∙ ap (λ xs. xs ++ got) sent, omega (arith, b, c))

  nothing : (i : Aeer) (p : Post Msg) → (broadcast_loop answer b_sync m a 0 i p).1.sent ≡ p.sent
  unfolding broadcast_loop
  nothing i p = refl

  no_code : (i : Aeer) (p : Post Msg) → (broadcast_loop answer b_sync m a 0 i p).0 ≡ i
  unfolding broadcast_loop
  no_code i p = refl

  nothing_called :
      (i : Aeer) (p : Post Msg) → (broadcast_loop answer b_sync m a 0 i p).1.calls ≤ p.calls + 0
  unfolding broadcast_loop
  nothing_called i p = omega arith

  loop_reaches :
      (n : ℕ) (i : Aeer) (p : Post Msg)
      → Reached
          (n * suc retry_times)
          (for_running m a.ah_app n)
          p
          (broadcast_loop answer b_sync m a n i p).1
  loop_reaches zero i p = ([], none_left, nothing i p ∙ sym (append_nil p.sent), nothing_called i p)
  loop_reaches (suc n) i p = elim (Bool-cases (a.ah_app n == 0)) [
    | inl e ↦
        let (got, among, g, b) = loop_reaches n i (delays_only (suc retry_times) p) in
        let same : for_running m a.ah_app (suc n) ≡ for_running m a.ah_app n = rw e refl in
        let on = skip_app n i p e in
        (
          got,
          subst (λ ys. Among got ys) (sym same) among,
          ap (λ r. r.1.sent) on ∙ g,
          omega (arith, b, ap (λ r. r.1.calls) on),
        )
    | inr e ↦
        let r = send_to n i p in
        let same : for_running m a.ah_app (suc n)
            ≡ to_app m (a.ah_app n) ∷ for_running m a.ah_app n =
          rw e refl in
        let on = send_app n i p e in
        let (got, among, g, b) =
          with_first n (n * suc retry_times) p r (broadcast_loop answer b_sync m a n r.0 r.1).1
            (send_retry-Posted answer b_sync (to_app m (a.ah_app n)) retry_times i p)
            (loop_reaches n r.0 r.1) in
        (
          got,
          subst (λ ys. Among got ys) (sym same) among,
          ap (λ r. r.1.sent) on ∙ g,
          omega (arith, b, ap (λ r. r.1.calls) on),
        )
  ]

  -- A broadcast ends. Each application that has a handle gets the message at most once, an application
  -- that registered later before one that registered earlier, nobody else gets it, and no application
  -- costs more than 11 calls.
  pub am_broadcast_msg-Reached :
      (p : Post Msg)
      → Reached
          (a.ui4_app_id * 11)
          (for_running m a.ah_app a.ui4_app_id)
          p
          (am_broadcast_msg answer m b_sync a p).1
  unfolding am_broadcast_msg
  am_broadcast_msg-Reached p = loop_reaches a.ui4_app_id none p

  -- The message of the first application, accepted.
  taken :
      (n : ℕ) (p : Post Msg) (r : Aeer × Post Msg)
      → Posted (to_app m (a.ah_app n)) (suc retry_times) p r
      → r.0 ≡ none
      → r.1.sent ≡ p.sent ++ to_app m (a.ah_app n) ∷ []
  taken n p r (posted e sent c d) o = sent
  taken n p r (given_up e sent c) o = absurd (e o)

  loop_delivers :
      (often : (k : ℕ) → (j : ℕ) × (j < 11) × (answer (k + j) ≡ none)) (n : ℕ) (p : Post Msg)
      → ((broadcast_loop answer b_sync m a n none p).0 ≡ none)
        × ((broadcast_loop answer b_sync m a n none p).1.sent ≡ p.sent ++ for_running m a.ah_app n)
  loop_delivers often zero p = (no_code none p, nothing none p ∙ sym (append_nil p.sent))
  loop_delivers often (suc n) p = elim (Bool-cases (a.ah_app n == 0)) [
    | inl e ↦
        let (o, g) = loop_delivers often n (delays_only (suc retry_times) p) in
        let same : for_running m a.ah_app (suc n) ≡ for_running m a.ah_app n = rw e refl in
        let on = skip_app n none p e in
        (ap (λ r. r.0) on ∙ o, ap (λ r. r.1.sent) on ∙ g ∙ ap (λ ys. p.sent ++ ys) (sym same))
    | inr e ↦
        let r = send_to n none p in
        let (j, early, hit) = often p.calls in
        let done =
          send_retry-none answer b_sync (to_app m (a.ah_app n)) (suc retry_times) j none p early
            hit in
        let got =
          taken n p r (send_retry-Posted answer b_sync (to_app m (a.ah_app n)) retry_times none p)
            done in
        let (o, g) = loop_delivers often n r.1 in
        let same : for_running m a.ah_app (suc n)
            ≡ to_app m (a.ah_app n) ∷ for_running m a.ah_app n =
          rw e refl in
        let on = send_app n none p e ∙ ap (λ i. broadcast_loop answer b_sync m a n i r.1) done in
        (
          ap (λ r. r.0) on ∙ o,
          ap (λ r. r.1.sent) on
              ∙ g
              ∙ ap (λ ys. ys ++ for_running m a.ah_app n) got
              ∙ append_one p.sent (to_app m (a.ah_app n)) (for_running m a.ah_app n)
              ∙ ap (λ ys. p.sent ++ ys) (sym same),
        )
  ]

  -- When of any 11 calls in a row one is answered with AEER_OK, a broadcast returns AMR_OK and gives the
  -- message to every application that has a handle, once, the one that registered last first.
  pub am_broadcast_msg-for_running :
      (often : (k : ℕ) → (j : ℕ) × (j < 11) × (answer (k + j) ≡ none)) (p : Post Msg)
      → ((am_broadcast_msg answer m b_sync a p).0 ≡ ok)
        × ((am_broadcast_msg answer m b_sync a p).1.sent
            ≡ p.sent ++ for_running m a.ah_app a.ui4_app_id)
  unfolding am_broadcast_msg
  am_broadcast_msg-for_running often p =
      let (o, g) = loop_delivers often a.ui4_app_id p in (ap amr_of o, g)
