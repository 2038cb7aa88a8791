-- ===== src/Crit/Examples.antt =====
-- Examples of os_pthread_crit.c: the thread 1 enters the section.
use multithreading.Prelude.{ℕ, true, [], ◌∷◌, length, ◌≡◌, ◌≢◌, refl, arith}
use multithreading.Crit.{
  calm, locking, entering, counting, Crit, go, asserts, aborted, count_up, start_first, lock,
  set_thread, count, Steps, stay, more,
}
use multithreading.Crit.Exclusive.{exclusive, asserted, IsFree}

abbrev empty : Crit
empty = record { mutex = 0; thread = 0; i2_selfcount = 0; places = λ k. calm [] }

abbrev trying : Crit
trying = record empty { places = go 1 (locking []) empty.places }

abbrev holding : Crit
holding = record trying { mutex = 1; places = go 1 (entering []) trying.places }

abbrev known : Crit
known = record holding { thread = 1; places = go 1 (counting []) holding.places }

abbrev inside : Crit
inside = count_up 1 [] known

one : ◌≢◌ {A = ℕ} 1 0
one e = absurd (omega (arith, e))

empty-IsFree : IsFree empty
empty-IsFree = (refl, refl, refl, λ t. refl)

inside_at : inside.places 1 ≡ calm (1 ∷ [])
unfolding count_up
inside_at = refl

then_inside : {r : Crit} → Steps inside r → Steps empty r
then_inside x = more (start_first 1 [] one refl (λ e. one (omega (arith, e)))) (
    more (lock 1 [] one refl refl)
      (more (set_thread 1 [] one refl) (more (count 1 [] one refl (omega arith)) x)))

exclusive_example : ◌≡◌ {A = ℕ} 1 1
exclusive_example =
    exclusive empty inside 1 1 1 1 [] [] empty-IsFree (then_inside stay) one one inside_at inside_at

asserted_example :
    (asserts 1 1 inside ≡ true)
    × (1 ≡ length {A = ℕ} (1 ∷ []))
    × ((u : ℕ) → u ≢ 0 → inside.places u ≢ aborted)
asserted_example = asserted empty inside 1 1 [] empty-IsFree (then_inside stay) one inside_at
