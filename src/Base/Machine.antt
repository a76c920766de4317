-- ===== src/Base/Machine.antt =====
-- A loop over a state that ends with a result: `while (true) { step }` on fuel. With a measure
-- that every step lowers, the fuel does not matter, and the loop is its own equation.
use Prim.Native.Nat.{ℕ, zero, suc, ◌<◌}
use mathlib.Core.Path.{◌≡◌, refl, ◌∙◌}
use mathlib.Core.Logic.{◌≢◌}
use native.Mathlib.Omega.{arith}
use aphros_test.Base.Results.{Result, err, out_of_fuel}

pub data Next (S R : Type 0) : Type 0 where
  more : S → Next S R
  done : Result R → Next S R

unfoldable pub run : {S R : Type 0} → (S → Next S R) → ℕ → S → Result R
run step zero s = err out_of_fuel
run step (suc fuel) s = elim (step s) [ more t ↦ run step fuel t | done r ↦ r ]

Next-cases :
    {S R : Type 0} (P : Type 0) (n : Next S R)
    → ((t : S) → n ≡ more t → P)
    → ((r : Result R) → n ≡ done r → P)
    → P
Next-cases P (more t) f g = f t refl
Next-cases P (done r) f g = g r refl

module _ {S R : Type 0} (step : S → Next S R) (measure : S → ℕ)
    (falls : (s t : S) → step s ≡ more t → measure t < measure s) where
  -- Any fuel above the measure gives the same result.
  pub run_enough : (f g : ℕ) (s : S) → measure s < f → measure s < g → run step f s ≡ run step g s
  unfolding run
  run_enough zero g s h k = elim h [ ]
  run_enough (suc f) zero s h k = elim k [ ]
  run_enough (suc f) (suc g) s h k =
      Next-cases _ (step s)
        (λ t e.
          rw (e, run) (run_enough f g t (omega (arith, falls s t e)) (omega (arith, falls s t e))))
        (λ r e. rw (e, run))

  pub run_total :
      (f : ℕ) (s : S)
      → measure s < f
      → ((t : S) → step t ≢ done (err out_of_fuel))
      → run step f s ≢ err out_of_fuel
  unfolding run
  run_total zero s h n = elim h [ ]
  run_total (suc f) s h n =
      Next-cases _ (step s) (λ t e. rw (e, run) (run_total f t (omega (arith, falls s t e)) n))
        (λ r e. rw (e, run) (λ q. n s (rw q at e)))

  -- The loop with the fuel that its state needs.
  pub outcome : S → Result R
  outcome s = run step (suc (measure s)) s

  pub run-outcome : (f : ℕ) (s : S) → measure s < f → run step f s ≡ outcome s
  unfolding outcome
  run-outcome f s h = run_enough f (suc (measure s)) s h (omega arith)

  outcome_unfold :
      (s : S) → outcome s ≡ elim (step s) [ more t ↦ run step (measure s) t | done r ↦ r ]
  unfolding outcome run
  outcome_unfold s = refl

  pub outcome_more : (s t : S) → step s ≡ more t → outcome s ≡ outcome t
  outcome_more s t e = outcome_unfold s ∙ (rw e (run-outcome (measure s) t (falls s t e)))

  pub outcome_done : (s : S) (r : Result R) → step s ≡ done r → outcome s ≡ r
  outcome_done s r e = outcome_unfold s ∙ (rw e)
