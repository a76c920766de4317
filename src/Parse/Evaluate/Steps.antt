-- ===== src/Parse/Evaluate/Steps.antt =====
-- Every round of `EvalExpressions` lowers a measure, so the loop ends.
use aphros_test.Base.{
  ℕ, ◌+◌, ◌*◌, ◌<◌, ◌≡◌, refl, [], ◌∷◌, ◌++◌, Bytes, arith, length, Result, ok, err,
}
use aphros_test.Base.Machine.{Next, more, done}
use aphros_test.Parse.Evaluate.{
  Mode, normal, dollar, escape, paren1, expr, parenclose1, evalexpr, stop, State, step_in, step,
}

abbrev rank : Mode → ℕ
rank stop = 0
rank normal = 1
rank escape = 2
rank evalexpr = 2
rank _ = 3

abbrev pub measure : State → ℕ
measure s = length s.rest * 4 + rank s.mode

abbrev Falls : State → Next State Bytes → Type 0
Falls s (more t) = measure t < measure s
Falls s (done r) = Unit {0}

module _ (eval : Bytes → Result Bytes) where
  evaluate_round-Falls :
      (x : Result Bytes) (s : State)
      → s.mode ≡ evalexpr
      → Falls s (elim x [
        | ok v ↦ more (record s { res = s.res ++ v; mode = normal })
        | err e ↦ done (err e)
      ])
  evaluate_round-Falls (ok v) s m = ground arith
  evaluate_round-Falls (err e) s m = tt

  step_in-Falls :
      (m : Mode) (s : State) (u : Bytes) → s.mode ≡ m → s.rest ≡ u → Falls s (step_in eval m s)
  unfolding step_in
  step_in-Falls normal s [] e r = ground arith
  step_in-Falls normal s (c ∷ u) e r = ground arith
  step_in-Falls dollar s [] e r = ground arith
  step_in-Falls dollar s (c ∷ u) e r = ground arith
  step_in-Falls escape s [] e r = ground arith
  step_in-Falls escape s (c ∷ u) e r = ground arith
  step_in-Falls paren1 s [] e r = ground arith
  step_in-Falls paren1 s (c ∷ u) e r = ground arith
  step_in-Falls expr s [] e r = ground arith
  step_in-Falls expr s (c ∷ u) e r = ground arith
  step_in-Falls parenclose1 s [] e r = ground arith
  step_in-Falls parenclose1 s (c ∷ u) e r = ground arith
  step_in-Falls evalexpr s u e r = evaluate_round-Falls (eval s.expr) s e
  step_in-Falls stop s u e r = tt

  pub step_falls : (s t : State) → step eval s ≡ more t → measure t < measure s
  unfolding step
  step_falls s t e = rw e at (step_in-Falls s.mode s s.rest refl refl)
