-- ===== src/Parse/Expand/Steps.antt =====
-- Every round of `ExpandVariables` lowers a measure, so the loop ends.
use aphros_test.Base.{
  ℕ, ◌+◌, ◌*◌, ◌<◌, ◌≡◌, refl, [], ◌∷◌, ◌++◌, Bytes, arith, length, Result, ok, err,
}
use aphros_test.Base.Machine.{Next, more, done}
use aphros_test.Parse.Expand.{
  Mode, normal, dollar, escape, varname, expand, varname_braced, stop, State, step_in, step,
}

abbrev rank : Mode → ℕ
rank stop = 0
rank normal = 1
rank expand = 2
rank escape = 2
rank varname = 3
rank varname_braced = 3
rank dollar = 4

abbrev pub measure : State → ℕ
measure s = length s.rest * 5 + rank s.mode

abbrev Falls : State → Next State Bytes → Type 0
Falls s (more t) = measure t < measure s
Falls s (done r) = Unit {0}

module _ (get : Bytes → Result Bytes) where
  expand_round-Falls :
      (x : Result Bytes) (s : State)
      → s.mode ≡ expand
      → Falls s (elim x [
        | ok v ↦ more (record s { res = s.res ++ v; varname = []; mode = normal })
        | err e ↦ done (err e)
      ])
  expand_round-Falls (ok v) s m = ground arith
  expand_round-Falls (err e) s m = tt

  step_in-Falls :
      (m : Mode) (s : State) (u : Bytes) → s.mode ≡ m → s.rest ≡ u → Falls s (step_in get m s)
  unfolding step_in
  step_in-Falls normal s [] e r = ground arith
  step_in-Falls normal s (c ∷ u) e r = ground arith
  step_in-Falls dollar s [] e r = ground arith
  step_in-Falls dollar s (c ∷ u) e r = ground arith
  step_in-Falls escape s [] e r = ground arith
  step_in-Falls escape s (c ∷ u) e r = ground arith
  step_in-Falls varname s [] e r = ground arith
  step_in-Falls varname s (c ∷ u) e r = ground arith
  step_in-Falls varname_braced s [] e r = ground arith
  step_in-Falls varname_braced s (c ∷ u) e r = ground arith
  step_in-Falls expand s u e r = expand_round-Falls (get s.varname) s e
  step_in-Falls stop s u e r = tt

  pub step_falls : (s t : State) → step get s ≡ more t → measure t < measure s
  unfolding step
  step_falls s t e = rw e at (step_in-Falls s.mode s s.rest refl refl)
