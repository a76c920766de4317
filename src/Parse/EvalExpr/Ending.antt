-- ===== src/Parse/EvalExpr/Ending.antt =====
-- The calls and the searches of `EvalExpr` come to an end on every text.
use aphros_test.Base.{
  ◌||◌, AllBytes, not, ℕ, ◌+◌, ◌≤◌, ◌<◌, ◌≡◌, Bool, true, false, ◌&&◌, [], ◌∷◌, Bytes, ◌==◌, Error,
  out_of_fuel, undefined, ok, err, Result, Option, none, some, length,
}
use aphros_test.Parse.EvalExpr.{Arithmetic, Evaluator, Position, Split}

abbrev Any : {B : Type 0} → B → Type 0
Any a = Unit {0}

module _ (strict : Bool) where
  -- Where `strict` is set, a character that leads to no undefined operation.
  abbrev calm : ℕ → Bool
  calm c = not strict || (not (c == b')') && not (c == b'/'))

  abbrev Calm : Bytes → Type 0
  Calm s = AllBytes calm s

  -- The end of the fuel, and where `strict` is set an undefined operation.
  abbrev is_excluded : Error → Bool
  is_excluded out_of_fuel = true
  is_excluded undefined = strict
  is_excluded _ = false

  -- A result is a value with a property, or an error that is not excluded.
  abbrev Ended : {B : Type 0} → (B → Type 0) → Result B → Type 0
  Ended P (ok a) = P a
  Ended P (err e) = is_excluded e ≡ false

  -- A scan that has gone back in a text.
  abbrev Within : Bytes → Bytes → Bool × Position → Type 0
  Within left right (k, (l, r)) =
      (length l ≤ length left)
      × (length l + length r ≡ length left + length right)
      × Calm l
      × Calm r

  -- The operands of an operation are shorter than the text.
  abbrev Shorter : Bytes → Bytes → Option Split → Type 0
  Shorter left right none = Unit {0}
  Shorter left right (some s) =
      (length s.left + length s.right < length left + length right)
      × Calm s.left
      × Calm s.right
      × (calm s.op ≡ true)

  module _ (A : Arithmetic) where
    -- An evaluator that ends on every text shorter than a bound.
    abbrev EndsBelow : ℕ → Evaluator A → Type 0
    EndsBelow n E = (before : ℕ) (s : Bytes) → Calm s → length s < n → Ended Any (E before s)

-- The text holds a character that an undefined operation needs.
abbrev pub has_risk : Bytes → Bool
has_risk [] = false
has_risk (c ∷ s) = (c == b')') || (c == b'/') || has_risk s
