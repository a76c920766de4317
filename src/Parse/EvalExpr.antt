-- ===== src/Parse/EvalExpr.antt =====
-- `EvalExpr` of parse/evalexpr.cpp. A range of iterators is the text between them and the character
-- before it, since one test reads that character; a scan from the end holds the part in front of
-- its position reversed. A read in front of the text, an `int` division by zero and an overflow of
-- it are undefined.
pub mod Syntax
pub mod Scan
pub mod Balance
pub mod Ends
pub mod Operations
pub mod Meaning
pub mod Ending
use mathlib.Core.List.{reverse}
use aphros_test.Base.{
  ℕ, zero, suc, ◌+◌, ◌-◌, ◌/◌, Bool, true, false, not, ◌&&◌, ◌||◌, List, [], ◌∷◌, Option, none,
  some, Bytes, ◌==◌, leb, if◌then◌else◌, length, unmatched_paren, empty_expression,
  unknown_operation, not_a_number, trailing_characters, out_of_range, out_of_fuel, undefined,
  Result, ok, err, ◌>>=◌,
}
use aphros_test.Parse.Number.{ℤ, pos, negsuc, int_max, got, failed, untouched, StreamNumber}

-- The operations that `EvalOp` tells apart; `rdiv` is `//`.
pub data Op : Type 0 where
  add sub mul div rdiv : Op

-- The operations of the scalar type; `round` is `int(std::round(a))`, where an `int` holds it. The
-- language leaves open which operand of an operation is evaluated first: `right_first` is what the
-- compiler takes for each.
pub record Arithmetic : Type 1 where
  pub number : StreamNumber
  pub plus : number.Value → number.Value → number.Value
  pub minus : number.Value → number.Value → number.Value
  pub times : number.Value → number.Value → number.Value
  pub divide : number.Value → number.Value → number.Value
  pub round : number.Value → Option ℤ
  pub of_int : ℤ → number.Value
  pub right_first : Op → Bool

abbrev negated : ℕ → ℤ
negated zero = pos 0
negated (suc n) = negsuc n

-- `/` of `int`, towards zero. A division by zero and an overflow are undefined.
unfoldable pub div_int : ℤ → ℤ → Result ℤ
div_int a (pos zero) = err undefined
div_int (pos a) (pos (suc b)) = ok (pos (a / suc b))
div_int (pos a) (negsuc b) = ok (negated (a / suc b))
div_int (negsuc a) (pos (suc b)) = ok (negated (suc a / suc b))
div_int (negsuc a) (negsuc b) =
    if leb (suc a / suc b) int_max then ok (pos (suc a / suc b)) else err undefined

-- The level of the parentheses, less one, behind a character.
abbrev pub new_level : ℕ → ℕ → ℕ
new_level c level = if c == b')' then suc level else if c == b'(' then level - 1 else level

-- What a scan holds: the part in front of its position, reversed, and the part from it on.
abbrev pub Position : Type 0
Position = Bytes × Bytes

-- The loop of `skip_paren_back`, which steps in front of the text before it looks where it is:
-- whether the matching parenthesis is found, and where it stops.
unfoldable pub find_open : ℕ → Bytes → Bytes → Result (Bool × Position)
find_open level [] right = err undefined
find_open level (c ∷ []) right =
    if c == b'(' then ok (level == 0, ([], c ∷ right)) else err unmatched_paren
find_open level (c ∷ d ∷ left) right =
    let next = find_open (new_level c level) (d ∷ left) (c ∷ right) in
    if (c == b'(') && (level == 0) then ok (true, (d ∷ left, c ∷ right)) else next

-- `skip_paren_back` at the character `c`.
unfoldable pub skip_paren_back : ℕ → Bytes → Bytes → Result (Bool × Position)
unfolding find_open
skip_paren_back c left right =
    if c == b')' then find_open 0 left (c ∷ right) else ok (false, (left, c ∷ right))

-- `*(pos - 1)`
abbrev pub previous : ℕ → Bytes → ℕ
previous before [] = before
previous before (c ∷ left) = c

abbrev pub is_sum : ℕ → ℕ → Bool
is_sum c prev = ((c == b'+') || (c == b'-')) && (not (prev == b'e') && not (prev == b'E'))

abbrev pub is_product : ℕ → ℕ → Bool
is_product c prev = (c == b'*') || (c == b'/')

-- An operation: the left operand, reversed, the operator, and the right operand.
pub record Split : Type 0 where
  pub left : Bytes
  pub op : ℕ
  pub right : Bytes

-- A round of the loops that look for the last operation, behind `skip_paren_back`, with the rest of
-- the loop.
unfoldable pub examine :
    (ℕ → ℕ → Bool)
    → ℕ
    → (Bytes → Bytes → Result (Option Split))
    → Result (Bool × Position)
    → Result (Option Split)
examine test before loop (err e) = err e
examine test before loop (ok (skipped, (l, []))) = err out_of_range
examine test before loop (ok (skipped, (l, p ∷ r))) = elim (test p (previous before l)) [
  | true ↦ ok (some (record { left = l; op = p; right = r }))
  | false ↦ loop l (p ∷ r)
]

-- These loops, with fuel for each character.
unfoldable pub find_last : (ℕ → ℕ → Bool) → ℕ → ℕ → Bytes → Bytes → Result (Option Split)
unfolding skip_paren_back examine
find_last test fuel before [] right = ok none
find_last test zero before (c ∷ left) right = err out_of_fuel
find_last test (suc fuel) before (c ∷ left) right =
    examine test before (λ l r. find_last test fuel before l r) (skip_paren_back c left right)

-- The loop over the leading spaces, with the character before the rest.
unfoldable pub strip_front : ℕ → Bytes → ℕ × Bytes
strip_front before [] = (before, [])
strip_front before (c ∷ s) =
    let rest = strip_front c s in if c == b' ' then rest else (before, c ∷ s)

-- The loop over the trailing spaces of a reversed text.
unfoldable pub strip_back : Bytes → Bytes
strip_back [] = []
strip_back (c ∷ left) = let rest = strip_back left in if c == b' ' then rest else c ∷ left

abbrev pub tail : Bytes → Bytes
tail [] = []
tail (c ∷ s) = s

abbrev pub is_empty : Bytes → Bool
is_empty [] = true
is_empty (c ∷ s) = false

module _ (A : Arithmetic) where
  abbrev pub Scalar : Type 0
  Scalar = A.number.Value

  -- `Eval<T>(begin, end, origin)` of a text behind a character.
  abbrev pub Evaluator : Type 0
  Evaluator = ℕ → Bytes → Result Scalar

  -- `RoundDiv`
  unfoldable pub round_div : Scalar → Scalar → Result Scalar
  unfolding div_int
  round_div a b = elim (A.round a) [
    | none ↦ err undefined
    | some m ↦ elim (A.round b) [
      | none ↦ err undefined
      | some n ↦ div_int m n >>= λ q. ok (A.of_int q)
    ]
  ]

  -- `from_string`, with the checks of its status.
  unfoldable pub from_string : Bytes → Result Scalar
  from_string s = elim (A.number.read s) [
    | got a [] ↦ ok a
    | got a (c ∷ rest) ↦ err trailing_characters
    | failed a ended ↦ err not_a_number
    | untouched ↦ err not_a_number
  ]

  -- The two operands, in the order of the compiler.
  abbrev pub both :
      Bool → (Scalar → Scalar → Result Scalar) → Result Scalar → Result Scalar → Result Scalar
  both false f a b = a >>= λ x. b >>= λ y. f x y
  both true f a b = b >>= λ y. a >>= λ x. f x y

  -- `EvalOp`
  unfoldable pub eval_op : Evaluator → ℕ → Split → Result Scalar
  unfolding round_div
  eval_op eval before s =
      let right = eval s.op s.right in
      let left = eval before (reverse s.left) in
      if s.op == b'+'
      then both (A.right_first add) (λ x y. ok (A.plus x y)) left right
      else if s.op == b'-'
      then both (A.right_first sub) (λ x y. ok (A.minus x y)) left right
      else if s.op == b'*'
      then both (A.right_first mul) (λ x y. ok (A.times x y)) left right
      else if s.op == b'/'
      then (if previous 0 s.left == b'/'
          then both (A.right_first rdiv) round_div (eval before (reverse (tail s.left))) right
          else both (A.right_first div) (λ x y. ok (A.divide x y)) left right)
      else err unknown_operation

  -- What is done with the outcome of a search: `EvalOp`, or what follows the search.
  abbrev pub eval_found : Evaluator → ℕ → Result Scalar → Result (Option Split) → Result Scalar
  eval_found eval before otherwise (err e) = err e
  eval_found eval before otherwise (ok (some s)) = eval_op eval before s
  eval_found eval before otherwise (ok none) = otherwise

  -- What follows the test for parentheses round the whole text, which is given reversed.
  unfoldable pub eval_open : Evaluator → ℕ → Bytes → Result Scalar
  unfolding find_last eval_op from_string
  eval_open eval before left =
      eval_found eval before
        (eval_found eval before (from_string (reverse left))
          (find_last is_product (length left) before left []))
        (find_last is_sum (length left) before left [])

  -- Parentheses round the whole text end where the text begins.
  abbrev pub eval_enclosed :
      Evaluator → Bytes → Result Scalar → Result (Bool × Position) → Result Scalar
  eval_enclosed eval left otherwise (err e) = err e
  eval_enclosed eval left otherwise (ok (true, ([], r))) = eval b'(' (tail (reverse left))
  eval_enclosed eval left otherwise (ok (true, (c ∷ l, r))) = otherwise
  eval_enclosed eval left otherwise (ok (false, p)) = otherwise

  -- `Eval` of a text without spaces at its ends, reversed, with `eval` for its recursive calls.
  unfoldable pub eval_stripped : Evaluator → ℕ → Bytes → Result Scalar
  unfolding skip_paren_back eval_open
  eval_stripped eval before [] = err empty_expression
  eval_stripped eval before (c ∷ left) =
      eval_enclosed eval left (eval_open eval before (c ∷ left)) (skip_paren_back c left [])

  -- `Eval`, with fuel for each nested call.
  unfoldable pub eval : ℕ → Evaluator
  unfolding strip_front strip_back eval_stripped
  eval zero before s = err out_of_fuel
  eval (suc fuel) before s =
      let stripped = strip_front before s in
      eval_stripped (λ b t. eval fuel b t) stripped.0 (strip_back (reverse stripped.1))

  -- `EvalExpr`, where `before` is what the memory before the text holds.
  unfoldable pub eval_expr : ℕ → Bytes → Result Scalar
  unfolding eval
  eval_expr before s = eval (suc (length s)) before s
