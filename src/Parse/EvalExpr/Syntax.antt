-- ===== src/Parse/EvalExpr/Syntax.antt =====
-- Expressions as trees, the texts they stand for and their meanings, for parse/evalexpr.cpp.
use mathlib.Core.List.{reverse, reverse-append, reverse-cons}
use aphros_test.Base.{
  ℕ, zero, suc, ◌+◌, ◌≤◌, ◌≡◌, refl, ap, ◌∙◌, Bool, true, false, not, ◌&&◌, ◌||◌, [], ◌∷◌, ◌++◌,
  append_assoc, Bytes, ◌==◌, length, arith, length-append, Result, ok,
}
use aphros_test.Parse.EvalExpr.{
  Op, add, sub, mul, div, rdiv, Arithmetic, Scalar, both, round_div, from_string,
}

-- The numbers are the spaces within the parentheses and round an operator.
pub data Expr : Type 0 where
  number : Bytes → Expr
  group : ℕ → Expr → ℕ → Expr
  binary : Op → Expr → ℕ → ℕ → Expr → Expr

abbrev pub is_additive : Op → Bool
is_additive add = true
is_additive sub = true
is_additive _ = false

abbrev pub is_atom : Expr → Bool
is_atom (binary op a i j b) = false
is_atom _ = true

abbrev pub is_term : Expr → Bool
is_term (binary op a i j b) = not (is_additive op)
is_term _ = true

abbrev pub blanks : ℕ → Bytes → Bytes
blanks zero s = s
blanks (suc n) s = b' ' ∷ blanks n s

abbrev pub symbol : Op → Bytes → Bytes
symbol add s = b'+' ∷ s
symbol sub s = b'-' ∷ s
symbol mul s = b'*' ∷ s
symbol div s = b'/' ∷ s
symbol rdiv s = b'/' ∷ b'/' ∷ s

-- The text of an expression in front of another one.
unfoldable pub front : Expr → Bytes → Bytes
front (number t) right = t ++ right
front (group i e j) right = b'(' ∷ blanks i (front e (blanks j (b')' ∷ right)))
front (binary op a i j b) right = front a (blanks i (symbol op (blanks j (front b right))))

-- The same text reversed, behind another one.
unfoldable pub back : Expr → Bytes → Bytes
back (number t) left = reverse t ++ left
back (group i e j) left = b')' ∷ blanks j (back e (blanks i (b'(' ∷ left)))
back (binary op a i j b) left = back b (blanks j (symbol op (blanks i (back a left))))

abbrev pub exponent : ℕ → Bool
exponent c = (c == b'e') || (c == b'E')

abbrev pub sign : ℕ → Bool
sign c = (c == b'+') || (c == b'-')

-- A character of a number, by the one before it.
abbrev pub in_number : ℕ → ℕ → Bool
in_number c prev =
    not (c == b' ')
    && (not (c == b'(')
        && (not (c == b')')
            && (not (c == b'*') && (not (c == b'/') && (not (sign c) || exponent prev)))))

abbrev pub all_in_number : Bytes → Bool
all_in_number [] = true
all_in_number (c ∷ []) = in_number c 0
all_in_number (c ∷ d ∷ left) = in_number c d && all_in_number (d ∷ left)

abbrev pub ends_number : Bytes → Bool
ends_number [] = false
ends_number (c ∷ left) = not (exponent c) && all_in_number (c ∷ left)

abbrev pub begins_number : Bytes → Bool
begins_number [] = false
begins_number (c ∷ t) = not (c == b' ')

-- The text of a number: neither spaces, parentheses nor operators, but signs behind e and E; it
-- does not end in e or E.
abbrev pub IsNumber : Bytes → Type 0
IsNumber t = (begins_number t ≡ true) × (ends_number (reverse t) ≡ true)

abbrev pub fits : Op → Expr → Expr → Bool
fits op a b = is_term b && (is_additive op || (is_term a && is_atom b))

-- A tree that its text has: parentheses where the order of operations asks for them.
unfoldable pub IsProper : Expr → Type 0
IsProper (number t) = IsNumber t
IsProper (group i e j) = IsProper e
IsProper (binary op a i j b) = IsProper a × IsProper b × (fits op a b ≡ true)

unfoldable pub depth : Expr → ℕ
depth (number t) = 0
depth (group i e j) = suc (depth e)
depth (binary op a i j b) = suc (depth a + depth b)

module _ (A : Arithmetic) where
  abbrev pub apply_op : Op → Scalar A → Scalar A → Result (Scalar A)
  apply_op add x y = ok (A.plus x y)
  apply_op sub x y = ok (A.minus x y)
  apply_op mul x y = ok (A.times x y)
  apply_op div x y = ok (A.divide x y)
  apply_op rdiv x y = round_div A x y

  unfoldable pub meaning : Expr → Result (Scalar A)
  meaning (number t) = from_string A t
  meaning (group i e j) = meaning e
  meaning (binary op a i j b) = both A (A.right_first op) (apply_op op) (meaning a) (meaning b)

pub turn_cons : (c : ℕ) (s left : Bytes) → reverse (c ∷ s) ++ left ≡ reverse s ++ (c ∷ left)
turn_cons c s left =
    ap (λ (t : Bytes). t ++ left) (reverse-cons c s) ∙ append_assoc (reverse s) (c ∷ []) left

pub blanks-cons : (n : ℕ) (s : Bytes) → blanks n (b' ' ∷ s) ≡ b' ' ∷ blanks n s
blanks-cons zero s = refl
blanks-cons (suc n) s = ap (λ (t : Bytes). b' ' ∷ t) (blanks-cons n s)

pub turn_blanks :
    (n : ℕ) (s left : Bytes) → reverse (blanks n s) ++ left ≡ reverse s ++ blanks n left
turn_blanks zero s left = refl
turn_blanks (suc n) s left =
    turn_cons b' ' (blanks n s) left
    ∙ turn_blanks n s (b' ' ∷ left)
    ∙ ap (λ (t : Bytes). reverse s ++ t) (blanks-cons n left)

turn_symbol :
    (op : Op) (s left : Bytes) → reverse (symbol op s) ++ left ≡ reverse s ++ symbol op left
turn_symbol add s left = turn_cons b'+' s left
turn_symbol sub s left = turn_cons b'-' s left
turn_symbol mul s left = turn_cons b'*' s left
turn_symbol div s left = turn_cons b'/' s left
turn_symbol rdiv s left = turn_cons b'/' (b'/' ∷ s) left ∙ turn_cons b'/' s (b'/' ∷ left)

-- The text reversed is the reversed text.
pub reverse-front :
    (e : Expr) (right left : Bytes) → reverse (front e right) ++ left ≡ reverse right ++ back e left
unfolding front back
reverse-front (number t) right left =
    ap (λ (s : Bytes). s ++ left) (reverse-append t right)
    ∙ append_assoc (reverse right) (reverse t) left
reverse-front (group i e j) right left =
    turn_cons b'(' (blanks i (front e (blanks j (b')' ∷ right)))) left
    ∙ turn_blanks i (front e (blanks j (b')' ∷ right))) (b'(' ∷ left)
    ∙ reverse-front e (blanks j (b')' ∷ right)) (blanks i (b'(' ∷ left))
    ∙ turn_blanks j (b')' ∷ right) (back e (blanks i (b'(' ∷ left)))
    ∙ turn_cons b')' right (blanks j (back e (blanks i (b'(' ∷ left))))
reverse-front (binary op a i j b) right left =
    reverse-front a (blanks i (symbol op (blanks j (front b right)))) left
    ∙ turn_blanks i (symbol op (blanks j (front b right))) (back a left)
    ∙ turn_symbol op (blanks j (front b right)) (blanks i (back a left))
    ∙ turn_blanks j (front b right) (symbol op (blanks i (back a left)))
    ∙ reverse-front b right (blanks j (symbol op (blanks i (back a left))))

pub length-blanks : (n : ℕ) (s : Bytes) → length s ≤ length (blanks n s)
length-blanks zero s = omega arith
length-blanks (suc n) s = omega (arith, length-blanks n s)

length-symbol : (op : Op) (s : Bytes) → suc (length s) ≤ length (symbol op s)
length-symbol add s = omega arith
length-symbol sub s = omega arith
length-symbol mul s = omega arith
length-symbol div s = omega arith
length-symbol rdiv s = omega arith

-- A text is as long as its tree is deep.
pub depth-front : (e : Expr) (right : Bytes) → depth e + length right ≤ length (front e right)
unfolding depth front
depth-front (number t) right = omega (arith, length-append t right)
depth-front (group i e j) right = omega (
  arith,
  depth-front e (blanks j (b')' ∷ right)),
  length-blanks j (b')' ∷ right),
  length-blanks i (front e (blanks j (b')' ∷ right))),
)
depth-front (binary op a i j b) right = omega (
  arith,
  depth-front a (blanks i (symbol op (blanks j (front b right)))),
  length-blanks i (symbol op (blanks j (front b right))),
  length-symbol op (blanks j (front b right)),
  length-blanks j (front b right),
  depth-front b right,
)
