-- ===== src/Tests/Expressions.antt =====
-- Runs of `EvalExpr`, with one digit for `double` and the operations of natural numbers.
use aphros_test.Base.{
  false, ◌+◌, ◌*◌, ◌-◌, ◌/◌, ◌≡◌, refl, [], some, ok, err, codes, empty_expression, unmatched_paren,
  undefined,
}
use aphros_test.Parse.EvalExpr.{Arithmetic, add, sub, mul, rdiv, eval_expr}
use aphros_test.Parse.EvalExpr.Meaning.{eval_expr-front}
use aphros_test.Parse.EvalExpr.Syntax.{Expr, number, group, binary, blanks, front, meaning}
use aphros_test.Parse.Number.{pos, negsuc}
use aphros_test.Tests.Numbers.{digit}

abbrev naturals : Arithmetic
naturals = record {
  number = digit;
  plus = λ x y. x - b'0' + y;
  minus = λ x y. x - y + b'0';
  times = λ x y. (x - b'0') * (y - b'0') + b'0';
  divide = λ x y. (x - b'0') / (y - b'0') + b'0';
  round = λ x. some (pos (x - b'0'));
  right_first = λ op. false;
  of_int = λ z. elim z [ pos n ↦ n + b'0' | negsuc n ↦ 0 ];
}

-- `7 - 2*(1 + 1)`, and `9//2*2`.
abbrev difference : Expr
difference = binary sub (number (codes "7")) 1 1 (
    binary mul (number (codes "2")) 0 0
      (group 0 (binary add (number (codes "1")) 1 1 (number (codes "1"))) 0))

abbrev quotient : Expr
quotient =
    binary mul (binary rdiv (number (codes "9")) 0 0 (number (codes "2"))) 0 0 (number (codes "2"))

difference_text : front difference [] ≡ codes "7 - 2*(1 + 1)"
unfolding front
difference_text = refl

eval_expr_difference : eval_expr naturals 0 (codes " 7 - 2*(1 + 1)") ≡ ok b'3'
unfolding eval_expr aphros_test.Tests.Numbers.read_one
eval_expr_difference = refl

eval_expr_quotient : eval_expr naturals 0 (codes "9//2*2") ≡ ok b'8'
unfolding eval_expr aphros_test.Tests.Numbers.read_one
eval_expr_quotient = refl

-- A sign in front of a number is an operator without a left operand.
eval_expr_sign : eval_expr naturals 0 (codes "-2") ≡ err empty_expression
unfolding eval_expr
eval_expr_sign = refl

eval_expr_unmatched : eval_expr naturals 0 (codes "1+2)") ≡ err unmatched_paren
unfolding eval_expr
eval_expr_unmatched = refl

-- A closing parenthesis at the beginning is looked for in front of the text.
eval_expr_before : eval_expr naturals 0 (codes ")") ≡ err undefined
unfolding eval_expr
eval_expr_before = refl

eval_expr-front_example :
    eval_expr naturals 0 (blanks 1 (front difference (blanks 1 []))) ≡ meaning naturals difference
unfolding aphros_test.Parse.EvalExpr.Syntax.IsProper
eval_expr-front_example =
    eval_expr-front naturals difference 1 1 0
      ((refl, refl), ((refl, refl), ((refl, refl), (refl, refl), refl), refl), refl)
