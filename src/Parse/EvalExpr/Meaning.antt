-- ===== src/Parse/EvalExpr/Meaning.antt =====
-- `EvalExpr` gives the meaning of the expression that a text stands for.
use mathlib.Core.List.{reverse}
use aphros_test.Base.{
  ℕ, zero, suc, ◌<◌, ◌≡◌, ap, ◌∙◌, Bool-cases, inl, inr, [], Bytes, arith, Result, length,
}
use aphros_test.Parse.EvalExpr.Balance.{blanks-is_empty, symbol-is_empty}
use aphros_test.Parse.EvalExpr.Ends.{
  front-Begins, back-Ends, strip_front-blanks, strip_back-blanks, reverse-text,
}
use aphros_test.Parse.EvalExpr.Operations.{
  op_char, stripped_open, stripped_group, open_additive, open_product, stripped_number,
}
use aphros_test.Parse.EvalExpr.Syntax.{
  Expr, number, group, binary, blanks, symbol, front, back, IsProper, is_additive, depth,
  depth-front, meaning, apply_op, length-blanks,
}
use aphros_test.Parse.EvalExpr.{
  Op, Arithmetic, Scalar, both, strip_back, eval_stripped, eval, eval_expr,
}

module _ (A : Arithmetic) where
  -- Fuel below which every expression is evaluated.
  abbrev Evaluates : ℕ → Type 0
  Evaluates fuel =
      (e : Expr) (i j before : ℕ)
      → IsProper e
      → depth e < fuel
      → eval A fuel before (blanks i (front e (blanks j []))) ≡ meaning A e

  eval-stripped :
      (fuel before i j : ℕ) (e : Expr)
      → IsProper e
      → (b : ℕ) × (eval A (suc fuel) before (blanks i (front e (blanks j [])))
          ≡ eval_stripped A (λ c t. eval A fuel c t) b (back e []))
  unfolding eval
  eval-stripped fuel before i j e h =
      let text : Bytes = front e (blanks j []) in
      let (b, stripped) = strip_front-blanks i before text (front-Begins e (blanks j []) h) in
      (
        b,
        ap
              (λ (p : ℕ × Bytes).
                eval_stripped A (λ c t. eval A fuel c t) p.0 (strip_back (reverse p.1)))
              stripped
            ∙ ap (λ (s : Bytes). eval_stripped A (λ c t. eval A fuel c t) b s)
                (ap strip_back (reverse-text e j)
                  ∙ strip_back-blanks j (back e []) (back-Ends e [] h)),
      )

  eval-binary :
      (fuel before : ℕ) (op : Op) (a : Expr) (i j : ℕ) (b : Expr)
      → IsProper (binary op a i j b)
      → eval_stripped A (λ c t. eval A fuel c t) before (back (binary op a i j b) [])
        ≡ both A
            (A.right_first op)
            (apply_op A op)
            (eval A fuel before (front a (blanks i [])))
            (eval A fuel (op_char op) (blanks j (front b [])))
  unfolding back IsProper
  eval-binary fuel before op a i j b (ha, hb, fit) =
      stripped_open A (λ c t. eval A fuel c t) before b
        (blanks j (symbol op (blanks i (back a [])))) hb
        (blanks-is_empty j (symbol op (blanks i (back a [])))
          (symbol-is_empty op (blanks i (back a []))))
      ∙ elim (Bool-cases (is_additive op)) [
        | inl k ↦
            open_additive A (λ c t. eval A fuel c t) before op a i j b ha hb k (ground (arith, fit))
        | inr k ↦
            open_product A (λ c t. eval A fuel c t) before op a i j b (ha, hb, fit) ha hb k
              (ground (arith, fit, k))
      ]

  eval_body :
      (fuel before : ℕ) (e : Expr)
      → Evaluates fuel
      → IsProper e
      → depth e < suc fuel
      → eval_stripped A (λ c t. eval A fuel c t) before (back e []) ≡ meaning A e
  unfolding IsProper depth meaning
  eval_body fuel before (number t) ih h n = stripped_number A (λ c t. eval A fuel c t) before t h
  eval_body fuel before (group i e j) ih h n =
      stripped_group A (λ c t. eval A fuel c t) before i j e h ∙ ih e i j b'(' h (omega (arith, n))
  eval_body fuel before (binary op a i j b) ih h n =
      eval-binary fuel before op a i j b h
      ∙ ap
          (λ (x : Result (Scalar A)).
            both A (A.right_first op) (apply_op A op) x
              (eval A fuel (op_char op) (blanks j (front b []))))
          (ih a 0 i before h.0 (omega (arith, n)))
      ∙ ap (both A (A.right_first op) (apply_op A op) (meaning A a))
          (ih b j 0 (op_char op) h.1 (omega (arith, n)))

  evaluates : (fuel : ℕ) → Evaluates fuel
  evaluates zero e i j before h n = absurd (omega (arith, n))
  evaluates (suc fuel) e i j before h n =
      let (b, q) = eval-stripped fuel before i j e h in q ∙ eval_body fuel b e (evaluates fuel) h n

  -- `EvalExpr` of the text of a tree, with any spaces round it and round its operators, is the meaning
  -- of the tree: operators of one level from left to right, and `//` as the division of rounded
  -- numbers. Where both operands of an operation fail, the outcome is that of the operand which the
  -- compiler evaluates first. The tree has parentheses where the order of operations asks for them,
  -- and its numbers hold no spaces, parentheses and operators, signs behind e and E excepted; they do
  -- not end in e or E.
  pub eval_expr-front :
      (e : Expr) (i j before : ℕ)
      → IsProper e
      → eval_expr A before (blanks i (front e (blanks j []))) ≡ meaning A e
  unfolding eval_expr
  eval_expr-front e i j before h =
      evaluates (suc (length (blanks i (front e (blanks j []))))) e i j before h
        (omega (arith, depth-front e (blanks j []), length-blanks i (front e (blanks j []))))
