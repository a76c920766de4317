-- ===== src/Parse/EvalExpr/Operations.antt =====
-- `Eval` of the text of an expression evaluates the operands of its last operation.
use mathlib.Core.List.{reverse, reverse-reverse}
use aphros_test.Base.{
  ℕ, ◌≡◌, refl, ap, ◌∙◌, Bool, true, false, not, [], ◌∷◌, ◌++◌, append-nil, Bytes, ◌==◌,
  if◌then◌else◌, arith, ok, Result, Option, none, some, length,
}
use aphros_test.Parse.EvalExpr.Balance.{
  in_number_plain, in_number-head, ends_all, skip-group, blanks-is_empty, symbol-is_empty,
}
use aphros_test.Parse.EvalExpr.Ends.{
  back-Ends, previous-blanks, reverse-back, reverse-group, digit_sum, first_sum, digit_product,
  sign_sum,
}
use aphros_test.Parse.EvalExpr.Scan.{
  Finds, stop, hit, go_on_plain, over_blanks, over_atom, skip_plain,
}
use aphros_test.Parse.EvalExpr.Syntax.{
  Expr, number, group, binary, blanks, symbol, front, back, ends_number, IsProper, is_atom, is_term,
  is_additive, apply_op,
}
use aphros_test.Parse.EvalExpr.{
  Op, add, sub, mul, div, rdiv, Arithmetic, Scalar, Evaluator, both, previous, is_sum, is_product,
  Split, find_last, tail, is_empty, from_string, eval_op, eval_found, eval_open, eval_enclosed,
  eval_stripped,
}

-- The operator's last character, which stands before the right operand.
abbrev pub op_char : Op → ℕ
op_char add = b'+'
op_char sub = b'-'
op_char mul = b'*'
op_char div = b'/'
op_char rdiv = b'/'

module _ (before : ℕ) where
  sum_over_blanks :
      (n : ℕ) (left right : Bytes) (o : Option Split)
      → Finds is_sum before left (blanks n right) o
      → Finds is_sum before (blanks n left) right o
  sum_over_blanks = over_blanks is_sum before (λ p. refl) (λ p. refl) digit_sum first_sum

  sum_over_atom :
      (e : Expr) (left right : Bytes) (o : Option Split)
      → IsProper e
      → is_atom e ≡ true
      → Finds is_sum before left (front e right) o
      → Finds is_sum before (back e left) right o
  sum_over_atom = over_atom is_sum before (λ p. refl) (λ p. refl) digit_sum first_sum

  sum_over_symbol :
      (op : Op) (left right : Bytes) (o : Option Split)
      → is_additive op ≡ false
      → Finds is_sum before left (symbol op right) o
      → Finds is_sum before (symbol op left) right o
  sum_over_symbol mul left right o h f = go_on_plain is_sum before b'*' left right o refl refl f
  sum_over_symbol div left right o h f = go_on_plain is_sum before b'/' left right o refl refl f
  sum_over_symbol rdiv left right o h f =
      go_on_plain is_sum before b'/' (b'/' ∷ left) right o refl refl
        (go_on_plain is_sum before b'/' left (b'/' ∷ right) o refl refl f)
  sum_over_symbol add left right o h f = absurd (cc)
  sum_over_symbol sub left right o h f = absurd (cc)

  -- The search for a sum goes over a product.
  sum_over_term :
      (e : Expr) (left right : Bytes) (o : Option Split)
      → IsProper e
      → is_term e ≡ true
      → Finds is_sum before left (front e right) o
      → Finds is_sum before (back e left) right o
  unfolding front back IsProper
  sum_over_term (number t) left right o h k f = sum_over_atom (number t) left right o h refl f
  sum_over_term (group i e j) left right o h k f = sum_over_atom (group i e j) left right o h refl f
  sum_over_term (binary op a i j b) left right o (ha, hb, fit) k f =
      let low : is_additive op ≡ false = ground (arith, k) in
      let term : is_term a ≡ true = ground (arith, fit, low) in
      let atom : is_atom b ≡ true = ground (arith, fit, low) in
      sum_over_atom b (blanks j (symbol op (blanks i (back a left)))) right o hb atom (
        sum_over_blanks j (symbol op (blanks i (back a left))) (front b right) o (
          sum_over_symbol op (blanks i (back a left)) (blanks j (front b right)) o low (
            sum_over_blanks i (back a left) (symbol op (blanks j (front b right))) o (
              sum_over_term a left (blanks i (symbol op (blanks j (front b right)))) o ha term f))))

module _ (A : Arithmetic) (E : Evaluator A) (before : ℕ) where
  open_number :
      (r left : Bytes)
      → ends_number r ≡ true
      → eval_stripped A E before (r ++ left) ≡ eval_open A E before (r ++ left)
  unfolding eval_stripped
  open_number [] left h = absurd (cc)
  open_number (c ∷ r) left h =
      let (p, q) = in_number-head c r (ends_all (c ∷ r) h) in
      ap (eval_enclosed A E (r ++ left) (eval_open A E before (c ∷ (r ++ left))))
        (skip_plain is_sum before c (r ++ left) [] (in_number_plain c p q).0)

  -- Parentheses that enclose a part of a text are not stripped.
  pub stripped_open :
      (e : Expr) (left : Bytes)
      → IsProper e
      → is_empty left ≡ false
      → eval_stripped A E before (back e left) ≡ eval_open A E before (back e left)
  unfolding eval_stripped back IsProper
  stripped_open (number t) left h k = open_number (reverse t) left h.1
  stripped_open (group i e j) [] h k = absurd (cc)
  stripped_open (group i e j) (d ∷ left) h k =
      ap
        (eval_enclosed A E (blanks j (back e (blanks i (b'(' ∷ d ∷ left))))
          (eval_open A E before (b')' ∷ blanks j (back e (blanks i (b'(' ∷ d ∷ left))))))
        (skip-group i j e (d ∷ left) [] h)
  stripped_open (binary op a i j b) left h k =
      stripped_open b (blanks j (symbol op (blanks i (back a left)))) h.1 (
        blanks-is_empty j (symbol op (blanks i (back a left)))
          (symbol-is_empty op (blanks i (back a left))))

  pub stripped_group :
      (i j : ℕ) (e : Expr)
      → IsProper e
      → eval_stripped A E before (back (group i e j) []) ≡ E b'(' (blanks i (front e (blanks j [])))
  unfolding eval_stripped back
  stripped_group i j e h =
      ap
        (eval_enclosed A E (blanks j (back e (blanks i (b'(' ∷ []))))
          (eval_open A E before (b')' ∷ blanks j (back e (blanks i (b'(' ∷ []))))))
        (skip-group i j e [] [] h)
      ∙ ap (E b'(') (reverse-group i j e)

  -- The two operands of the last operation.
  abbrev operands : Op → Expr → ℕ → ℕ → Expr → Result (Scalar A)
  operands op a i j b =
      both A (A.right_first op) (apply_op A op) (E before (front a (blanks i [])))
        (E (op_char op) (blanks j (front b [])))

  found_sum :
      (left : Bytes) (s : Split)
      → Finds is_sum before left [] (some s)
      → eval_open A E before left ≡ eval_op A E before s
  unfolding eval_open
  found_sum left s f =
      ap
        (eval_found A E before (
          eval_found A E before (from_string A (reverse left))
            (find_last is_product (length left) before left [])))
        (f (length left) (omega arith))

  found_product :
      (left : Bytes) (o : Option Split)
      → Finds is_sum before left [] none
      → Finds is_product before left [] o
      → eval_open A E before left ≡ eval_found A E before (from_string A (reverse left)) (ok o)
  unfolding eval_open
  found_product left o f g =
      ap
        (eval_found A E before (
          eval_found A E before (from_string A (reverse left))
            (find_last is_product (length left) before left [])))
        (f (length left) (omega arith))
      ∙ ap (eval_found A E before (from_string A (reverse left))) (g (length left) (omega arith))

  pub open_additive :
      (op : Op) (a : Expr) (i j : ℕ) (b : Expr)
      → IsProper a
      → IsProper b
      → is_additive op ≡ true
      → is_term b ≡ true
      → eval_open A E before (back (binary op a i j b) []) ≡ operands op a i j b
  unfolding back eval_op
  open_additive add a i j b ha hb h k =
      found_sum (back b (blanks j (b'+' ∷ blanks i (back a [])))) _ (
        sum_over_term before b (blanks j (b'+' ∷ blanks i (back a []))) [] _ hb k (
          sum_over_blanks before j (b'+' ∷ blanks i (back a [])) (front b []) _ (
            hit is_sum before b'+' (blanks i (back a [])) (blanks j (front b [])) refl (
              sign_sum b'+' (previous before (blanks i (back a []))) refl
                (previous-blanks i before (back a []) (back-Ends a [] ha)).0))))
      ∙ ap
          (λ (s : Bytes).
            both A (A.right_first add) (apply_op A add) (E before s)
              (E b'+' (blanks j (front b []))))
          (reverse-back a i)
  open_additive sub a i j b ha hb h k =
      found_sum (back b (blanks j (b'-' ∷ blanks i (back a [])))) _ (
        sum_over_term before b (blanks j (b'-' ∷ blanks i (back a []))) [] _ hb k (
          sum_over_blanks before j (b'-' ∷ blanks i (back a [])) (front b []) _ (
            hit is_sum before b'-' (blanks i (back a [])) (blanks j (front b [])) refl (
              sign_sum b'-' (previous before (blanks i (back a []))) refl
                (previous-blanks i before (back a []) (back-Ends a [] ha)).0))))
      ∙ ap
          (λ (s : Bytes).
            both A (A.right_first sub) (apply_op A sub) (E before s)
              (E b'-' (blanks j (front b []))))
          (reverse-back a i)
  open_additive mul a i j b ha hb h k = absurd (cc)
  open_additive div a i j b ha hb h k = absurd (cc)
  open_additive rdiv a i j b ha hb h k = absurd (cc)

  found_in_product :
      (op : Op) (a : Expr) (i j : ℕ) (b : Expr) (s : Split)
      → IsProper (binary op a i j b)
      → is_additive op ≡ false
      → Finds is_product before (back (binary op a i j b) []) [] (some s)
      → eval_open A E before (back (binary op a i j b) []) ≡ eval_op A E before s
  found_in_product op a i j b s h k f =
      found_product (back (binary op a i j b) []) (some s)
        (sum_over_term before (binary op a i j b) [] [] none h (ap not k)
          (stop is_sum before (front (binary op a i j b) [])))
        f

  product_last :
      (c j : ℕ) (b : Expr) (left : Bytes)
      → IsProper b
      → is_atom b ≡ true
      → (c == b')') ≡ false
      → is_product c (previous before left) ≡ true
      → Finds is_product before
          (back b (blanks j (c ∷ left)))
          []
          (some (record { left = left; op = c; right = blanks j (front b []) }))
  product_last c j b left h k close test =
      over_atom is_product before (λ p. refl) (λ p. refl) (λ d p. digit_product d p p)
        (λ d p. digit_product d p 0) b (blanks j (c ∷ left)) [] _ h k
        (over_blanks is_product before (λ p. refl) (λ p. refl) (λ d p. digit_product d p p)
          (λ d p. digit_product d p 0) j (c ∷ left) (front b []) _
          (hit is_product before c left (blanks j (front b [])) close test))

  pub open_product :
      (op : Op) (a : Expr) (i j : ℕ) (b : Expr)
      → IsProper (binary op a i j b)
      → IsProper a
      → IsProper b
      → is_additive op ≡ false
      → is_atom b ≡ true
      → eval_open A E before (back (binary op a i j b) []) ≡ operands op a i j b
  unfolding back eval_op
  open_product mul a i j b h ha hb k l =
      found_in_product mul a i j b _ h refl
        (product_last b'*' j b (blanks i (back a [])) hb l refl refl)
      ∙ ap
          (λ (s : Bytes).
            both A (A.right_first mul) (apply_op A mul) (E before s)
              (E b'*' (blanks j (front b []))))
          (reverse-back a i)
  open_product div a i j b h ha hb k l =
      found_in_product div a i j b _ h refl
        (product_last b'/' j b (blanks i (back a [])) hb l refl refl)
      ∙ ap
          (λ (x : Bool).
            if x
            then both A (A.right_first rdiv) (apply_op A rdiv)
                (E before (reverse (tail (blanks i (back a []))))) (E b'/' (blanks j (front b [])))
            else both A (A.right_first div) (apply_op A div)
                (E before (reverse (blanks i (back a [])))) (E b'/' (blanks j (front b []))))
          (previous-blanks i 0 (back a []) (back-Ends a [] ha)).1
      ∙ ap
          (λ (s : Bytes).
            both A (A.right_first div) (apply_op A div) (E before s)
              (E b'/' (blanks j (front b []))))
          (reverse-back a i)
  open_product rdiv a i j b h ha hb k l =
      found_in_product rdiv a i j b _ h refl
        (product_last b'/' j b (b'/' ∷ blanks i (back a [])) hb l refl refl)
      ∙ ap
          (λ (s : Bytes).
            both A (A.right_first rdiv) (apply_op A rdiv) (E before s)
              (E b'/' (blanks j (front b []))))
          (reverse-back a i)
  open_product add a i j b h ha hb k l = absurd (cc)
  open_product sub a i j b h ha hb k l = absurd (cc)

  pub stripped_number :
      (t : Bytes)
      → IsProper (number t)
      → eval_stripped A E before (back (number t) []) ≡ from_string A t
  unfolding back IsProper front
  stripped_number t h =
      open_number (reverse t) [] h.1
      ∙ found_product (reverse t ++ []) none
          (sum_over_atom before (number t) [] [] none h refl (stop is_sum before (t ++ [])))
          (over_atom is_product before (λ p. refl) (λ p. refl) (λ d p. digit_product d p p)
            (λ d p. digit_product d p 0) (number t) [] [] none h refl
            (stop is_product before (t ++ [])))
      ∙ ap (λ (r : Bytes). from_string A (reverse r)) (append-nil (reverse t))
      ∙ ap (from_string A) (reverse-reverse t)
