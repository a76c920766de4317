-- ===== src/Parse/EvalExpr/Balance.antt =====
-- `skip_paren_back` goes over the text of an expression.
use mathlib.Core.List.{reverse, reverse-reverse}
use aphros_test.Base.{
  ℕ, zero, suc, ◌-◌, ◌≡◌, refl, sym, ap, ◌∙◌, true, false, [], ◌∷◌, ◌++◌, Bytes, ◌==◌, arith, ok,
}
use aphros_test.Parse.EvalExpr.Syntax.{
  Expr, number, group, binary, blanks, blanks-cons, symbol, front, back, in_number, all_in_number,
  ends_number, IsProper, turn_cons,
}
use aphros_test.Parse.EvalExpr.{Op, add, sub, mul, div, rdiv, find_open, skip_paren_back, is_empty}

step_plain :
    (level c : ℕ) (left right : Bytes)
    → is_empty left ≡ false
    → (c == b')') ≡ false
    → (c == b'(') ≡ false
    → find_open level (c ∷ left) right ≡ find_open level left (c ∷ right)
unfolding find_open
step_plain level c [] right h k l = absurd (cc)
step_plain level c (d ∷ left) right h k l = rw (k, l) refl

step_close :
    (level : ℕ) (left right : Bytes)
    → is_empty left ≡ false
    → find_open level (b')' ∷ left) right ≡ find_open (suc level) left (b')' ∷ right)
unfolding find_open
step_close level [] right h = absurd (cc)
step_close level (d ∷ left) right h = refl

step_open :
    (level : ℕ) (left right : Bytes)
    → is_empty left ≡ false
    → find_open (suc level) (b'(' ∷ left) right ≡ find_open level left (b'(' ∷ right)
unfolding find_open
step_open level [] right h = absurd (cc)
step_open level (d ∷ left) right h =
    let lower : suc level - 1 ≡ level = omega arith in
    let inner : (suc level == 0) ≡ false = ground arith in rw (inner, lower) refl

pub blanks-is_empty : (n : ℕ) (s : Bytes) → is_empty s ≡ false → is_empty (blanks n s) ≡ false
blanks-is_empty zero s h = h
blanks-is_empty (suc n) s h = refl

pub symbol-is_empty : (op : Op) (s : Bytes) → is_empty (symbol op s) ≡ false
symbol-is_empty add s = refl
symbol-is_empty sub s = refl
symbol-is_empty mul s = refl
symbol-is_empty div s = refl
symbol-is_empty rdiv s = refl

append-is_empty : (r s : Bytes) → is_empty s ≡ false → is_empty (r ++ s) ≡ false
append-is_empty [] s h = h
append-is_empty (c ∷ r) s h = refl

pub back-is_empty :
    (e : Expr) (left : Bytes) → is_empty left ≡ false → is_empty (back e left) ≡ false
unfolding back
back-is_empty (number t) left h = append-is_empty (reverse t) left h
back-is_empty (group i e j) left h = refl
back-is_empty (binary op a i j b) left h =
    back-is_empty b (blanks j (symbol op (blanks i (back a left)))) (
      blanks-is_empty j (symbol op (blanks i (back a left)))
        (symbol-is_empty op (blanks i (back a left))))

find_blanks :
    (level n : ℕ) (left right : Bytes)
    → is_empty left ≡ false
    → find_open level (blanks n left) right ≡ find_open level left (blanks n right)
find_blanks level zero left right h = refl
find_blanks level (suc n) left right h =
    step_plain level b' ' (blanks n left) right (blanks-is_empty n left h) refl refl
    ∙ find_blanks level n left (b' ' ∷ right) h
    ∙ ap (find_open level left) (blanks-cons n right)

find_symbol :
    (op : Op) (level : ℕ) (left right : Bytes)
    → is_empty left ≡ false
    → find_open level (symbol op left) right ≡ find_open level left (symbol op right)
find_symbol add level left right h = step_plain level b'+' left right h refl refl
find_symbol sub level left right h = step_plain level b'-' left right h refl refl
find_symbol mul level left right h = step_plain level b'*' left right h refl refl
find_symbol div level left right h = step_plain level b'/' left right h refl refl
find_symbol rdiv level left right h =
    step_plain level b'/' (b'/' ∷ left) right refl refl refl
    ∙ step_plain level b'/' left (b'/' ∷ right) h refl refl

pub in_number_plain :
    (c p : ℕ)
    → in_number c p ≡ true
    → ((c == b')') ≡ false) × ((c == b'(') ≡ false) × ((c == b' ') ≡ false) × ((c == b'/') ≡ false)
in_number_plain c p h = (ground arith, ground arith, ground arith, ground arith)

pub in_number-head :
    (c : ℕ) (r : Bytes) → all_in_number (c ∷ r) ≡ true → (p : ℕ) × (in_number c p ≡ true)
in_number-head c [] h = (0, h)
in_number-head c (d ∷ r) h = (d, ground (arith, h))

pub all_in_number-tail : (c : ℕ) (r : Bytes) → all_in_number (c ∷ r) ≡ true → all_in_number r ≡ true
all_in_number-tail c [] h = refl
all_in_number-tail c (d ∷ r) h = ground (arith, h)

pub ends_all : (r : Bytes) → ends_number r ≡ true → all_in_number r ≡ true
ends_all [] h = refl
ends_all (c ∷ r) h = ground (arith, h)

find_number :
    (r : Bytes) (level : ℕ) (left right : Bytes)
    → is_empty left ≡ false
    → all_in_number r ≡ true
    → find_open level (r ++ left) right ≡ find_open level left (reverse r ++ right)
find_number [] level left right h k = refl
find_number (c ∷ r) level left right h k =
    let (p, q) = in_number-head c r k in
    let (close, opening, blank, slash) = in_number_plain c p q in
    step_plain level c (r ++ left) right (append-is_empty r left h) close opening
    ∙ find_number r level left (c ∷ right) h (all_in_number-tail c r k)
    ∙ ap (find_open level left) (sym (turn_cons c r right))

-- The search for the opening parenthesis ends behind an expression at the level it had before.
pub find_open-back :
    (e : Expr) (level : ℕ) (left right : Bytes)
    → IsProper e
    → is_empty left ≡ false
    → find_open level (back e left) right ≡ find_open level left (front e right)
unfolding front back IsProper
find_open-back (number t) level left right h k =
    find_number (reverse t) level left right k (ends_all (reverse t) h.1)
    ∙ ap (λ (s : Bytes). find_open level left (s ++ right)) (reverse-reverse t)
find_open-back (group i e j) level left right h k =
    let opening : Bytes = b'(' ∷ left in
    let text : Bytes = front e (blanks j (b')' ∷ right)) in
    step_close level (blanks j (back e (blanks i opening))) right (
      blanks-is_empty j (back e (blanks i opening))
        (back-is_empty e (blanks i opening) (blanks-is_empty i opening refl)))
    ∙ find_blanks (suc level) j (back e (blanks i opening)) (b')' ∷ right)
        (back-is_empty e (blanks i opening) (blanks-is_empty i opening refl))
    ∙ find_open-back e (suc level) (blanks i opening) (blanks j (b')' ∷ right)) h
        (blanks-is_empty i opening refl)
    ∙ find_blanks (suc level) i opening text refl
    ∙ step_open level left (blanks i text) k
find_open-back (binary op a i j b) level left right (ha, hb, f) k =
    let below : Bytes = back a left in
    let filled : is_empty below ≡ false = back-is_empty a left k in
    let operator : Bytes = symbol op (blanks i below) in
    find_open-back b level (blanks j operator) right hb
      (blanks-is_empty j operator (symbol-is_empty op (blanks i below)))
    ∙ find_blanks level j operator (front b right) (symbol-is_empty op (blanks i below))
    ∙ find_symbol op level (blanks i below) (blanks j (front b right))
        (blanks-is_empty i below filled)
    ∙ find_blanks level i below (symbol op (blanks j (front b right))) filled
    ∙ find_open-back a level left (blanks i (symbol op (blanks j (front b right)))) ha k

-- From the closing parenthesis of a group to its opening one.
pub skip-group :
    (i j : ℕ) (e : Expr) (left right : Bytes)
    → IsProper e
    → skip_paren_back b')' (blanks j (back e (blanks i (b'(' ∷ left)))) right
      ≡ ok (true, (left, b'(' ∷ blanks i (front e (blanks j (b')' ∷ right)))))
unfolding skip_paren_back find_open
skip-group i j e left right h =
    let opening : Bytes = b'(' ∷ left in
    find_blanks 0 j (back e (blanks i opening)) (b')' ∷ right)
      (back-is_empty e (blanks i opening) (blanks-is_empty i opening refl))
    ∙ find_open-back e 0 (blanks i opening) (blanks j (b')' ∷ right)) h
        (blanks-is_empty i opening refl)
    ∙ find_blanks 0 i opening (front e (blanks j (b')' ∷ right))) refl
    ∙ last left (blanks i (front e (blanks j (b')' ∷ right))))
  where
    last : (l r : Bytes) → find_open 0 (b'(' ∷ l) r ≡ ok (true, (l, b'(' ∷ r))
    last [] r = refl
    last (d ∷ l) r = refl
