-- ===== src/Parse/EvalExpr/Ends.antt =====
-- The ends of the text of an expression, and the text turned round.
use mathlib.Core.List.{reverse, reverse-reverse}
use aphros_test.Base.{
  ℕ, zero, suc, ◌≡◌, refl, sym, ap, ◌∙◌, Bool, true, false, [], ◌∷◌, ◌++◌, append-nil, Bytes, ◌==◌,
  if◌then◌else◌, arith,
}
use aphros_test.Parse.EvalExpr.Balance.{in_number_plain, in_number-head, ends_all}
use aphros_test.Parse.EvalExpr.Syntax.{
  Expr, number, group, binary, blanks, front, back, in_number, ends_number, begins_number, exponent,
  sign, IsProper, turn_cons, turn_blanks, reverse-front,
}
use aphros_test.Parse.EvalExpr.{previous, is_sum, is_product, strip_front, strip_back, tail}

-- A text that begins with a character other than a space.
abbrev pub Begins : Bytes → Type 0
Begins s = (c : ℕ) × (t : Bytes) × (s ≡ c ∷ t) × ((c == b' ') ≡ false)

-- A reversed text that begins with a character of a number or with a parenthesis.
abbrev pub Ends : Bytes → Type 0
Ends s =
    (c : ℕ) × (l : Bytes) × (s ≡ c ∷ l)
    × ((c == b' ') ≡ false)
    × ((c == b'/') ≡ false)
    × (exponent c ≡ false)

number-Begins : (t right : Bytes) → begins_number t ≡ true → Begins (t ++ right)
number-Begins [] right h = absurd (cc)
number-Begins (c ∷ t) right h = (c, t ++ right, refl, ground (arith, h))

pub front-Begins : (e : Expr) (right : Bytes) → IsProper e → Begins (front e right)
unfolding front IsProper
front-Begins (number t) right h = number-Begins t right h.0
front-Begins (group i e j) right h = (b'(', _, refl, refl)
front-Begins (binary op a i j b) right h = front-Begins a _ h.0

number-Ends : (r left : Bytes) → ends_number r ≡ true → Ends (r ++ left)
number-Ends [] left h = absurd (cc)
number-Ends (c ∷ r) left h =
    let (p, q) = in_number-head c r (ends_all (c ∷ r) h) in
    let (close, opening, blank, slash) = in_number_plain c p q in
    (c, r ++ left, refl, blank, slash, ground (arith, h))

pub back-Ends : (e : Expr) (left : Bytes) → IsProper e → Ends (back e left)
unfolding back IsProper
back-Ends (number t) left h = number-Ends (reverse t) left h.1
back-Ends (group i e j) left h = (b')', _, refl, refl, refl, refl)
back-Ends (binary op a i j b) left h = back-Ends b _ h.1

pub strip_front-blanks :
    (n before : ℕ) (s : Bytes) → Begins s → (b : ℕ) × (strip_front before (blanks n s) ≡ (b, s))
unfolding strip_front
strip_front-blanks zero before s (c, t, e, h) = (
  before,
  ap (strip_front before) e
      ∙ ap (λ (x : Bool). if x then strip_front c t else (before, c ∷ t)) h
      ∙ ap (λ (x : Bytes). (before, x)) (sym e),
)
strip_front-blanks (suc n) before s h = strip_front-blanks n b' ' s h

pub strip_back-blanks : (n : ℕ) (s : Bytes) → Ends s → strip_back (blanks n s) ≡ s
unfolding strip_back
strip_back-blanks zero s (c, l, e, h, x, y) =
    ap strip_back e ∙ ap (λ (b : Bool). if b then strip_back l else c ∷ l) h ∙ sym e
strip_back-blanks (suc n) s h = strip_back-blanks n s h

-- What stands in front of an operator is not the e of a number, and no slash.
pub previous-blanks :
    (n before : ℕ) (s : Bytes)
    → Ends s
    → (exponent (previous before (blanks n s)) ≡ false)
      × ((previous before (blanks n s) == b'/') ≡ false)
previous-blanks zero before s (c, l, e, h, slash, x) = (
  ap (λ (t : Bytes). exponent (previous before t)) e ∙ x,
  ap (λ (t : Bytes). previous before t == b'/') e ∙ slash,
)
previous-blanks (suc n) before s h = (refl, refl)

pub reverse-text : (e : Expr) (j : ℕ) → reverse (front e (blanks j [])) ≡ blanks j (back e [])
reverse-text e j =
    sym (append-nil (reverse (front e (blanks j []))))
    ∙ reverse-front e (blanks j []) []
    ∙ turn_blanks j [] (back e [])

pub reverse-back : (e : Expr) (i : ℕ) → reverse (blanks i (back e [])) ≡ front e (blanks i [])
reverse-back e i = ap reverse (sym (reverse-text e i)) ∙ reverse-reverse (front e (blanks i []))

pub reverse-group :
    (i j : ℕ) (e : Expr)
    → tail (reverse (blanks j (back e (blanks i (b'(' ∷ []))))) ≡ blanks i (front e (blanks j []))
reverse-group i j e =
    let inside : Bytes = blanks i (front e (blanks j [])) in
    let turned : reverse (b'(' ∷ inside) ≡ blanks j (back e (blanks i (b'(' ∷ []))) =
      sym (append-nil (reverse (b'(' ∷ inside)))
      ∙ turn_cons b'(' inside []
      ∙ turn_blanks i (front e (blanks j [])) (b'(' ∷ [])
      ∙ reverse-front e (blanks j []) (blanks i (b'(' ∷ []))
      ∙ turn_blanks j [] (back e (blanks i (b'(' ∷ []))) in
    ap (λ (s : Bytes). tail (reverse s)) (sym turned) ∙ ap tail (reverse-reverse (b'(' ∷ inside))

pub digit_sum : (c p : ℕ) → in_number c p ≡ true → is_sum c p ≡ false
digit_sum c p h = ground (arith, h)

pub first_sum : (c p : ℕ) → in_number c 0 ≡ true → is_sum c p ≡ false
first_sum c p h = ground (arith, h)

pub digit_product : (c p q : ℕ) → in_number c q ≡ true → is_product c p ≡ false
digit_product c p q h = ground (arith, h)

pub sign_sum : (c p : ℕ) → sign c ≡ true → exponent p ≡ false → is_sum c p ≡ true
sign_sum c p h k = ground (arith, h, k)
