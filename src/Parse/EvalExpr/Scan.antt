-- ===== src/Parse/EvalExpr/Scan.antt =====
-- The search for the last operation goes over the parts of an expression that hold none of its own.
use mathlib.Core.List.{reverse, reverse-reverse}
use aphros_test.Base.{
  ℕ, zero, suc, ◌≤◌, ◌≡◌, refl, sym, ap, subst, ◌∙◌, Bool, true, false, [], ◌∷◌, ◌++◌, Bytes, ◌==◌,
  arith, ok, Result, Option, none, some, length, length-append,
}
use aphros_test.Parse.EvalExpr.Balance.{
  in_number_plain, in_number-head, all_in_number-tail, ends_all, skip-group,
}
use aphros_test.Parse.EvalExpr.Syntax.{
  Expr, number, group, binary, blanks, blanks-cons, symbol, front, back, in_number, all_in_number,
  IsProper, is_atom, turn_cons,
}
use aphros_test.Parse.EvalExpr.{
  Op, add, sub, mul, div, rdiv, skip_paren_back, previous, Split, examine, find_last,
}

-- The loop from a position on, with fuel for each character, has an outcome.
abbrev pub Finds : (ℕ → ℕ → Bool) → ℕ → Bytes → Bytes → Option Split → Type 0
Finds test before left right o =
    (fuel : ℕ) → length left ≤ fuel → find_last test fuel before left right ≡ ok o

module _ (test : ℕ → ℕ → Bool) (before : ℕ) where
  pub stop : (right : Bytes) → Finds test before [] right none
  unfolding find_last
  stop right zero h = refl
  stop right (suc fuel) h = refl

  abbrev decided : Bool → ℕ → Bytes → ℕ → Bytes → Result (Option Split)
  decided b fuel l p r = elim b [
    | true ↦ ok (some (record { left = l; op = p; right = r }))
    | false ↦ find_last test fuel before l (p ∷ r)
  ]

  go_on :
      (c : ℕ) (left right : Bytes) (k : Bool) (l : Bytes) (p : ℕ) (r : Bytes) (o : Option Split)
      → skip_paren_back c left right ≡ ok (k, (l, p ∷ r))
      → test p (previous before l) ≡ false
      → length l ≤ length left
      → Finds test before l (p ∷ r) o
      → Finds test before (c ∷ left) right o
  unfolding find_last examine
  go_on c left right k l p r o h t n f zero m = absurd (omega (arith, m))
  go_on c left right k l p r o h t n f (suc fuel) m =
      ap (examine test before (λ x y. find_last test fuel before x y)) h
      ∙ ap (λ (b : Bool). decided b fuel l p r) t
      ∙ f fuel (omega (arith, m, n))

  pub skip_plain :
      (c : ℕ) (left right : Bytes)
      → (c == b')') ≡ false
      → skip_paren_back c left right ≡ ok (false, (left, c ∷ right))
  unfolding skip_paren_back
  skip_plain c left right h = rw h refl

  pub go_on_plain :
      (c : ℕ) (left right : Bytes) (o : Option Split)
      → (c == b')') ≡ false
      → test c (previous before left) ≡ false
      → Finds test before left (c ∷ right) o
      → Finds test before (c ∷ left) right o
  go_on_plain c left right o h t =
      go_on c left right false left c right o (skip_plain c left right h) t (omega arith)

  -- An operation that the test takes is the outcome.
  pub hit :
      (c : ℕ) (left right : Bytes)
      → (c == b')') ≡ false
      → test c (previous before left) ≡ true
      → Finds test before (c ∷ left) right (some (record { left = left; op = c; right = right }))
  unfolding find_last examine
  hit c left right h t zero m = absurd (omega (arith, m))
  hit c left right h t (suc fuel) m =
      ap (examine test before (λ x y. find_last test fuel before x y)) (skip_plain c left right h)
      ∙ ap (λ (b : Bool). decided b fuel left c right) t

  length-blanks_le : (n : ℕ) (s : Bytes) → length s ≤ length (blanks n s)
  length-blanks_le zero s = omega arith
  length-blanks_le (suc n) s = omega (arith, length-blanks_le n s)

  length-symbol_le : (op : Op) (s : Bytes) → length s ≤ length (symbol op s)
  length-symbol_le add s = omega arith
  length-symbol_le sub s = omega arith
  length-symbol_le mul s = omega arith
  length-symbol_le div s = omega arith
  length-symbol_le rdiv s = omega arith

  length-back : (e : Expr) (left : Bytes) → length left ≤ length (back e left)
  unfolding back
  length-back (number t) left = omega (arith, length-append (reverse t) left)
  length-back (group i e j) left = omega (
    arith,
    length-blanks_le j (back e (blanks i (b'(' ∷ left))),
    length-back e (blanks i (b'(' ∷ left)),
    length-blanks_le i (b'(' ∷ left),
  )
  length-back (binary op a i j b) left = omega (
    arith,
    length-back b (blanks j (symbol op (blanks i (back a left)))),
    length-blanks_le j (symbol op (blanks i (back a left))),
    length-symbol_le op (blanks i (back a left)),
    length-blanks_le i (back a left),
    length-back a left,
  )

  module _ (blank : (p : ℕ) → test b' ' p ≡ false) (paren : (p : ℕ) → test b'(' p ≡ false)
      (digit : (c p : ℕ) → in_number c p ≡ true → test c p ≡ false)
      (first : (c p : ℕ) → in_number c 0 ≡ true → test c p ≡ false) where
    pub over_blanks :
        (n : ℕ) (left right : Bytes) (o : Option Split)
        → Finds test before left (blanks n right) o
        → Finds test before (blanks n left) right o
    over_blanks zero left right o f = f
    over_blanks (suc n) left right o f =
        go_on_plain b' ' (blanks n left) right o refl (blank (previous before (blanks n left))) (
          over_blanks n left (b' ' ∷ right) o
            (subst (λ (s : Bytes). Finds test before left s o) (sym (blanks-cons n right)) f))

    in_number_test :
        (c : ℕ) (r left : Bytes)
        → all_in_number (c ∷ r) ≡ true
        → test c (previous before (r ++ left)) ≡ false
    in_number_test c [] left h = first c (previous before left) h
    in_number_test c (d ∷ r) left h = digit c d (ground (arith, h))

    over_number :
        (r left right : Bytes) (o : Option Split)
        → all_in_number r ≡ true
        → Finds test before left (reverse r ++ right) o
        → Finds test before (r ++ left) right o
    over_number [] left right o h f = f
    over_number (c ∷ r) left right o h f =
        let (p, q) = in_number-head c r h in
        go_on_plain c (r ++ left) right o (in_number_plain c p q).0 (in_number_test c r left h) (
          over_number r left (c ∷ right) o (all_in_number-tail c r h)
            (subst (λ (s : Bytes). Finds test before left s o) (turn_cons c r right) f))

    pub over_atom :
        (e : Expr) (left right : Bytes) (o : Option Split)
        → IsProper e
        → is_atom e ≡ true
        → Finds test before left (front e right) o
        → Finds test before (back e left) right o
    unfolding front back IsProper
    over_atom (number t) left right o h k f =
        over_number (reverse t) left right o (ends_all (reverse t) h.1)
          (subst (λ (s : Bytes). Finds test before left (s ++ right) o) (sym (reverse-reverse t)) f)
    over_atom (group i e j) left right o h k f =
        go_on b')' (blanks j (back e (blanks i (b'(' ∷ left)))) right true left b'('
          (blanks i (front e (blanks j (b')' ∷ right)))) o (skip-group i j e left right h)
          (paren (previous before left))
          (omega (
            arith,
            length-blanks_le j (back e (blanks i (b'(' ∷ left))),
            length-back e (blanks i (b'(' ∷ left)),
            length-blanks_le i (b'(' ∷ left),
          ))
          f
    over_atom (binary op a i j b) left right o h k f = absurd (cc)
