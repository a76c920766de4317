-- ===== src/Parse/Number/RoundTrip.antt =====
-- An `int` that is printed is read back.
use aphros_test.Base.{
  subst, AllBytes, AllBytes-append, ◌||◌, ◌==◌, ℕ, zero, suc, ◌+◌, ◌-◌, ◌*◌, ◌/◌, ◌%◌, ◌≤◌, ◌<◌,
  ◌≡◌, refl, ap, ◌∙◌, Bool, true, false, [], ◌∷◌, ◌++◌, Bytes, ltb, arith, append_assoc, Bool-cases,
  inl, inr,
}
use aphros_test.Parse.Text.StripLaws.{drop_spaces_stop}
use aphros_test.Parse.Number.{
  ℤ, pos, negsuc, got, is_digit, read_digits, int_max, to_int, read_magnitude, read_sign, read_int,
  print_digits, print_int,
}

-- Text behind a number: it does not begin with a digit.
abbrev pub NoDigit : Bytes → Type 0
NoDigit [] = Unit {0}
NoDigit (c ∷ s) = is_digit c ≡ false

read_digits_stop : (n : ℕ) (s : Bytes) → NoDigit s → read_digits n s ≡ (n, s)
unfolding read_digits
read_digits_stop n [] h = refl
read_digits_stop n (c ∷ s) h = rw h

read_digits_next :
    (n : ℕ) (s : Bytes) → read_digits (n / 10) ((b'0' + n % 10) ∷ s) ≡ read_digits n s
unfolding read_digits
read_digits_next n s =
    let digit : is_digit (b'0' + n % 10) ≡ true = ground arith in
    let value : n / 10 * 10 + (b'0' + n % 10 - b'0') ≡ n = omega arith in rw (digit, value)

read_digits_one : (n : ℕ) (s : Bytes) → n < 10 → read_digits 0 ((b'0' + n) ∷ s) ≡ read_digits n s
unfolding read_digits
read_digits_one n s h =
    let digit : is_digit (b'0' + n) ≡ true = ground arith in
    let value : 0 * 10 + (b'0' + n - b'0') ≡ n = omega arith in rw (digit, value)

read-print_digits :
    (fuel n : ℕ) (s : Bytes) → n < fuel → read_digits 0 (print_digits fuel n ++ s) ≡ read_digits n s
unfolding print_digits
read-print_digits zero n s h = elim h [ ]
read-print_digits (suc fuel) n s h = elim (Bool-cases (ltb n 10)) [
  | inl e ↦ rw e (read_digits_one n s (ground arith))
  | inr e ↦
      rw (e, append_assoc)
        (read-print_digits fuel (n / 10) ((b'0' + n % 10) ∷ s) (ground arith)
          ∙ read_digits_next n s)
]

-- The first character printed is a digit.
print_digits_head :
    (fuel n : ℕ)
    → n < fuel
    → (c : ℕ) × (s : Bytes) × (print_digits fuel n ≡ c ∷ s) × (is_digit c ≡ true)
unfolding print_digits
print_digits_head zero n h = elim h [ ]
print_digits_head (suc fuel) n h = elim (Bool-cases (ltb n 10)) [
  | inl e ↦ (b'0' + n, [], rw e refl, ground arith)
  | inr e ↦
      let (c, s, p, d) = print_digits_head fuel (n / 10) (ground arith) in
      (c, s ++ ((b'0' + n % 10) ∷ []), rw (e, p) refl, d)
]

read_magnitude_digit :
    (minus : Bool) (c : ℕ) (s : Bytes)
    → is_digit c ≡ true
    → read_magnitude minus (c ∷ s)
      ≡ to_int minus (read_digits 0 (c ∷ s)).0 (read_digits 0 (c ∷ s)).1
unfolding read_magnitude
read_magnitude_digit minus c s d = rw d

read_magnitude-print :
    (minus : Bool) (fuel n : ℕ) (s : Bytes)
    → n < fuel
    → NoDigit s
    → read_magnitude minus (print_digits fuel n ++ s) ≡ to_int minus n s
read_magnitude-print minus fuel n s h k =
    let (c, t, p, d) = print_digits_head fuel n h in
    let value = read-print_digits fuel n s h ∙ read_digits_stop n s k in
    rw p (read_magnitude_digit minus c (t ++ s) d ∙ rw (← ap (λ (u : Bytes). u ++ s) p) (rw value))

-- The value lies within the range of `int`.
abbrev pub InRange : ℤ → Type 0
InRange (pos n) = n ≤ int_max
InRange (negsuc n) = n ≤ int_max

read_sign_digit :
    (c : ℕ) (s : Bytes) → is_digit c ≡ true → read_sign (c ∷ s) ≡ read_magnitude false (c ∷ s)
unfolding read_sign
read_sign_digit c s d = ground arith

read_int_digit :
    (u : Bytes) (c : ℕ) (t s : Bytes)
    → u ≡ c ∷ t
    → is_digit c ≡ true
    → read_int (u ++ s) ≡ read_magnitude false (u ++ s)
unfolding read_int
read_int_digit u c t s p d =
    rw (p, drop_spaces_stop c (t ++ s) (ground arith)) (read_sign_digit c (t ++ s) d)

read_int_minus : (u : Bytes) → read_int (b'-' ∷ u) ≡ read_magnitude true u
unfolding read_int
read_int_minus u = refl

print_int_pos : (n : ℕ) → print_int (pos n) ≡ print_digits (suc n) n
unfolding print_int
print_int_pos n = refl

print_int_negsuc : (n : ℕ) → print_int (negsuc n) ≡ b'-' ∷ print_digits (suc (suc n)) (suc n)
unfolding print_int
print_int_negsuc n = refl

to_int-InRange :
    (n : ℕ) (s : Bytes)
    → n ≤ int_max
    → (to_int false n s ≡ got (pos n) s) × (to_int true (suc n) s ≡ got (negsuc n) s)
unfolding to_int
to_int-InRange n s h = ground arith

-- An `int` within its range that is printed, with no digit behind it, is read back, and the
-- extraction stops right behind it.
pub read-print_int :
    (z : ℤ) (s : Bytes) → InRange z → NoDigit s → read_int (print_int z ++ s) ≡ got z s
read-print_int (pos n) s h k =
    let (c, t, p, d) = print_digits_head (suc n) n (omega arith) in
    rw (print_int_pos n, read_int_digit (print_digits (suc n) n) c t s p d)
      (read_magnitude-print false (suc n) n s (omega arith) k ∙ (to_int-InRange n s h).0)
read-print_int (negsuc n) s h k =
    rw (print_int_negsuc n, read_int_minus (print_digits (suc (suc n)) (suc n) ++ s))
      (read_magnitude-print true (suc (suc n)) (suc n) s (omega arith) k ∙ (to_int-InRange n s h).1)

-- The characters of a printed `int`.
abbrev pub is_int_char : ℕ → Bool
is_int_char c = is_digit c || (c == b'-')

print_digits-is_digit : (fuel n : ℕ) → AllBytes is_int_char (print_digits fuel n)
unfolding print_digits
print_digits-is_digit zero n = tt
print_digits-is_digit (suc fuel) n = elim (Bool-cases (ltb n 10)) [
  | inl e ↦ rw e (ground arith, tt)
  | inr e ↦ rw e (
      AllBytes-append is_int_char (print_digits fuel (n / 10)) ((b'0' + n % 10) ∷ [])
        (print_digits-is_digit fuel (n / 10)) (ground arith, tt))
]

-- A printed `int` is not empty, and made of digits behind a minus sign.
pub print_int_chars :
    (z : ℤ) → (c : ℕ) × (v : Bytes) × (print_int z ≡ c ∷ v) × AllBytes is_int_char (c ∷ v)
print_int_chars (pos n) =
    let (c, t, p, d) = print_digits_head (suc n) n (omega arith) in
    (c, t, print_int_pos n ∙ p, subst (AllBytes is_int_char) p (print_digits-is_digit (suc n) n))
print_int_chars (negsuc n) = (
  b'-',
  print_digits (suc (suc n)) (suc n),
  print_int_negsuc n,
  (refl, print_digits-is_digit (suc (suc n)) (suc n)),
)
