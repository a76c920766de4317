-- ===== src/Tests/Numbers.antt =====
-- A number type for the runs: one digit.
use aphros_test.Base.{
  ℕ, ◌<◌, ◌≡◌, refl, true, false, [], ◌∷◌, Bytes, codes, if◌then◌else◌, length, arith, none, ok,
}
use aphros_test.Parse.Commands.{Environment}
use aphros_test.Parse.Number.{
  Extracted, got, failed, untouched, StreamNumber, is_digit, pos, read_int,
}

unfoldable pub read_one : Bytes → Extracted ℕ
read_one [] = untouched
read_one (c ∷ s) = if is_digit c then got c s else failed 0 false

pub read_one_shortens :
    (s : Bytes) (a : ℕ) (rest : Bytes) → read_one s ≡ got a rest → length rest < length s
unfolding read_one
read_one_shortens [] a rest h = ground arith
read_one_shortens (c ∷ s) a rest h = ground arith

abbrev pub digit : StreamNumber
digit = record {
  Value = ℕ;
  zero_value = 0;
  read = read_one;
  print = λ c. c ∷ [];
  read_shortens = read_one_shortens;
}

abbrev pub files : Environment
files = record {
  number = digit;
  eval = λ s. ok s;
  read_file = λ s. none;
  is_dir = λ s. false;
  dirname = λ s. [];
  unwritten = 0;
}

read_int_wraps : read_int (codes "2147483648") ≡ failed (pos 2147483647) true
unfolding read_int
read_int_wraps = refl
