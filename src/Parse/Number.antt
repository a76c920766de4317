-- ===== src/Parse/Number.antt =====
-- Numbers on string streams, as parse/vars.cpp reads and writes them. `int` is an integer within
-- 32 bits; `double` is a parameter, with what `operator>>` and `operator<<` do to it.
pub mod RoundTrip
use aphros_test.Base.{
  ℕ, zero, suc, ◌+◌, ◌-◌, ◌*◌, ◌/◌, ◌%◌, ◌^◌, ◌≤◌, ◌<◌, ◌≡◌, Bool, true, false, ◌&&◌, List, [], ◌∷◌,
  ◌++◌, Bytes, ◌==◌, leb, ltb, if◌then◌else◌, length,
}
pub use aphros_test.Base.Int.{ℤ, pos, negsuc}
use aphros_test.Parse.Text.{drop_spaces}

-- The outcome of `stream >> value`: a value and the rest of the stream; or the value that a
-- failed extraction stores, and whether it reached the end of the stream; or a stream with spaces
-- at most, where the value is left as it was.
pub data Extracted (T : Type 0) : Type 0 where
  got : T → Bytes → Extracted T
  failed : T → Bool → Extracted T
  untouched : Extracted T

-- `double`, the value `double()`, and its stream operators. A successful read takes at least one character.
pub record StreamNumber : Type 1 where
  pub Value : Type 0
  pub zero_value : Value
  pub read : Bytes → Extracted Value
  pub print : Value → Bytes
  pub read_shortens :
      (s : Bytes) (a : Value) (rest : Bytes) → read s ≡ got a rest → length rest < length s

abbrev pub is_digit : ℕ → Bool
is_digit c = leb b'0' c && leb c b'9'

-- The value of the digits behind `acc`, and what follows them.
unfoldable pub read_digits : ℕ → Bytes → ℕ × Bytes
read_digits acc [] = (acc, [])
read_digits acc (c ∷ s) =
    let rest = read_digits (acc * 10 + (c - b'0')) s in if is_digit c then rest else (acc, c ∷ s)

abbrev pub int_max : ℕ
int_max = 2_147_483_647

abbrev at_end : Bytes → Bool
at_end [] = true
at_end (c ∷ s) = false

-- A magnitude within the range of `int`; beyond it the limit is stored and the extraction fails.
unfoldable pub to_int : Bool → ℕ → Bytes → Extracted ℤ
to_int false n rest = if leb n int_max then got (pos n) rest else failed (pos int_max) (at_end rest)
to_int true zero rest = got (pos 0) rest
to_int true (suc n) rest =
    if leb n int_max then got (negsuc n) rest else failed (negsuc int_max) (at_end rest)

unfoldable pub read_magnitude : Bool → Bytes → Extracted ℤ
unfolding read_digits to_int
read_magnitude minus [] = failed (pos 0) true
read_magnitude minus (c ∷ s) =
    let n = read_digits 0 (c ∷ s) in
    if is_digit c then to_int minus n.0 n.1 else failed (pos 0) false

unfoldable pub read_sign : Bytes → Extracted ℤ
unfolding read_magnitude
read_sign [] = untouched
read_sign (c ∷ s) =
    if c == b'-'
    then read_magnitude true s
    else if c == b'+'
    then read_magnitude false s
    else read_magnitude false (c ∷ s)

-- `stream >> value` for `int`.
unfoldable pub read_int : Bytes → Extracted ℤ
unfolding read_sign drop_spaces
read_int s = read_sign (drop_spaces s)

-- The decimal digits of `n`, which has at most `fuel` of them.
unfoldable pub print_digits : ℕ → ℕ → Bytes
print_digits zero n = []
print_digits (suc fuel) n =
    let front = print_digits fuel (n / 10) in
    if ltb n 10 then (b'0' + n) ∷ [] else front ++ ((b'0' + n % 10) ∷ [])

-- `std::to_string(n)` and `stream << n`.
unfoldable pub print_int : ℤ → Bytes
unfolding print_digits
print_int (pos n) = print_digits (suc n) n
print_int (negsuc n) = b'-' ∷ print_digits (suc (suc n)) (suc n)
