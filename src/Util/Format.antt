-- ===== src/Util/Format.antt =====
-- `ParseFormat` of util/format.cpp: fields in braces are replaced by printed arguments.
pub mod Fields
use aphros_test.Base.Machine.{Next, more, done, run}
use aphros_test.Base.{
  ℕ, zero, suc, ◌+◌, ◌*◌, Bool, true, false, ◌||◌, List, [], ◌∷◌, ◌++◌, Option, none, some, Bytes,
  codes, ◌==◌, ltb, if◌then◌else◌, length, get_elem?, bad_value, unexpected_char, out_of_range,
  Result, ok, err,
}
use aphros_test.Parse.Expand.{current, advance}
use aphros_test.Parse.Number.{ℤ, pos, negsuc, Extracted, got, failed, untouched, read_int}

-- What the stream is set to before an argument is printed.
pub data Notation : Type 0 where
  general scientific upper_scientific fixed hex upper_hex : Notation

pub record Layout : Type 0 where
  pub precision : Option ℤ
  pub width : Option ℤ
  pub zero_fill : Bool
  pub notation : Notation

-- The print of an argument to a stream that is set so.
abbrev pub Printer : Type 0
Printer = Layout → Bytes

pub data Mode : Type 0 where
  normal curly givenindex colon width precision type write : Mode

-- `Mod`; a type that is not given is 0.
pub record Mod : Type 0 where
  pub given_index : Bytes
  pub precision : Bytes
  pub width : Bytes
  pub leadzero : Bool
  pub type : ℕ

abbrev pub no_mod : Mod
no_mod = record { given_index = []; precision = []; width = []; leadzero = false; type = 0 }

pub record State : Type 0 where
  pub mode : Mode
  pub rest : Bytes
  pub res : Bytes
  pub mod_ : Mod
  pub auto_index : ℕ

-- `match`
unfoldable pub match_char : ℕ → Bytes → Bool
match_char c [] = false
match_char c (d ∷ s) = (c == d) || match_char c s

abbrev pub digits : Bytes
digits = codes "0123456789"

abbrev pub types : Bytes
types = codes "eEfgdxX"

-- `toint`: what follows the number is not looked at.
unfoldable pub to_int : Bytes → Result ℤ
unfolding read_int
to_int s = elim (read_int s) [
  | got n rest ↦ ok n
  | failed n ended ↦ err bad_value
  | untouched ↦ err bad_value
]

unfoldable pub notation_of : ℕ → Notation
notation_of c =
    if c == b'E'
    then upper_scientific
    else if c == b'e'
    then scientific
    else if c == b'f'
    then fixed
    else if c == b'X'
    then upper_hex
    else if c == b'x'
    then hex
    else general

-- An optional number of a field.
unfoldable pub setting : Bytes → Result (Option ℤ)
unfolding to_int
setting [] = ok none
setting (c ∷ s) = elim (to_int (c ∷ s)) [ ok n ↦ ok (some n) | err e ↦ err e ]

unfoldable pub layout_of : Mod → Result Layout
unfolding setting notation_of
layout_of m = elim (setting m.precision) [
  | err e ↦ err e
  | ok p ↦ elim (setting m.width) [
    | err e ↦ err e
    | ok w ↦
        ok (record {
          precision = p;
          width = w;
          zero_fill = m.leadzero;
          notation = notation_of m.type;
        })
  ]
]

-- The index of a field, and the next index of a field without a number.
unfoldable pub field_index : Mod → ℕ → ℕ → Result (ℕ × ℕ)
unfolding to_int
field_index m auto count = elim m.given_index [
  | [] ↦ if ltb auto count then ok (auto, auto + 1) else err out_of_range
  | c ∷ s ↦ elim (to_int (c ∷ s)) [
    | ok z ↦ elim z [
      | pos n ↦ if ltb n count then ok (n, auto) else err out_of_range
      | negsuc n ↦ err out_of_range
    ]
    | err e ↦ err e
  ]
]

-- The state `write`, at the closing brace.
unfoldable pub write_field : List Printer → Bytes → State → Next State Bytes
unfolding field_index layout_of
write_field printers r s = elim (field_index s.mod_ s.auto_index (length printers)) [
  | err e ↦ done (err e)
  | ok (index, auto) ↦ elim (layout_of s.mod_) [
    | err e ↦ done (err e)
    | ok layout ↦ elim (get_elem? printers index) [
      | none ↦ done (err out_of_range)
      | some print ↦
          more
            (record s { mode = normal; rest = r; res = s.res ++ print layout; auto_index = auto })
    ]
  ]
]

-- One round of the loop at the character `c` with `r` behind it.
unfoldable pub step_in : List Printer → Mode → ℕ → Bytes → State → Next State Bytes
unfolding match_char write_field
step_in printers normal c r s =
    if c == b'{'
    then (if current r == b'{'
        then more (record s { res = s.res ++ (c ∷ []); rest = advance r })
        else more (record s { mod_ = no_mod; mode = curly; rest = r }))
    else if c == b'}'
    then (if current r == b'}'
        then more (record s { res = s.res ++ (c ∷ []); rest = advance r })
        else done (err unexpected_char))
    else more (record s { res = s.res ++ (c ∷ []); rest = r })
step_in printers curly c r s =
    if c == b'}'
    then more (record s { mode = write })
    else if c == b':'
    then more (record s { mode = colon; rest = r })
    else if match_char c digits
    then more (record s {
      mode = givenindex;
      mod_ = record s.mod_ { given_index = s.mod_.given_index ++ (c ∷ []) };
      rest = r;
    })
    else done (err unexpected_char)
step_in printers givenindex c r s =
    if c == b'}'
    then more (record s { mode = write })
    else if c == b':'
    then more (record s { mode = colon; rest = r })
    else if match_char c digits
    then more (record s {
      mod_ = record s.mod_ { given_index = s.mod_.given_index ++ (c ∷ []) };
      rest = r;
    })
    else done (err unexpected_char)
step_in printers colon c r s =
    if c == b'}'
    then more (record s { mode = write })
    else if c == b'.'
    then more (record s { mode = precision; rest = r })
    else if match_char c types
    then more (record s { mode = type })
    else if match_char c digits
    then more (record s {
      mode = width;
      mod_ = record s.mod_ { leadzero = c == b'0'; width = s.mod_.width ++ (c ∷ []) };
      rest = r;
    })
    else done (err unexpected_char)
step_in printers width c r s =
    if c == b'}'
    then more (record s { mode = write })
    else if c == b'.'
    then more (record s { mode = precision; rest = r })
    else if match_char c types
    then more (record s { mode = type })
    else if match_char c digits
    then more (record s { mod_ = record s.mod_ { width = s.mod_.width ++ (c ∷ []) }; rest = r })
    else done (err unexpected_char)
step_in printers precision c r s =
    if match_char c digits
    then more
        (record s { mod_ = record s.mod_ { precision = s.mod_.precision ++ (c ∷ []) }; rest = r })
    else if match_char c (codes "eEfg")
    then more (record s { mode = type })
    else done (err unexpected_char)
step_in printers type c r s =
    if match_char c types
    then more (record s { mod_ = record s.mod_ { type = c }; mode = write; rest = r })
    else done (err unexpected_char)
step_in printers write c r s =
    if c == b'}' then write_field printers r s else done (err unexpected_char)

-- The loop ends with the text, also within a field.
unfoldable pub step : List Printer → State → Next State Bytes
unfolding step_in
step printers s = elim s.rest [ [] ↦ done (ok s.res) | c ∷ r ↦ step_in printers s.mode c r s ]

abbrev pub initial : Bytes → State
initial fmt = record { mode = normal; rest = fmt; res = []; mod_ = no_mod; auto_index = 0 }

-- At most two rounds for a character, and one to stop.
unfoldable pub parse_format : Bytes → List Printer → Result Bytes
unfolding run step
parse_format fmt printers = run (step printers) (suc (length fmt * 2 + 1)) (initial fmt)
