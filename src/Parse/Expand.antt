-- ===== src/Parse/Expand.antt =====
-- `Parser::Imp::ExpandVariables` of parse/parser.cpp: the machine that replaces $name and ${name}.
-- The position `i` is the unread part of the text; past its end the current character is 0.
pub mod Steps
pub mod Pieces
use aphros_test.Base.{
  ℕ, suc, ◌+◌, ◌*◌, List, [], ◌∷◌, ◌++◌, Bytes, ◌==◌, if◌then◌else◌, length, Error, unexpected_char,
  unmatched_brace, Result, ok, err,
}
use aphros_test.Base.Machine.{Next, more, done, run}
use aphros_test.Parse.Text.{is_name_char}

pub data Mode : Type 0 where
  normal dollar escape varname expand varname_braced stop : Mode

pub record State : Type 0 where
  pub mode : Mode
  pub rest : Bytes
  pub res : Bytes
  pub varname : Bytes

-- `i < str.size() ? str[i] : kEnd`
abbrev pub current : Bytes → ℕ
current [] = 0
current (c ∷ s) = c

-- `++i`
abbrev pub advance : Bytes → Bytes
advance [] = []
advance (c ∷ s) = s

-- One round of the loop; `get` is `GetStr`.
unfoldable pub step_in : (Bytes → Result Bytes) → Mode → State → Next State Bytes
step_in get normal s =
    let c = current s.rest in
    if c == b'\\'
    then more (record s { mode = escape; rest = advance s.rest })
    else if c == b'$'
    then more (record s { mode = dollar; rest = advance s.rest })
    else if c == 0
    then more (record s { mode = stop })
    else more (record s { res = s.res ++ (c ∷ []); rest = advance s.rest })
step_in get escape s = more (record s {
  res = (s.res ++ (b'\\' ∷ [])) ++ (current s.rest ∷ []);
  rest = advance s.rest;
  mode = normal;
})
step_in get dollar s =
    let c = current s.rest in
    if c == b'{'
    then more (record s { mode = varname_braced; rest = advance s.rest })
    else if c == b'('
    then more (record s { res = s.res ++ (b'$' ∷ []); mode = normal })
    else if is_name_char c
    then more (record s { mode = varname })
    else done (err unexpected_char)
step_in get varname s =
    let c = current s.rest in
    if is_name_char c
    then more (record s { varname = s.varname ++ (c ∷ []); rest = advance s.rest })
    else more (record s { mode = expand })
step_in get varname_braced s =
    let c = current s.rest in
    if is_name_char c
    then more (record s { varname = s.varname ++ (c ∷ []); rest = advance s.rest })
    else if c == b'}'
    then more (record s { mode = expand; rest = advance s.rest })
    else if c == 0
    then done (err unmatched_brace)
    else done (err unexpected_char)
step_in get expand s = elim (get s.varname) [
  | ok v ↦ more (record s { res = s.res ++ v; varname = []; mode = normal })
  | err e ↦ done (err e)
]
step_in get stop s = done (ok s.res)

unfoldable pub step : (Bytes → Result Bytes) → State → Next State Bytes
unfolding step_in
step get s = step_in get s.mode s

abbrev pub initial : Bytes → State
initial str = record { mode = normal; rest = str; res = []; varname = [] }

-- Five rounds for a character, and two to stop.
unfoldable pub expand_variables : (Bytes → Result Bytes) → Bytes → Result Bytes
unfolding run step
expand_variables get str = run (step get) (suc (length str * 5 + 1)) (initial str)
