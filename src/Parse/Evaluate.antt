-- ===== src/Parse/Evaluate.antt =====
-- `Parser::Imp::EvalExpressions` of parse/parser.cpp: the machine that replaces $((expr)).
-- `eval` stands for `util::Format("{:.14g}", EvalExpr<double>(expr))`.
pub mod Steps
pub mod Pieces
use aphros_test.Base.{
  ℕ, zero, suc, ◌+◌, ◌*◌, List, [], ◌∷◌, ◌++◌, Bytes, ◌==◌, if◌then◌else◌, length, Error,
  unexpected_char, unexpected_end, Result, ok, err,
}
use aphros_test.Base.Machine.{Next, more, done, run}
use aphros_test.Parse.Expand.{current, advance}

pub data Mode : Type 0 where
  normal dollar escape paren1 expr parenclose1 evalexpr stop : Mode

pub record State : Type 0 where
  pub mode : Mode
  pub rest : Bytes
  pub depth : ℕ
  pub res : Bytes
  pub expr : Bytes

-- `)` inside the expression: it closes a parenthesis of the expression, or the expression.
unfoldable pub close_paren : ℕ → State → State
close_paren zero s = record s { mode = parenclose1; rest = advance s.rest }
close_paren (suc depth) s = record s {
  depth = depth;
  expr = s.expr ++ (b')' ∷ []);
  rest = advance s.rest;
}

-- One round of the loop.
unfoldable pub step_in : (Bytes → Result Bytes) → Mode → State → Next State Bytes
unfolding close_paren
step_in eval normal s =
    let c = current s.rest in
    if c == b'\\'
    then more (record s { mode = escape; rest = advance s.rest })
    else if c == b'$'
    then more (record s { mode = dollar; rest = advance s.rest })
    else if c == 0
    then more (record s { mode = stop })
    else more (record s { res = s.res ++ (c ∷ []); rest = advance s.rest })
step_in eval escape s =
    more (record s { res = s.res ++ (current s.rest ∷ []); rest = advance s.rest; mode = normal })
step_in eval dollar s =
    let c = current s.rest in
    if c == b'('
    then more (record s { mode = paren1; rest = advance s.rest })
    else more (record s {
      res = (s.res ++ (b'$' ∷ [])) ++ (c ∷ []);
      mode = normal;
      rest = advance s.rest;
    })
step_in eval paren1 s =
    let c = current s.rest in
    if c == b'('
    then more (record s { mode = expr; depth = 0; expr = []; rest = advance s.rest })
    else done (err unexpected_char)
step_in eval expr s =
    let c = current s.rest in
    if c == b')'
    then more (close_paren s.depth s)
    else if c == b'('
    then more (record s { depth = suc s.depth; expr = s.expr ++ (c ∷ []); rest = advance s.rest })
    else if c == 0
    then done (err unexpected_end)
    else more (record s { expr = s.expr ++ (c ∷ []); rest = advance s.rest })
step_in eval parenclose1 s =
    let c = current s.rest in
    if c == b')'
    then more (record s { mode = evalexpr; rest = advance s.rest })
    else done (err unexpected_char)
step_in eval evalexpr s = elim (eval s.expr) [
  | ok v ↦ more (record s { res = s.res ++ v; mode = normal })
  | err e ↦ done (err e)
]
step_in eval stop s = done (ok s.res)

unfoldable pub step : (Bytes → Result Bytes) → State → Next State Bytes
unfolding step_in
step eval s = step_in eval s.mode s

abbrev pub initial : Bytes → State
initial str = record { mode = normal; rest = str; depth = 0; res = []; expr = [] }

-- Four rounds for a character, and two to stop.
unfoldable pub eval_expressions : (Bytes → Result Bytes) → Bytes → Result Bytes
unfolding run step
eval_expressions eval str = run (step eval) (suc (length str * 4 + 1)) (initial str)
