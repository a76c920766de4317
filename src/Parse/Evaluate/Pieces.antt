-- ===== src/Parse/Evaluate/Pieces.antt =====
-- `EvalExpressions` against a description of its input as a list of pieces.
use aphros_test.Base.{
  ℕ, zero, suc, ◌+◌, ◌*◌, ◌≡◌, ◌≢◌, refl, sym, ap, ◌∙◌, List, [], ◌∷◌, ◌++◌, Bytes, arith, length,
  AllBytes, ◌==◌, Result, ok, err, out_of_fuel, if◌then◌else◌, append-nil, append_assoc,
}
use aphros_test.Base.Machine.{
  more, done, run_total, outcome, run-outcome, outcome_more, outcome_done,
}
use aphros_test.Parse.Evaluate.Steps.{measure, step_falls}
use aphros_test.Parse.Evaluate.{
  Mode, normal, dollar, escape, paren1, expr, parenclose1, evalexpr, stop, State, step_in, step,
  initial, eval_expressions,
}
use aphros_test.Parse.Expand.Pieces.{is_plain, prefix, prefix-prefix, value_then}

-- Plain text, a backslash with the character behind it, $ before any character but an opening
-- parenthesis, and $((expr)).
pub data Piece : Type 0 where
  plain : Bytes → Piece
  escaped : ℕ → Piece
  dollar_char : ℕ → Piece
  expression : Bytes → Piece

unfoldable pub render : List Piece → Bytes
render [] = []
render (plain t ∷ ps) = t ++ render ps
render (escaped c ∷ ps) = b'\\' ∷ c ∷ render ps
render (dollar_char c ∷ ps) = b'$' ∷ c ∷ render ps
render (expression e ∷ ps) = b'$' ∷ b'(' ∷ b'(' ∷ (e ++ (b')' ∷ b')' ∷ render ps))

-- From `depth` open parentheses the text closes each one, none before it is opened, and holds no 0.
abbrev pub IsBalanced : ℕ → Bytes → Type 0
IsBalanced depth [] = depth ≡ 0
IsBalanced zero (c ∷ e) = (c ≢ b')') × (c ≢ 0) × IsBalanced (if c == b'(' then 1 else 0) e
IsBalanced (suc depth) (c ∷ e) =
    (c ≢ 0)
    × IsBalanced (if c == b')' then depth else if c == b'(' then suc (suc depth) else suc depth) e

abbrev pub IsProper : List Piece → Type 0
IsProper [] = Unit {0}
IsProper (plain t ∷ ps) = AllBytes is_plain t × IsProper ps
IsProper (escaped c ∷ ps) = IsProper ps
IsProper (dollar_char c ∷ ps) = (c ≢ b'(') × IsProper ps
IsProper (expression e ∷ ps) = IsBalanced 0 e × IsProper ps

unfoldable pub meaning : (Bytes → Result Bytes) → List Piece → Result Bytes
meaning eval [] = ok []
meaning eval (plain t ∷ ps) = prefix t (meaning eval ps)
meaning eval (escaped c ∷ ps) = prefix (c ∷ []) (meaning eval ps)
meaning eval (dollar_char c ∷ ps) = prefix (b'$' ∷ c ∷ []) (meaning eval ps)
meaning eval (expression e ∷ ps) = value_then (eval e) (meaning eval ps)

abbrev at : Mode → Bytes → ℕ → Bytes → Bytes → State
at m rest depth res e = record { mode = m; rest = rest; depth = depth; res = res; expr = e }

module _ (eval : Bytes → Result Bytes) where
  abbrev result : State → Result Bytes
  result s = outcome (step eval) measure (step_falls eval) s

  result_more : (s t : State) → step eval s ≡ more t → result s ≡ result t
  result_more s t e = outcome_more (step eval) measure (step_falls eval) s t e

  result_plain :
      (t rest : Bytes) (d : ℕ) (res e : Bytes)
      → AllBytes is_plain t
      → result (at normal (t ++ rest) d res e) ≡ result (at normal rest d (res ++ t) e)
  unfolding step
  result_plain [] rest d res e h =
      ap (λ (x : Bytes). result (at normal rest d x e)) (sym (append-nil res))
  result_plain (c ∷ t) rest d res e h =
      result_more (at normal (c ∷ (t ++ rest)) d res e)
        (at normal (t ++ rest) d (res ++ (c ∷ [])) e) (ground (arith, h.0))
      ∙ result_plain t rest d (res ++ (c ∷ [])) e h.1
      ∙ ap (λ (x : Bytes). result (at normal rest d x e)) (append_assoc res (c ∷ []) t)

  -- The text of a balanced expression is collected up to the parenthesis that closes it.
  result_expr :
      (e rest : Bytes) (d : ℕ) (res acc : Bytes)
      → IsBalanced d e
      → result (at expr (e ++ (b')' ∷ rest)) d res acc)
        ≡ result (at parenclose1 rest 0 res (acc ++ e))
  unfolding step
  result_expr [] rest zero res acc h =
      result_more (at expr (b')' ∷ rest) 0 res acc) (at parenclose1 rest 0 res acc) refl
      ∙ ap (λ (x : Bytes). result (at parenclose1 rest 0 res x)) (sym (append-nil acc))
  result_expr [] rest (suc d) res acc h = absurd (omega arith)
  result_expr (c ∷ e) rest zero res acc h =
      result_more (at expr (c ∷ (e ++ (b')' ∷ rest))) 0 res acc)
        (at expr (e ++ (b')' ∷ rest)) (if c == b'(' then 1 else 0) res (acc ++ (c ∷ [])))
        (ground (arith, h.0, h.1))
      ∙ result_expr e rest (if c == b'(' then 1 else 0) res (acc ++ (c ∷ [])) h.2
      ∙ ap (λ (x : Bytes). result (at parenclose1 rest 0 res x)) (append_assoc acc (c ∷ []) e)
  result_expr (c ∷ e) rest (suc d) res acc h =
      result_more (at expr (c ∷ (e ++ (b')' ∷ rest))) (suc d) res acc)
        (at expr (e ++ (b')' ∷ rest))
          (if c == b')' then d else if c == b'(' then suc (suc d) else suc d) res (acc ++ (c ∷ [])))
        (ground (arith, h.0))
      ∙ result_expr e rest (if c == b')' then d else if c == b'(' then suc (suc d) else suc d) res
          (acc ++ (c ∷ [])) h.1
      ∙ ap (λ (x : Bytes). result (at parenclose1 rest 0 res x)) (append_assoc acc (c ∷ []) e)

  result_eval :
      (rest : Bytes) (d : ℕ) (res e : Bytes) (m v : Result Bytes)
      → eval e ≡ v
      → ((r : Bytes) → result (at normal rest d r e) ≡ prefix r m)
      → result (at evalexpr rest d res e) ≡ prefix res (value_then v m)
  unfolding step
  result_eval rest d res e m (ok v) q ih =
      result_more (at evalexpr rest d res e) (at normal rest d (res ++ v) e) (rw q)
      ∙ ih (res ++ v)
      ∙ sym (prefix-prefix res v m)
  result_eval rest d res e m (err x) q ih =
      outcome_done (step eval) measure (step_falls eval) (at evalexpr rest d res e) (err x) (rw q)

  result-render :
      (ps : List Piece) (d : ℕ) (res e : Bytes)
      → IsProper ps
      → result (at normal (render ps) d res e) ≡ prefix res (meaning eval ps)
  unfolding render meaning step
  result-render [] d res e h =
      result_more (at normal [] d res e) (at stop [] d res e) refl
      ∙ outcome_done (step eval) measure (step_falls eval) (at stop [] d res e) (ok res) refl
      ∙ ap ok (sym (append-nil res))
  result-render (plain t ∷ ps) d res e h =
      result_plain t (render ps) d res e h.0
      ∙ result-render ps d (res ++ t) e h.1
      ∙ sym (prefix-prefix res t (meaning eval ps))
  result-render (escaped c ∷ ps) d res e h =
      result_more (at normal (b'\\' ∷ c ∷ render ps) d res e) (at escape (c ∷ render ps) d res e)
        refl
      ∙ result_more (at escape (c ∷ render ps) d res e)
          (at normal (render ps) d (res ++ (c ∷ [])) e) refl
      ∙ result-render ps d (res ++ (c ∷ [])) e h
      ∙ sym (prefix-prefix res (c ∷ []) (meaning eval ps))
  result-render (dollar_char c ∷ ps) d res e h =
      result_more (at normal (b'$' ∷ c ∷ render ps) d res e) (at dollar (c ∷ render ps) d res e)
        refl
      ∙ result_more (at dollar (c ∷ render ps) d res e)
          (at normal (render ps) d ((res ++ (b'$' ∷ [])) ++ (c ∷ [])) e) (ground (arith, h.0))
      ∙ result-render ps d ((res ++ (b'$' ∷ [])) ++ (c ∷ [])) e h.1
      ∙ rw (append_assoc res (b'$' ∷ []) (c ∷ []))
          (sym (prefix-prefix res (b'$' ∷ c ∷ []) (meaning eval ps)))
  result-render (expression x ∷ ps) d res e h =
      result_more (at normal (b'$' ∷ b'(' ∷ b'(' ∷ (x ++ (b')' ∷ b')' ∷ render ps))) d res e)
        (at dollar (b'(' ∷ b'(' ∷ (x ++ (b')' ∷ b')' ∷ render ps))) d res e) refl
      ∙ result_more (at dollar (b'(' ∷ b'(' ∷ (x ++ (b')' ∷ b')' ∷ render ps))) d res e)
          (at paren1 (b'(' ∷ (x ++ (b')' ∷ b')' ∷ render ps))) d res e) refl
      ∙ result_more (at paren1 (b'(' ∷ (x ++ (b')' ∷ b')' ∷ render ps))) d res e)
          (at expr (x ++ (b')' ∷ b')' ∷ render ps)) 0 res []) refl
      ∙ result_expr x (b')' ∷ render ps) 0 res [] h.0
      ∙ result_more (at parenclose1 (b')' ∷ render ps) 0 res x) (at evalexpr (render ps) 0 res x)
          refl
      ∙ result_eval (render ps) 0 res x (meaning eval ps) (eval x) refl
          (λ r. result-render ps 0 r x h.1)

  -- On every text made of proper pieces `EvalExpressions` gives the text's meaning: an expression
  -- in $(( )), with its parentheses balanced, is replaced by its value, a backslash is dropped and
  -- the character behind it kept, and the first expression that has no value is the error.
  pub eval_expressions-render :
      (ps : List Piece) → IsProper ps → eval_expressions eval (render ps) ≡ meaning eval ps
  unfolding eval_expressions
  eval_expressions-render ps h =
      run-outcome (step eval) measure (step_falls eval) (suc (length (render ps) * 4 + 1))
        (initial (render ps)) (omega arith)
      ∙ result-render ps 0 [] [] h
      ∙ prefix_nil (meaning eval ps)
    where
      prefix_nil : (m : Result Bytes) → prefix [] m ≡ m
      prefix_nil (ok v) = refl
      prefix_nil (err e) = refl

  step-ne-out_of_fuel :
      ((k : Bytes) → eval k ≢ err out_of_fuel) → (s : State) → step eval s ≢ done (err out_of_fuel)
  unfolding step
  step-ne-out_of_fuel h s = go s.mode
    where
      go : (m : Mode) → step_in eval m s ≢ done (err out_of_fuel)
      go evalexpr = λ q. ground (arith, h s.expr)
      go stop = ground arith
      go _ = ground arith

  -- The loop ends on every text: its fuel does not run out.
  pub eval_expressions_total :
      (str : Bytes)
      → ((k : Bytes) → eval k ≢ err out_of_fuel)
      → eval_expressions eval str ≢ err out_of_fuel
  unfolding eval_expressions
  eval_expressions_total str h =
      run_total (step eval) measure (step_falls eval) (suc (length str * 4 + 1)) (initial str)
        (omega arith) (step-ne-out_of_fuel h)
