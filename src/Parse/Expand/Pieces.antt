-- ===== src/Parse/Expand/Pieces.antt =====
-- `ExpandVariables` against a description of its input as a list of pieces.
use mathlib.Core.List.{append-nil, append_assoc}
use aphros_test.Base.{
  ℕ, suc, ◌+◌, ◌*◌, ◌≡◌, ◌≢◌, refl, sym, ap, ◌∙◌, Bool, true, false, not, ◌&&◌, List, [], ◌∷◌, ◌++◌,
  Bytes, arith, length, AllBytes, ◌==◌, Result, ok, err, out_of_fuel,
}
use aphros_test.Base.Machine.{
  more, done, run_total, outcome, run-outcome, outcome_more, outcome_done,
}
use aphros_test.Parse.Expand.Steps.{measure, step_falls}
use aphros_test.Parse.Expand.{
  Mode, normal, dollar, escape, varname, expand, varname_braced, stop, State, current, step_in,
  step, initial, expand_variables,
}
use aphros_test.Parse.Text.{is_name_char}

-- What a configuration text is made of: plain text, a backslash with the character behind it,
-- ${name}, $name, and $( which opens an expression.
pub data Piece : Type 0 where
  plain : Bytes → Piece
  escaped : ℕ → Piece
  braced : Bytes → Piece
  bare : Bytes → Piece
  paren : Piece

abbrev pub is_plain : ℕ → Bool
is_plain c = not (c == b'\\') && not (c == b'$') && not (c == 0)

unfoldable pub render : List Piece → Bytes
render [] = []
render (plain t ∷ ps) = t ++ render ps
render (escaped c ∷ ps) = b'\\' ∷ c ∷ render ps
render (braced n ∷ ps) = b'$' ∷ b'{' ∷ (n ++ (b'}' ∷ render ps))
render (bare n ∷ ps) = b'$' ∷ (n ++ render ps)
render (paren ∷ ps) = b'$' ∷ b'(' ∷ render ps

-- No piece runs into the next one.
abbrev pub IsProper : List Piece → Type 0
IsProper [] = Unit {0}
IsProper (plain t ∷ ps) = AllBytes is_plain t × IsProper ps
IsProper (escaped c ∷ ps) = IsProper ps
IsProper (braced n ∷ ps) = AllBytes is_name_char n × IsProper ps
IsProper (bare n ∷ ps) =
    AllBytes is_name_char n
    × (is_name_char (current n) ≡ true)
    × (is_name_char (current (render ps)) ≡ false)
    × IsProper ps
IsProper (paren ∷ ps) = IsProper ps

abbrev pub prefix : Bytes → Result Bytes → Result Bytes
prefix t (ok v) = ok (t ++ v)
prefix t (err e) = err e

abbrev pub value_then : Result Bytes → Result Bytes → Result Bytes
value_then (ok v) m = prefix v m
value_then (err e) m = err e

-- The value of a text: names stand for their values, all else for itself; the first name that has
-- none is an error.
unfoldable pub meaning : (Bytes → Result Bytes) → List Piece → Result Bytes
meaning get [] = ok []
meaning get (plain t ∷ ps) = prefix t (meaning get ps)
meaning get (escaped c ∷ ps) = prefix (b'\\' ∷ c ∷ []) (meaning get ps)
meaning get (braced n ∷ ps) = value_then (get n) (meaning get ps)
meaning get (bare n ∷ ps) = value_then (get n) (meaning get ps)
meaning get (paren ∷ ps) = prefix (b'$' ∷ b'(' ∷ []) (meaning get ps)

pub prefix-prefix : (r t : Bytes) (m : Result Bytes) → prefix r (prefix t m) ≡ prefix (r ++ t) m
prefix-prefix r t (ok v) = ap ok (sym (append_assoc r t v))
prefix-prefix r t (err e) = refl

abbrev at : Mode → Bytes → Bytes → Bytes → State
at m rest res name = record { mode = m; rest = rest; res = res; varname = name }

module _ (get : Bytes → Result Bytes) where
  abbrev result : State → Result Bytes
  result s = outcome (step get) measure (step_falls get) s

  result_more : (s t : State) → step get s ≡ more t → result s ≡ result t
  result_more s t e = outcome_more (step get) measure (step_falls get) s t e

  result_plain :
      (t rest res : Bytes)
      → AllBytes is_plain t
      → result (at normal (t ++ rest) res []) ≡ result (at normal rest (res ++ t) [])
  unfolding step
  result_plain [] rest res h =
      ap (λ (x : Bytes). result (at normal rest x [])) (sym (append-nil res))
  result_plain (c ∷ t) rest res h =
      result_more (at normal (c ∷ (t ++ rest)) res []) (at normal (t ++ rest) (res ++ (c ∷ [])) [])
        (ground (arith, h.0))
      ∙ result_plain t rest (res ++ (c ∷ [])) h.1
      ∙ ap (λ (x : Bytes). result (at normal rest x [])) (append_assoc res (c ∷ []) t)

  result_braced :
      (n rest res name : Bytes)
      → AllBytes is_name_char n
      → result (at varname_braced (n ++ (b'}' ∷ rest)) res name)
        ≡ result (at expand rest res (name ++ n))
  unfolding step
  result_braced [] rest res name h =
      result_more (at varname_braced (b'}' ∷ rest) res name) (at expand rest res name) refl
      ∙ ap (λ (x : Bytes). result (at expand rest res x)) (sym (append-nil name))
  result_braced (c ∷ n) rest res name h =
      result_more (at varname_braced (c ∷ (n ++ (b'}' ∷ rest))) res name)
        (at varname_braced (n ++ (b'}' ∷ rest)) res (name ++ (c ∷ []))) (ground (arith, h.0))
      ∙ result_braced n rest res (name ++ (c ∷ [])) h.1
      ∙ ap (λ (x : Bytes). result (at expand rest res x)) (append_assoc name (c ∷ []) n)

  result_bare :
      (n rest res name : Bytes)
      → AllBytes is_name_char n
      → is_name_char (current rest) ≡ false
      → result (at varname (n ++ rest) res name) ≡ result (at expand rest res (name ++ n))
  unfolding step
  result_bare [] rest res name h e =
      result_more (at varname rest res name) (at expand rest res name) (ground arith)
      ∙ ap (λ (x : Bytes). result (at expand rest res x)) (sym (append-nil name))
  result_bare (c ∷ n) rest res name h e =
      result_more (at varname (c ∷ (n ++ rest)) res name)
        (at varname (n ++ rest) res (name ++ (c ∷ []))) (ground (arith, h.0))
      ∙ result_bare n rest res (name ++ (c ∷ [])) h.1 e
      ∙ ap (λ (x : Bytes). result (at expand rest res x)) (append_assoc name (c ∷ []) n)

  -- The value of a name is appended, or its error ends the loop.
  result_expand :
      (rest res name : Bytes) (m v : Result Bytes)
      → get name ≡ v
      → ((r : Bytes) → result (at normal rest r []) ≡ prefix r m)
      → result (at expand rest res name) ≡ prefix res (value_then v m)
  unfolding step
  result_expand rest res name m (ok v) e ih =
      result_more (at expand rest res name) (at normal rest (res ++ v) []) (rw e)
      ∙ ih (res ++ v)
      ∙ sym (prefix-prefix res v m)
  result_expand rest res name m (err x) e ih =
      outcome_done (step get) measure (step_falls get) (at expand rest res name) (err x) (rw e)

  result_end : (res : Bytes) → result (at normal [] res []) ≡ ok res
  unfolding step
  result_end res =
      result_more (at normal [] res []) (at stop [] res []) refl
      ∙ outcome_done (step get) measure (step_falls get) (at stop [] res []) (ok res) refl

  result-render :
      (ps : List Piece) (res : Bytes)
      → IsProper ps
      → result (at normal (render ps) res []) ≡ prefix res (meaning get ps)
  unfolding render meaning step
  result-render [] res h = result_end res ∙ ap ok (sym (append-nil res))
  result-render (plain t ∷ ps) res h =
      result_plain t (render ps) res h.0
      ∙ result-render ps (res ++ t) h.1
      ∙ sym (prefix-prefix res t (meaning get ps))
  result-render (escaped c ∷ ps) res h =
      result_more (at normal (b'\\' ∷ c ∷ render ps) res []) (at escape (c ∷ render ps) res []) refl
      ∙ result_more (at escape (c ∷ render ps) res [])
          (at normal (render ps) ((res ++ (b'\\' ∷ [])) ++ (c ∷ [])) []) refl
      ∙ result-render ps ((res ++ (b'\\' ∷ [])) ++ (c ∷ [])) h
      ∙ rw (append_assoc res (b'\\' ∷ []) (c ∷ []))
          (sym (prefix-prefix res (b'\\' ∷ c ∷ []) (meaning get ps)))
  result-render (braced n ∷ ps) res h =
      result_more (at normal (b'$' ∷ b'{' ∷ (n ++ (b'}' ∷ render ps))) res [])
        (at dollar (b'{' ∷ (n ++ (b'}' ∷ render ps))) res []) refl
      ∙ result_more (at dollar (b'{' ∷ (n ++ (b'}' ∷ render ps))) res [])
          (at varname_braced (n ++ (b'}' ∷ render ps)) res []) refl
      ∙ result_braced n (render ps) res [] h.0
      ∙ result_expand (render ps) res n (meaning get ps) (get n) refl (λ r. result-render ps r h.1)
  result-render (bare [] ∷ ps) res h = ground (arith, h.1)
  result-render (bare (c ∷ n) ∷ ps) res h =
      result_more (at normal (b'$' ∷ c ∷ (n ++ render ps)) res [])
        (at dollar (c ∷ (n ++ render ps)) res []) refl
      ∙ result_more (at dollar (c ∷ (n ++ render ps)) res [])
          (at varname (c ∷ (n ++ render ps)) res []) (ground (arith, h.1))
      ∙ result_bare (c ∷ n) (render ps) res [] h.0 h.2
      ∙ result_expand (render ps) res (c ∷ n) (meaning get ps) (get (c ∷ n)) refl
          (λ r. result-render ps r h.3)
  result-render (paren ∷ ps) res h =
      result_more (at normal (b'$' ∷ b'(' ∷ render ps) res []) (at dollar (b'(' ∷ render ps) res [])
        refl
      ∙ result_more (at dollar (b'(' ∷ render ps) res [])
          (at normal (b'(' ∷ render ps) (res ++ (b'$' ∷ [])) []) refl
      ∙ result_more (at normal (b'(' ∷ render ps) (res ++ (b'$' ∷ [])) [])
          (at normal (render ps) ((res ++ (b'$' ∷ [])) ++ (b'(' ∷ [])) []) refl
      ∙ result-render ps ((res ++ (b'$' ∷ [])) ++ (b'(' ∷ [])) h
      ∙ rw (append_assoc res (b'$' ∷ []) (b'(' ∷ []))
          (sym (prefix-prefix res (b'$' ∷ b'(' ∷ []) (meaning get ps)))

  expand_variables-result : (str : Bytes) → expand_variables get str ≡ result (initial str)
  unfolding expand_variables
  expand_variables-result str =
      run-outcome (step get) measure (step_falls get) (suc (length str * 5 + 1)) (initial str)
        (omega arith)

  -- On every text made of proper pieces `ExpandVariables` gives the text's meaning: each name is
  -- replaced by its value once, escapes and $( are kept, and the first name that has no value is
  -- the error.
  pub expand_variables-render :
      (ps : List Piece) → IsProper ps → expand_variables get (render ps) ≡ meaning get ps
  expand_variables-render ps h =
      expand_variables-result (render ps) ∙ result-render ps [] h ∙ prefix_nil (meaning get ps)
    where
      prefix_nil : (m : Result Bytes) → prefix [] m ≡ m
      prefix_nil (ok v) = refl
      prefix_nil (err e) = refl

  step-ne-out_of_fuel :
      ((k : Bytes) → get k ≢ err out_of_fuel) → (s : State) → step get s ≢ done (err out_of_fuel)
  unfolding step
  step-ne-out_of_fuel h s = go s.mode
    where
      go : (m : Mode) → step_in get m s ≢ done (err out_of_fuel)
      go expand = λ q. ground (arith, h s.varname)
      go stop = ground arith
      go _ = ground arith

  -- The loop ends on every text: its fuel does not run out.
  pub expand_variables_total :
      (str : Bytes)
      → ((k : Bytes) → get k ≢ err out_of_fuel)
      → expand_variables get str ≢ err out_of_fuel
  unfolding expand_variables
  expand_variables_total str h =
      run_total (step get) measure (step_falls get) (suc (length str * 5 + 1)) (initial str)
        (omega arith) (step-ne-out_of_fuel h)
