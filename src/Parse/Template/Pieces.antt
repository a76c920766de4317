-- ===== src/Parse/Template/Pieces.antt =====
-- What `SubstituteTemplate` makes of a template that is given by its pieces, and that
-- `ParseTemplate` ends.
use aphros_test.Base.{
  ℕ, zero, suc, ◌<◌, ◌≤◌, ◌≡◌, ◌≢◌, refl, sym, ap, ◌∙◌, Bool, true, false, not, ◌||◌, List, [], ◌∷◌,
  ◌++◌, Option, none, some, Option-cases, inl, inr, Bytes, ◌==◌, if◌then◌else◌, length, AllBytes,
  append-nil, append_assoc, arith, key_not_found, template_mismatch, out_of_fuel, Result, ok, err,
}
use aphros_test.Parse.Expand.Pieces.{prefix, prefix-prefix}
use aphros_test.Parse.Expand.{current, advance}
use aphros_test.Parse.KeyMap.{lookup, insert}
use aphros_test.Parse.Template.{
  append_value, substitute_from, substitute_template, skip_ws, read_key, read_value, is_empty,
  parse_from, parse_template,
}

-- Text, and keys in braces.
pub data Piece : Type 0 where
  text : Bytes → Piece
  key : Bytes → Piece

abbrev pub is_text_char : ℕ → Bool
is_text_char c = not (c == b'{')

abbrev pub is_key_char : ℕ → Bool
is_key_char c = not (c == b'}')

abbrev pub IsProper : List Piece → Type 0
IsProper [] = Unit {0}
IsProper (text t ∷ ps) = AllBytes is_text_char t × IsProper ps
IsProper (key k ∷ ps) = AllBytes is_key_char k × IsProper ps

unfoldable pub render : List Piece → Bytes
render [] = []
render (text t ∷ ps) = t ++ render ps
render (key k ∷ ps) = b'{' ∷ (k ++ (b'}' ∷ render ps))

abbrev pub found_then : Option Bytes → Result Bytes → Result Bytes
found_then none m = err key_not_found
found_then (some v) m = prefix v m

-- Each key stands for its value; the first key that has none is the error.
unfoldable pub meaning : List (Bytes × Bytes) → List Piece → Result Bytes
meaning map [] = ok []
meaning map (text t ∷ ps) = prefix t (meaning map ps)
meaning map (key k ∷ ps) = found_then (lookup k map) (meaning map ps)

substitute_text :
    (map : List (Bytes × Bytes)) (t res rest : Bytes)
    → AllBytes is_text_char t
    → substitute_from map none res (t ++ rest) ≡ substitute_from map none (res ++ t) rest
unfolding substitute_from
substitute_text map [] res rest h =
    ap (λ (x : Bytes). substitute_from map none x rest) (sym (append-nil res))
substitute_text map (c ∷ t) res rest h =
    let step : substitute_from map none res (c ∷ (t ++ rest))
        ≡ substitute_from map none (res ++ (c ∷ [])) (t ++ rest) =
      ground (arith, h.0) in
    step
    ∙ substitute_text map t (res ++ (c ∷ [])) rest h.1
    ∙ ap (λ (x : Bytes). substitute_from map none x rest) (append_assoc res (c ∷ []) t)

abbrev append_then : List (Bytes × Bytes) → Result Bytes → Bytes → Result Bytes
append_then map (ok r) rest = substitute_from map none r rest
append_then map (err e) rest = err e

then_append :
    (map : List (Bytes × Bytes)) (x : Result Bytes) (rest : Bytes)
    → elim x [ ok r ↦ substitute_from map none r rest | err e ↦ err e ] ≡ append_then map x rest
then_append map (ok r) rest = refl
then_append map (err e) rest = refl

key_char :
    (map : List (Bytes × Bytes)) (c : ℕ) (name res rest : Bytes)
    → (c == b'}') ≡ false
    → substitute_from map (some name) res (c ∷ rest)
      ≡ substitute_from map (some (name ++ (c ∷ []))) res rest
unfolding substitute_from
key_char map c name res rest h =
    ap
      (λ (x : Bool). elim x [
        | true ↦ elim (append_value map name res) [
          | ok r ↦ substitute_from map none r rest
          | err e ↦ err e
        ]
        | false ↦ substitute_from map (some (name ++ (c ∷ []))) res rest
      ])
      h

substitute_key :
    (map : List (Bytes × Bytes)) (k name res rest : Bytes)
    → AllBytes is_key_char k
    → substitute_from map (some name) res (k ++ (b'}' ∷ rest))
      ≡ append_then map (append_value map (name ++ k) res) rest
unfolding substitute_from
substitute_key map [] name res rest h =
    then_append map (append_value map name res) rest
    ∙ ap (λ (x : Bytes). append_then map (append_value map x res) rest) (sym (append-nil name))
substitute_key map (c ∷ k) name res rest h =
    let differ : (c == b'}') ≡ false = ground (arith, h.0) in
    key_char map c name res (k ++ (b'}' ∷ rest)) differ
    ∙ substitute_key map k (name ++ (c ∷ [])) res rest h.1
    ∙ ap (λ (x : Bytes). append_then map (append_value map x res) rest)
        (append_assoc name (c ∷ []) k)

substitute-render :
    (map : List (Bytes × Bytes)) (ps : List Piece) (res : Bytes)
    → IsProper ps
    → substitute_from map none res (render ps) ≡ prefix res (meaning map ps)
unfolding render meaning substitute_from
substitute-render map [] res h = ap ok (sym (append-nil res))
substitute-render map (text t ∷ ps) res h =
    substitute_text map t res (render ps) h.0
    ∙ substitute-render map ps (res ++ t) h.1
    ∙ sym (prefix-prefix res t (meaning map ps))
substitute-render map (key k ∷ ps) res h =
    substitute_key map k [] res (render ps) h.0 ∙ elim (Option-cases (lookup k map)) [
      | inl e ↦ rw (append_value, e) refl
      | inr (v, e) ↦
          rw (append_value, e)
            (substitute-render map ps (res ++ v) h.1 ∙ sym (prefix-prefix res v (meaning map ps)))
    ]

-- `SubstituteTemplate` of a template made of proper pieces puts the value of each key in its place,
-- and keeps the text between them; the first key that has no value is an error.
pub substitute_template-render :
    (map : List (Bytes × Bytes)) (ps : List Piece)
    → IsProper ps
    → substitute_template (render ps) map ≡ meaning map ps
unfolding substitute_template
substitute_template-render map ps h = substitute-render map ps [] h ∙ prefix_nil (meaning map ps)
  where
    prefix_nil : (m : Result Bytes) → prefix [] m ≡ m
    prefix_nil (ok v) = refl
    prefix_nil (err e) = refl

skip_ws_le : (s : Bytes) → length (skip_ws s) ≤ length s
unfolding skip_ws
skip_ws_le [] = omega arith
skip_ws_le (c ∷ s) = ground (arith, skip_ws_le s)

read_key_le : (s : Bytes) → length (read_key s).1 ≤ length s
unfolding read_key
read_key_le [] = omega arith
read_key_le (c ∷ s) = ground (arith, read_key_le s)

advance_lt : (s : Bytes) (n : ℕ) → length s ≤ suc n → length (advance s) ≤ n
advance_lt [] n h = omega arith
advance_lt (c ∷ s) n h = omega (arith, h)

round_ends :
    (a b c d : Bool) (res : List (Bytes × Bytes)) (found matched : Result (List (Bytes × Bytes)))
    → found ≢ err out_of_fuel
    → matched ≢ err out_of_fuel
    → (if a
        then ok res
        else if b
        then (if c then err template_mismatch else found)
        else if d
        then matched
        else err template_mismatch)
      ≢ err out_of_fuel
round_ends a b c d res found matched h k = ground (arith, h, k)

parse_ends :
    (fuel : ℕ) (res : List (Bytes × Bytes)) (fmt txt : Bytes)
    → length fmt < fuel
    → parse_from fuel res fmt txt ≢ err out_of_fuel
unfolding parse_from
parse_ends zero res fmt txt h = absurd (omega (arith, h))
parse_ends (suc zero) res [] txt h = ground arith
parse_ends (suc zero) res (c ∷ fmt) txt h = absurd (omega (arith, h))
parse_ends (suc (suc n)) res fmt txt h =
    let f = skip_ws fmt in
    let t = skip_ws txt in
    let key = read_key (advance f) in
    let value = read_value key.1 t in
    let shorter : length (advance f) ≤ n = advance_lt f n (omega (arith, skip_ws_le fmt, h)) in
    let found =
      parse_ends (suc n) (insert key.0 value.0 res) key.1 value.1
        (omega (arith, read_key_le (advance f), shorter)) in
    let matched = parse_ends (suc n) res (advance f) (advance t) (omega (arith, shorter)) in
    round_ends (is_empty fmt || is_empty txt) (current f == b'{') (current t == b'{')
      (current f == current t) res _ _ found matched

-- `ParseTemplate` ends on every template and text.
pub parse_template_total : (fmt txt : Bytes) → parse_template fmt txt ≢ err out_of_fuel
unfolding parse_template
parse_template_total fmt txt = parse_ends (suc (length fmt)) [] fmt txt (omega arith)
