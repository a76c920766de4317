-- ===== src/Parse/Template.antt =====
-- parse/template.cpp: texts with `{key}` in place of values.
pub mod Pieces
use aphros_test.Base.{
  ℕ, zero, suc, ◌+◌, Bool, true, false, ◌&&◌, ◌||◌, List, [], ◌∷◌, ◌++◌, Option, none, some, Bytes,
  ◌==◌, if◌then◌else◌, length, key_not_found, template_mismatch, out_of_fuel, Result, ok, err,
}
use aphros_test.Parse.Expand.{current, advance}
use aphros_test.Parse.KeyMap.{lookup, insert}

-- `res += map.at(key)` behind the check that the key is there.
unfoldable pub append_value : List (Bytes × Bytes) → Bytes → Bytes → Result Bytes
unfolding lookup
append_value map key res = elim (lookup key map) [
  | none ↦ err key_not_found
  | some v ↦ ok (res ++ v)
]

-- `SubstituteTemplate`: `inside` holds the part of a key that is read, within braces. A key that is
-- not closed ends with the text.
unfoldable pub substitute_from : List (Bytes × Bytes) → Option Bytes → Bytes → Bytes → Result Bytes
unfolding append_value
substitute_from map none res [] = ok res
substitute_from map none res (c ∷ fmt) =
    if c == b'{'
    then substitute_from map (some []) res fmt
    else substitute_from map none (res ++ (c ∷ [])) fmt
substitute_from map (some key) res [] = append_value map key res
substitute_from map (some key) res (c ∷ fmt) = elim (c == b'}') [
  | true ↦ elim (append_value map key res) [ ok r ↦ substitute_from map none r fmt | err e ↦ err e ]
  | false ↦ substitute_from map (some (key ++ (c ∷ []))) res fmt
]

unfoldable pub substitute_template : Bytes → List (Bytes × Bytes) → Result Bytes
unfolding substitute_from
substitute_template fmt map = substitute_from map none [] fmt

abbrev pub is_ws : ℕ → Bool
is_ws c = (c == b' ') || (c == b'\n')

unfoldable pub skip_ws : Bytes → Bytes
skip_ws [] = []
skip_ws (c ∷ s) = let rest = skip_ws s in if is_ws c then rest else c ∷ s

-- The key up to a closing brace, and the template behind the brace.
unfoldable pub read_key : Bytes → Bytes × Bytes
read_key [] = ([], [])
read_key (c ∷ fmt) =
    let rest = read_key fmt in if c == b'}' then ([], fmt) else (c ∷ rest.0, rest.1)

-- The value up to the character that the template has next, and the text from there; a template
-- that has ended gives no value.
unfoldable pub read_value : Bytes → Bytes → Bytes × Bytes
read_value [] txt = ([], txt)
read_value (f ∷ fmt) [] = ([], [])
read_value (f ∷ fmt) (c ∷ txt) =
    let rest = read_value (f ∷ fmt) txt in if f == c then ([], c ∷ txt) else (c ∷ rest.0, rest.1)

abbrev pub is_empty : Bytes → Bool
is_empty [] = true
is_empty (c ∷ s) = false

-- The loop of `ParseTemplate`; behind the end of a text stands a 0.
unfoldable pub parse_from : ℕ → List (Bytes × Bytes) → Bytes → Bytes → Result (List (Bytes × Bytes))
unfolding skip_ws read_key read_value insert
parse_from zero res fmt txt = err out_of_fuel
parse_from (suc fuel) res fmt txt =
    let f = skip_ws fmt in
    let t = skip_ws txt in
    let key = read_key (advance f) in
    let value = read_value key.1 t in
    let found = parse_from fuel (insert key.0 value.0 res) key.1 value.1 in
    let matched = parse_from fuel res (advance f) (advance t) in
    if is_empty fmt || is_empty txt
    then ok res
    else if current f == b'{'
    then (if current t == b'{' then err template_mismatch else found)
    else if current f == current t
    then matched
    else err template_mismatch

-- Each round but the last one takes a character of the template.
unfoldable pub parse_template : Bytes → Bytes → Result (List (Bytes × Bytes))
unfolding parse_from
parse_template fmt txt = parse_from (suc (length fmt)) [] fmt txt
