-- ===== src/Parse/Arguments/Help.antt =====
-- `PrintHelp` of parse/argparse.cpp, as the text that it writes.
use aphros_test.Base.{
  ℕ, zero, suc, ◌-◌, Bool, true, false, not, ◌&&◌, List, [], ◌∷◌, ◌++◌, none, some, Bytes, codes,
  leb, ◌==◌, if◌then◌else◌, length, Result, ok, ◌>>=◌,
}
use aphros_test.Parse.Arguments.Read.{at, get_options}
use aphros_test.Parse.Arguments.{State}
use aphros_test.Parse.KeyMap.{lookup}
use aphros_test.Parse.Number.{StreamNumber}
use aphros_test.Parse.Vars.{get_type_name, get_str}

-- `Join`
unfoldable pub join_texts : Bytes → List Bytes → Bytes
join_texts delim [] = []
join_texts delim (s ∷ []) = s
join_texts delim (s ∷ t ∷ l) = s ++ (delim ++ join_texts delim (t ∷ l))

-- `ToUpper`, in the C locale.
unfoldable pub to_upper : Bytes → Bytes
to_upper [] = []
to_upper (c ∷ s) = (if leb b'a' c && leb c b'z' then c - 32 else c) ∷ to_upper s

unfoldable pub spaces : ℕ → Bytes
spaces zero = []
spaces (suc n) = b' ' ∷ spaces n

-- `PadRight`
unfoldable pub pad_right : Bytes → ℕ → Bytes
unfolding spaces
pad_right s width = s ++ spaces (width - length s)

abbrev is_empty : {V : Type 0} → List V → Bool
is_empty [] = true
is_empty (x ∷ l) = false

-- Text of the parts of a list, one behind the other.
unfoldable pub print_all : (Bytes → Result Bytes) → List Bytes → Result Bytes
print_all print [] = ok []
print_all print (k ∷ keys) = print k >>= λ s. print_all print keys >>= λ rest. ok (s ++ rest)

module _ (D : StreamNumber) where
  -- An optional argument in the line of the usage.
  unfoldable pub print_usage : State D → Bytes → Result Bytes
  unfolding lookup join_texts to_upper
  print_usage p key = at key p.names >>= λ names. at key p.entries >>= λ e. ok (
      codes " ["
      ++ (join_texts (codes "|") names
          ++ ((if e.nargs == 1 then b' ' ∷ to_upper key else []) ++ codes "]")))

  -- `append_options`, with the flag whether a dot is needed before.
  unfoldable pub append_options : State D → Bytes → Bool → Bytes × Bool
  unfolding get_options join_texts
  append_options p key need_dot =
      let options = get_options D p key in
      if is_empty options then ([], need_dot) else (
        (if need_dot then codes ". " else [])
            ++ (codes "Options are: " ++ join_texts (codes ", ") options),
        true,
      )

  -- `append_default`
  unfoldable pub append_default : State D → Bytes → Bool → Result Bytes
  unfolding lookup get_type_name get_str
  append_default p key need_dot = at key p.entries >>= λ e.
      if e.hasdefault && not (e.nargs == 0)
      then (get_str D p.known_args (get_type_name p.known_args key) key >>= λ v.
          ok ((if need_dot then codes ". " else []) ++ (codes "Default is " ++ v)))
      else ok []

  -- The lines of the arguments under a title, with the text that stands for each.
  unfoldable pub print_argument : State D → Bytes → Bytes → Result Bytes
  unfolding lookup pad_right append_options append_default
  print_argument p title key =
      let help : Bytes = elim (lookup key p.help) [ none ↦ [] | some text ↦ text ] in
      let options = append_options p key (not (is_empty help)) in
      append_default p key options.1 >>= λ default.
      ok (pad_right title 20 ++ (b' ' ∷ (help ++ (options.0 ++ (default ++ (b'\n' ∷ []))))))

  unfoldable pub print_positional : State D → Bytes → Result Bytes
  unfolding to_upper print_argument
  print_positional p key = print_argument p (to_upper key) key

  unfoldable pub print_optional : State D → Bytes → Result Bytes
  unfolding lookup join_texts print_argument
  print_optional p key =
      at key p.names >>= λ names. print_argument p (join_texts (codes ", ") names) key

  unfoldable pub print_upper : List Bytes → Bytes
  unfolding to_upper
  print_upper [] = []
  print_upper (k ∷ keys) = b' ' ∷ (to_upper k ++ print_upper keys)

  -- What follows the line of the usage.
  unfoldable pub print_full : State D → Result Bytes
  unfolding print_all print_positional print_optional
  print_full p = print_all (print_positional p) p.pos_keys >>= λ positional.
      print_all (print_optional p) p.opt_keys >>= λ optional. ok (
        (if is_empty p.desc then [] else b'\n' ∷ (p.desc ++ (b'\n' ∷ [])))
        ++ (codes "\npositional arguments:\n"
            ++ (positional ++ (codes "\noptional arguments:\n" ++ optional))))

  unfoldable pub print_help : State D → Bool → Bytes → Result Bytes
  unfolding print_all print_usage print_upper print_full
  print_help p full program = print_all (print_usage p) p.opt_keys >>= λ usage.
      (if full then print_full p else ok []) >>= λ rest.
      ok (codes "usage: " ++ (program ++ (usage ++ (print_upper p.pos_keys ++ (b'\n' ∷ rest)))))
