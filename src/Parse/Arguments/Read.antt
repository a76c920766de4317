-- ===== src/Parse/Arguments/Read.antt =====
-- `ParseArgs`: the variables that a list of arguments gives. Messages and the print of the help are
-- left out; an exception is an error.
use aphros_test.Base.{
  ℕ, zero, suc, ◌+◌, Bool, true, false, not, ◌&&◌, List, [], ◌∷◌, map, none, some, Bytes, codes,
  bytes_eq, if◌then◌else◌, get_elem?, key_not_found, not_an_int, Result, ok, err, ◌>>=◌,
}
use aphros_test.Parse.Arguments.{Entry, State, is_optional}
use aphros_test.Parse.KeyMap.{lookup, insert, contains}
use aphros_test.Parse.Number.{ℤ, pos, negsuc, StreamNumber, print_int}
use aphros_test.Parse.Vars.{
  Vars, no_vars, get_type_name, get_str, set_str, print_vect, type_name, int,
}

-- `std::find`
unfoldable pub find_text : Bytes → List Bytes → Bool
find_text s [] = false
find_text s (t ∷ l) = if bytes_eq t s then true else find_text s l

-- `entries_.at(k)`, and the values of options.
abbrev pub at : {V : Type 0} → Bytes → List (Bytes × V) → Result V
at k m = elim (lookup k m) [ none ↦ err key_not_found | some v ↦ ok v ]

unfoldable pub options_of : {V : Type 0} → (V → Bytes) → Bytes → List (Bytes × List V) → List Bytes
unfolding lookup
options_of to_str k m = elim (lookup k m) [ none ↦ [] | some l ↦ map to_str l ]

abbrev pub drop : ℕ → List Bytes → List Bytes
drop zero l = l
drop (suc n) [] = []
drop (suc n) (k ∷ l) = drop n l

abbrev pub is_empty : {V : Type 0} → List V → Bool
is_empty [] = true
is_empty (x ∷ l) = false

-- What the loop over the arguments expects next.
pub data Expects : Type 0 where
  name : Expects
  value : Entry → Expects

module _ (D : StreamNumber) where
  abbrev pub Args : Type 0
  Args = Vars D.Value

  -- `args.Int["FAIL"] = 1`, and `rassert`.
  unfoldable pub fail : Args → Args
  unfolding insert
  fail args = record args { ints = insert (codes "FAIL") (pos 1) args.ints }

  unfoldable pub rassert : Bool → Args → Args
  unfolding fail
  rassert cond args = if cond then args else fail args

  abbrev pub thrown : Args × Result (Unit {0}) → Result Args
  thrown (set, ok _) = ok set
  thrown (set, err e) = err e

  -- `args.SetStr(type, key, v)`, which throws.
  unfoldable pub assign : Bytes → Bytes → Bytes → Args → Result Args
  unfolding set_str
  assign type key v args = thrown (set_str D args type key v)

  -- `args.SetStr(known_args_.GetTypeName(key), key, v)`
  unfoldable pub assign_known : State D → Bytes → Bytes → Args → Result Args
  unfolding assign get_type_name
  assign_known p key v args = assign (get_type_name p.known_args key) key v args

  -- The loop over the entries that sets the defaults.
  unfoldable pub set_defaults : State D → List (Bytes × Entry) → Args → Result Args
  unfolding assign_known get_type_name get_str
  set_defaults p [] args = ok args
  set_defaults p ((n, e) ∷ entries) args =
      if e.hasdefault
      then (get_str D p.known_args (get_type_name p.known_args e.key) e.key >>= λ v.
          assign_known p e.key v args >>= λ set. set_defaults p entries set)
      else set_defaults p entries args

  -- A positional argument. Too many are counted too.
  unfoldable pub read_positional : State D → ℕ → Bytes → Args → Result Args
  unfolding assign_known fail
  read_positional p ipos s args = elim (get_elem? p.pos_keys ipos) [
    | none ↦ ok (fail args)
    | some k ↦ at k p.entries >>= λ e. assign_known p e.key s args
  ]

  -- A switch, which sets an `int`.
  unfoldable pub read_switch : State D → Entry → Args → Result Args
  unfolding assign_known
  read_switch p e args =
      if bytes_eq (get_type_name p.known_args e.key) (type_name int)
      then assign_known p e.key (codes "1") args
      else err not_an_int

  -- The loop over the arguments, with the number of the next positional one. A variable whose value
  -- is missing at the end is left alone. The state `positional` goes over the same argument again,
  -- so it is part of the round of `name`.
  unfoldable pub read_args : State D → Expects → ℕ → List Bytes → Args → Result (ℕ × Args)
  unfolding lookup is_optional read_positional read_switch assign_known fail
  read_args p expects ipos [] args = ok (ipos, args)
  read_args p (value e) ipos (s ∷ argv) args =
      assign_known p e.key s args >>= λ set. read_args p name ipos argv set
  read_args p name ipos (s ∷ argv) args = elim (is_optional D s) [
    | true ↦ elim (lookup s p.entries) [
      | none ↦ read_args p name ipos argv (fail args)
      | some e ↦ elim e.nargs [
        | zero ↦ read_switch p e args >>= λ set. read_args p name ipos argv set
        | suc n ↦ read_args p (value e) ipos argv args
      ]
    ]
    | false ↦ read_positional p ipos s args >>= λ set. read_args p name (ipos + 1) argv set
  ]

  -- The loop over the positional arguments that have no value.
  unfoldable pub check_missing : State D → List Bytes → Args → Result Args
  unfolding lookup rassert
  check_missing p [] args = ok args
  check_missing p (k ∷ keys) args =
      at k p.entries >>= λ e. check_missing p keys (rassert e.hasdefault args)

  -- `GetOptionsFromKey`
  unfoldable pub get_options : State D → Bytes → List Bytes
  unfolding contains options_of print_int print_vect
  get_options p k =
      if contains k p.known_args.ints
      then options_of print_int k p.options_int
      else if contains k p.known_args.doubles
      then options_of D.print k p.options_double
      else if contains k p.known_args.strings
      then options_of (λ s. s) k p.options_string
      else if contains k p.known_args.vects
      then options_of (print_vect D) k p.options_vect
      else []

  -- The loop over the entries that checks the values against the options.
  unfoldable pub check_options : State D → List (Bytes × Entry) → Args → Result Args
  unfolding get_options get_type_name get_str find_text rassert
  check_options p [] args = ok args
  check_options p ((k, e) ∷ entries) args =
      let type = get_type_name args k in
      let options = get_options p k in
      if not (is_empty type) && not (is_empty options)
      then (get_str D args type k >>= λ v.
          check_options p entries (rassert (find_text v options) args))
      else check_options p entries args

  -- `args.Int[k]` as a condition.
  unfoldable pub is_set : Bytes → Args → Result Bool
  unfolding lookup
  is_set k args = elim (lookup k args.ints) [
    | none ↦ err key_not_found
    | some (pos zero) ↦ ok false
    | some (pos (suc n)) ↦ ok true
    | some (negsuc n) ↦ ok true
  ]

  abbrev pub exit : ℤ → Args → Args
  exit n args = record args { ints = insert (codes "EXIT") n args.ints }

  -- What follows the loop over the arguments.
  unfoldable pub finish : State D → ℕ → Args → Result Args
  unfolding check_missing check_options is_set insert
  finish p ipos args = is_set (codes "help") args >>= λ help.
      if help
      then ok (exit (pos 0) args)
      else (check_missing p (drop ipos p.pos_keys) args >>= λ complete.
          check_options p p.entries complete >>= λ checked.
          is_set (codes "FAIL") checked >>= λ failed.
          ok (if failed then exit (pos 1) checked else checked))

  -- `ParseArgs`
  unfoldable pub parse_args : State D → List Bytes → Result Args
  unfolding set_defaults read_args finish insert
  parse_args p argv =
      set_defaults p p.entries (record no_vars { ints = insert (codes "FAIL") (pos 0) [] })
      >>= λ args. read_args p name 0 argv args >>= λ r. finish p r.0 r.1

  -- `ParseArgs(argc, argv, ignore_after)`: the arguments behind the program's name, up to one.
  unfoldable pub up_to : Bytes → List Bytes → List Bytes
  up_to ignore_after [] = []
  up_to ignore_after (s ∷ argv) =
      let rest = up_to ignore_after argv in
      if not (bytes_eq ignore_after []) && bytes_eq s ignore_after then [] else s ∷ rest

  unfoldable pub parse_command_line : State D → List Bytes → Bytes → Result Args
  unfolding up_to parse_args
  parse_command_line p [] ignore_after = parse_args p []
  parse_command_line p (program ∷ argv) ignore_after = parse_args p (up_to ignore_after argv)
