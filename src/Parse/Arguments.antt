-- ===== src/Parse/Arguments.antt =====
-- `ArgumentParser` of parse/argparse.cpp: the switches and variables that a program declares. A
-- failed declaration leaves what it has done before it threw.
pub mod Read
pub mod Help
pub mod Declared
use aphros_test.Base.{
  ℕ, zero, suc, Bool, true, false, not, ◌&&◌, List, [], ◌∷◌, ◌++◌, Option, none, some, Bytes, codes,
  bytes_eq, ◌==◌, if◌then◌else◌, Error, empty_names, not_a_switch, inconsistent_names,
  name_conflict, Result, ok, err,
}
use aphros_test.Parse.KeyMap.{lookup, insert, contains}
use aphros_test.Parse.Number.{ℤ, pos, got, failed, untouched, StreamNumber}
use aphros_test.Parse.Vars.{Vars, no_vars}

pub record Entry : Type 0 where
  pub key : Bytes
  pub optional : Bool
  pub hasdefault : Bool
  pub nargs : ℕ

-- `ArgumentParser::Imp`, over the type that stands for `double`.
pub record Parser (T : Type 0) : Type 0 where
  pub desc : Bytes
  pub entries : List (Bytes × Entry)
  pub known_args : Vars T
  pub pos_keys : List Bytes
  pub opt_keys : List Bytes
  pub help : List (Bytes × Bytes)
  pub names : List (Bytes × List Bytes)
  pub options_int : List (Bytes × List ℤ)
  pub options_double : List (Bytes × List T)
  pub options_string : List (Bytes × List Bytes)
  pub options_vect : List (Bytes × List (List T))

-- The default of a variable, by its type.
pub data Value (T : Type 0) : Type 0 where
  string_value : Bytes → Value T
  int_value : ℤ → Value T
  double_value : T → Value T
  vect_value : List T → Value T

-- `known_args_.template Get<T>().Set(key, defaultval)`
unfoldable pub set_value : {T : Type 0} → Bytes → Value T → Vars T → Vars T
unfolding insert
set_value k (string_value v) vars = record vars { strings = insert k v vars.strings }
set_value k (int_value v) vars = record vars { ints = insert k v vars.ints }
set_value k (double_value v) vars = record vars { doubles = insert k v vars.doubles }
set_value k (vect_value v) vars = record vars { vects = insert k v vars.vects }

-- `StripDash`
unfoldable pub strip_dash : Bytes → Bytes
strip_dash [] = []
strip_dash (c ∷ s) = let rest = strip_dash s in if c == b'-' then rest else c ∷ s

-- `StartsWithDash`
abbrev pub starts_with_dash : Bytes → Bool
starts_with_dash [] = false
starts_with_dash (c ∷ s) = c == b'-'

-- `names_[key].push_back(name)`
unfoldable pub push_name : Bytes → Bytes → List (Bytes × List Bytes) → List (Bytes × List Bytes)
unfolding lookup insert
push_name key name m =
    insert key (elim (lookup key m) [ none ↦ name ∷ [] | some l ↦ l ++ (name ∷ []) ]) m

module _ (D : StreamNumber) where
  abbrev pub State : Type 0
  State = Parser D.Value

  abbrev pub Change : Type 0
  Change = State × Result (Unit {0})

  -- `IsNumber`
  unfoldable pub is_number : Bytes → Bool
  is_number s = elim (D.read s) [ got a rest ↦ true | failed a ended ↦ false | untouched ↦ false ]

  -- `IsOptional`
  unfoldable pub is_optional : Bytes → Bool
  unfolding is_number
  is_optional name =
      starts_with_dash name
      && not (is_number name)
      && not (bytes_eq name (codes "-"))
      && not (bytes_eq name (codes "--"))

  -- `CheckNameConsistency`, for the names behind the first one.
  unfoldable pub is_consistent : Bool → List Bytes → Bool
  unfolding is_optional
  is_consistent first [] = true
  is_consistent first (n ∷ names) =
      let rest = is_consistent first names in
      if is_optional n then first && rest else not first && rest

  -- The loop over the names, with `CheckNameConflict`.
  unfoldable pub add_names : Entry → List Bytes → State → Change
  unfolding contains insert push_name
  add_names entry [] p = (p, ok tt)
  add_names entry (n ∷ names) p =
      let added =
        add_names entry names (record p {
          entries = insert n entry p.entries;
          names = push_name entry.key n p.names;
        }) in
      if contains n p.entries then (p, err name_conflict) else added

  -- What follows the loop: the entry of the key itself, its default, and the list of its kind.
  unfoldable pub add_key : Entry → Value D.Value → Change → Change
  unfolding insert set_value
  add_key entry value (p, err e) = (p, err e)
  add_key entry value (p, ok _) = (
    record p {
      entries = insert entry.key entry p.entries;
      known_args = set_value entry.key value p.known_args;
      pos_keys = if entry.optional then p.pos_keys else p.pos_keys ++ (entry.key ∷ []);
      opt_keys = if entry.optional then p.opt_keys ++ (entry.key ∷ []) else p.opt_keys;
    },
    ok tt,
  )

  -- `AddSwitch`
  unfoldable pub add_switch : List Bytes → State → Change
  unfolding strip_dash is_optional is_consistent add_names add_key
  add_switch [] p = (p, err empty_names)
  add_switch (n ∷ names) p =
      let entry : Entry = record {
        key = strip_dash n;
        optional = is_optional n;
        hasdefault = true;
        nargs = 0;
      } in
      if not (is_optional n)
      then (p, err not_a_switch)
      else if not (is_consistent (is_optional n) names)
      then (p, err inconsistent_names)
      else add_key entry (int_value (pos 0)) (add_names entry (n ∷ names) p)

  -- `AddVariable`
  unfoldable pub add_variable : List Bytes → Value D.Value → Bool → State → Change
  unfolding strip_dash is_optional is_consistent add_names add_key
  add_variable [] value hasdefault p = (p, err empty_names)
  add_variable (n ∷ names) value hasdefault p =
      let entry : Entry = record {
        key = strip_dash n;
        optional = is_optional n;
        hasdefault = hasdefault;
        nargs = 1;
      } in
      if not (is_consistent (is_optional n) names)
      then (p, err inconsistent_names)
      else add_key entry value (add_names entry (n ∷ names) p)

  -- `Proxy::Help`
  unfoldable pub set_help : Bytes → Bytes → State → State
  unfolding insert
  set_help key text p = record p { help = insert key text p.help }

  -- A list of values of one type.
  pub data Choices : Type 0 where
    int_choices : List ℤ → Choices
    double_choices : List D.Value → Choices
    string_choices : List Bytes → Choices
    vect_choices : List (List D.Value) → Choices

  -- `Proxy::Options`
  unfoldable pub set_options : Bytes → Choices → State → State
  unfolding insert
  set_options key (int_choices l) p = record p { options_int = insert key l p.options_int }
  set_options key (double_choices l) p = record p { options_double = insert key l p.options_double }
  set_options key (string_choices l) p = record p { options_string = insert key l p.options_string }
  set_options key (vect_choices l) p = record p { options_vect = insert key l p.options_vect }

  abbrev pub empty_parser : Bytes → State
  empty_parser desc = record {
    desc = desc;
    entries = [];
    known_args = no_vars;
    pos_keys = [];
    opt_keys = [];
    help = [];
    names = [];
    options_int = [];
    options_double = [];
    options_string = [];
    options_vect = [];
  }

  -- The constructor, with the switch for help.
  unfoldable pub new_parser : Bytes → State
  unfolding add_switch set_help
  new_parser desc =
      set_help (codes "help") (codes "Print help and exit")
        (add_switch (codes "--help" ∷ codes "-h" ∷ []) (empty_parser desc)).0
