-- ===== src/Parse/Arguments/Declared/Built.antt =====
-- The declarations of a program keep the tables of the parser together.
use aphros_test.Base.{
  ◌≡◌, refl, sym, subst, ap, ◌∙◌, Bool, true, false, not, ◌&&◌, List, [], ◌∷◌, some, Bytes, codes,
  bytes_eq, bytes_less, if◌then◌else◌, ok, err, not_a_switch, inconsistent_names,
}
use aphros_test.Parse.Arguments.Declared.Arguments.{parse_args-Returns}
use aphros_test.Parse.Arguments.Declared.Invariant.{AllValues, AllTexts, Known, IsDeclared}
use aphros_test.Parse.Arguments.Declared.Outcomes.{Returns, Any}
use aphros_test.Parse.Arguments.Read.{parse_args}
use aphros_test.Parse.Arguments.{
  Entry, State, Value, int_value, set_value, strip_dash, is_number, is_optional, is_consistent,
  add_names, add_key, add_switch, add_variable, set_help, Choices, int_choices, double_choices,
  string_choices, vect_choices, set_options, empty_parser, new_parser,
}
use aphros_test.Parse.KeyMap.{insert, contains, lookup}
use aphros_test.Parse.Number.{pos, StreamNumber}
use aphros_test.Parse.Vars.{Vars, Kind, int, find_kind}
use aphros_test.Parse.Arguments.Declared.Adding.{add_switch-IsDeclared, add_variable-IsDeclared}

module _ (D : StreamNumber) where
  same_tables :
      (p q : State D)
      → q.entries ≡ p.entries
      → q.known_args ≡ p.known_args
      → q.pos_keys ≡ p.pos_keys
      → IsDeclared D p
      → IsDeclared D q
  same_tables p q e k l w = record {
    entries_known =
        subst
          (λ (v : Vars D.Value).
            AllValues (λ e. (d : Kind) × (find_kind v e.key ≡ some d)) q.entries)
          (sym k) (subst (AllValues (λ e. Known D p e.key)) (sym e) w.entries_known);
    positional_known =
        subst (λ (m : List (Bytes × Entry)). AllTexts (λ k. contains k m ≡ true) q.pos_keys) (sym e)
          (subst (AllTexts (λ k. contains k p.entries ≡ true)) (sym l) w.positional_known);
    help_entry =
        let (d, found, key, default) = w.help_entry in
        (d, ap (lookup (codes "help")) e ∙ found, key, default);
    help_int = ap (λ (v : Vars D.Value). find_kind v (codes "help")) k ∙ w.help_int;
  }

  set_help-IsDeclared :
      (key text : Bytes) (p : State D) → IsDeclared D p → IsDeclared D (set_help D key text p)
  unfolding set_help
  set_help-IsDeclared key text p w = same_tables p (set_help D key text p) refl refl refl w

  set_options-IsDeclared :
      (key : Bytes) (c : Choices D) (p : State D)
      → IsDeclared D p
      → IsDeclared D (set_options D key c p)
  unfolding set_options
  set_options-IsDeclared key (int_choices l) p w = same_tables p _ refl refl refl w
  set_options-IsDeclared key (double_choices l) p w = same_tables p _ refl refl refl w
  set_options-IsDeclared key (string_choices l) p w = same_tables p _ refl refl refl w
  set_options-IsDeclared key (vect_choices l) p w = same_tables p _ refl refl refl w

  -- `operator>>` takes no number from the two names of the help.
  abbrev pub NoNumbers : Type 0
  NoNumbers = (is_number D (codes "--help") ≡ false) × (is_number D (codes "-h") ≡ false)

  abbrev help_entry_of : Bool → Entry
  help_entry_of optional = record {
    key = codes "help";
    optional = optional;
    hasdefault = true;
    nargs = 0;
  }

  abbrev help_names : List Bytes
  help_names = codes "--help" ∷ codes "-h" ∷ []

  -- What the constructor declares, by the outcomes of its two tests.
  unfoldable help_switch : Bytes → Bool → Bool → State D
  unfolding add_names add_key
  help_switch desc a b =
      set_help D (codes "help") (codes "Print help and exit")
        (if not a
          then (empty_parser D desc, err not_a_switch)
          else if not b
          then (empty_parser D desc, err inconsistent_names)
          else add_key D (help_entry_of a) (int_value (pos 0))
              (add_names D (help_entry_of a) help_names (empty_parser D desc))).0

  new_parser-help_switch :
      (desc : Bytes)
      → new_parser D desc
        ≡ help_switch desc
            (is_optional D (codes "--help"))
            (is_consistent D (is_optional D (codes "--help")) (codes "-h" ∷ []))
  unfolding new_parser add_switch strip_dash help_switch
  new_parser-help_switch desc = refl

  long_optional : is_number D (codes "--help") ≡ false → is_optional D (codes "--help") ≡ true
  unfolding is_optional bytes_eq
  long_optional h = ap (λ (b : Bool). not b && true && true) h

  short_consistent :
      is_number D (codes "-h") ≡ false → is_consistent D true (codes "-h" ∷ []) ≡ true
  unfolding is_consistent is_optional bytes_eq
  short_consistent h =
      ap (λ (b : Bool). if not b && true && true then true && true else not true && true) h

  help_switch-IsDeclared : (desc : Bytes) → IsDeclared D (help_switch desc true true)
  unfolding help_switch add_names add_key set_value contains lookup insert set_help find_kind
      bytes_eq bytes_less
  help_switch-IsDeclared desc = record {
    entries_known = ((int, refl), ((int, refl), ((int, refl), tt)));
    positional_known = tt;
    help_entry = (help_entry_of true, refl, refl, refl);
    help_int = refl;
  }

  new_parser-IsDeclared : (desc : Bytes) → NoNumbers → IsDeclared D (new_parser D desc)
  new_parser-IsDeclared desc (long, short) =
      subst (IsDeclared D)
        (sym (
          new_parser-help_switch desc
          ∙ ap (λ (a : Bool). help_switch desc a (is_consistent D a (codes "-h" ∷ [])))
              (long_optional long)
          ∙ ap (help_switch desc true) (short_consistent short)))
        (help_switch-IsDeclared desc)

  -- The parsers that a program can declare, with a new key for each declaration.
  pub data Built : State D → Type 0 where
    start : (desc : Bytes) → Built (new_parser D desc)
    switch :
        {p q : State D} (n : Bytes) (names : List Bytes)
        → Built p
        → contains (strip_dash n) p.entries ≡ false
        → add_switch D (n ∷ names) p ≡ (q, ok tt)
        → Built q
    variable :
        {p q : State D} (n : Bytes) (names : List Bytes) (value : Value D.Value) (hasdefault : Bool)
        → Built p
        → contains (strip_dash n) p.entries ≡ false
        → add_variable D (n ∷ names) value hasdefault p ≡ (q, ok tt)
        → Built q
    helped : {p : State D} (key text : Bytes) → Built p → Built (set_help D key text p)
    chosen : {p : State D} (key : Bytes) (c : Choices D) → Built p → Built (set_options D key c p)

  Built-IsDeclared : (p : State D) → NoNumbers → Built p → IsDeclared D p
  Built-IsDeclared p z (start desc) = new_parser-IsDeclared desc z
  Built-IsDeclared p z (switch {p = p'} n names b own h) =
      add_switch-IsDeclared D n names p' p (Built-IsDeclared p' z b) own h
  Built-IsDeclared p z (variable {p = p'} n names value hasdefault b own h) =
      add_variable-IsDeclared D n names value hasdefault p' p (Built-IsDeclared p' z b) own h
  Built-IsDeclared p z (helped {p = p'} key text b) =
      set_help-IsDeclared key text p' (Built-IsDeclared p' z b)
  Built-IsDeclared p z (chosen {p = p'} key c b) =
      set_options-IsDeclared key c p' (Built-IsDeclared p' z b)

  -- Whatever the arguments are, `ParseArgs` of a parser that is declared by calls of `AddSwitch`,
  -- `AddVariable`, `Help` and `Options`, each declaration with a key that is not in the tables yet,
  -- gives variables or one of four errors: a text that is no value of a type, characters behind a
  -- value, a change of a variable's type, or a switch that is no `int`. So no look-up in the tables
  -- fails. No number is read from the names of the help.
  pub parse_args-Built :
      (p : State D) (argv : List Bytes) → NoNumbers → Built p → Returns Any (parse_args D p argv)
  parse_args-Built p argv z b = parse_args-Returns D p (Built-IsDeclared p z b) argv
