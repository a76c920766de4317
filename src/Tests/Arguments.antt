-- ===== src/Tests/Arguments.antt =====
-- Runs of the parser of arguments, with one digit for `double`.
use aphros_test.Base.{
  ℕ, ◌≡◌, refl, true, false, [], ◌∷◌, List, Bytes, codes, Option, none, some, ok, err, Error,
  Result, ◌>>=◌, bad_value, change_of_type, name_conflict,
}
use aphros_test.Parse.Arguments.{
  State, add_switch, add_variable, set_help, set_options, int_choices, int_value, string_value,
  new_parser,
}
use aphros_test.Parse.Arguments.Help.{print_help}
use aphros_test.Parse.Arguments.Read.{parse_args}
use aphros_test.Parse.Arguments.Declared.Outcomes.{Returns, Any}
use aphros_test.Parse.Arguments.Declared.Built.{
  Built, start, switch, variable, helped, chosen, parse_args-Built,
}
use aphros_test.Parse.KeyMap.{lookup}
use aphros_test.Parse.Number.{pos, ℤ}
use aphros_test.Parse.Vars.{Vars}
use aphros_test.Tests.Numbers.{digit}

abbrev base : State digit
base = new_parser digit (codes "Prints.")

abbrev quiet : State digit
quiet = (add_switch digit (codes "--quiet" ∷ codes "-q" ∷ []) base).0

abbrev count : State digit
count = (add_variable digit (codes "--count" ∷ codes "-n" ∷ []) (int_value (pos 3)) true quiet).0

abbrev file : State digit
file = (add_variable digit (codes "file" ∷ []) (string_value []) false count).0

abbrev limited : State digit
limited = set_options digit (codes "count") (int_choices (pos 3 ∷ pos 5 ∷ [])) file

abbrev program : State digit
program = set_help digit (codes "count") (codes "Copies") limited

abbrev int_of : Bytes → Result (Vars ℕ) → Option ℤ
int_of key (ok vars) = lookup key vars.ints
int_of key (err e) = none

parse_args_sets :
    int_of (codes "count") (parse_args digit program (codes "-n" ∷ codes "5" ∷ codes "x" ∷ []))
    ≡ some (pos 5)
unfolding parse_args set_help set_options add_variable aphros_test.Tests.Numbers.read_one
    aphros_test.Base.bytes_eq add_switch new_parser aphros_test.Base.bytes_less
parse_args_sets = refl

parse_args_missing :
    int_of (codes "EXIT") (parse_args digit program (codes "-q" ∷ [])) ≡ some (pos 1)
unfolding parse_args set_help set_options add_variable aphros_test.Tests.Numbers.read_one
    aphros_test.Base.bytes_eq add_switch new_parser aphros_test.Base.bytes_less
parse_args_missing = refl

parse_args_options :
    int_of (codes "EXIT") (parse_args digit program (codes "-n" ∷ codes "4" ∷ codes "x" ∷ []))
    ≡ some (pos 1)
unfolding parse_args set_help set_options add_variable aphros_test.Tests.Numbers.read_one
    aphros_test.Base.bytes_eq add_switch new_parser aphros_test.Base.bytes_less
parse_args_options = refl

parse_args_bad : parse_args digit program (codes "-n" ∷ codes "x" ∷ []) ≡ err bad_value
unfolding parse_args set_help set_options add_variable aphros_test.Tests.Numbers.read_one
    aphros_test.Base.bytes_eq add_switch new_parser aphros_test.Base.bytes_less
parse_args_bad = refl

print_help_usage :
    print_help digit program false (codes "copy")
    ≡ ok (codes "usage: copy [--help|-h] [--quiet|-q] [--count|-n COUNT] FILE\n")
unfolding print_help set_help set_options add_variable aphros_test.Tests.Numbers.read_one
    aphros_test.Base.bytes_eq add_switch new_parser aphros_test.Base.bytes_less
print_help_usage = refl

-- A variable whose key is that of the parser's own flag.
abbrev failing : State digit
failing = (add_variable digit (codes "FAIL" ∷ []) (string_value []) true base).0

failing-Built : Built digit failing
unfolding aphros_test.Parse.KeyMap.contains add_variable aphros_test.Tests.Numbers.read_one
    aphros_test.Base.bytes_eq add_switch new_parser aphros_test.Base.bytes_less
failing-Built =
    variable (codes "FAIL") [] (string_value []) true (start (codes "Prints.")) refl refl

parse_args_own_flag : parse_args digit failing [] ≡ err change_of_type
unfolding parse_args set_help set_options add_variable aphros_test.Tests.Numbers.read_one
    aphros_test.Base.bytes_eq add_switch new_parser aphros_test.Base.bytes_less
parse_args_own_flag = refl

quiet-Built : Built digit quiet
unfolding aphros_test.Parse.KeyMap.contains new_parser aphros_test.Tests.Numbers.read_one
    aphros_test.Base.bytes_eq aphros_test.Base.bytes_less
quiet-Built = switch (codes "--quiet") (codes "-q" ∷ []) (start (codes "Prints.")) refl refl

count-Built : Built digit count
unfolding aphros_test.Parse.KeyMap.contains add_switch aphros_test.Tests.Numbers.read_one
    aphros_test.Base.bytes_eq new_parser aphros_test.Base.bytes_less add_variable
count-Built =
    variable (codes "--count") (codes "-n" ∷ []) (int_value (pos 3)) true quiet-Built refl refl

file-Built : Built digit file
unfolding aphros_test.Parse.KeyMap.contains add_variable aphros_test.Tests.Numbers.read_one
    aphros_test.Base.bytes_eq add_switch new_parser aphros_test.Base.bytes_less
file-Built = variable (codes "file") [] (string_value []) false count-Built refl refl

program-Built : Built digit program
program-Built =
    helped (codes "count") (codes "Copies")
      (chosen (codes "count") (int_choices (pos 3 ∷ pos 5 ∷ [])) file-Built)

parse_args-Built_example :
    Returns Any (parse_args digit program (codes "-n" ∷ codes "4" ∷ codes "x" ∷ []))
unfolding aphros_test.Parse.Arguments.is_number aphros_test.Tests.Numbers.read_one
parse_args-Built_example =
    parse_args-Built digit program (codes "-n" ∷ codes "4" ∷ codes "x" ∷ []) (refl, refl)
      program-Built
